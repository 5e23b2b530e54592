-- ===== src/Space/Fixed.antt =====
-- The first areas of `split_space`: the boot area and the volume recognition sequence.
use udftools.Base.{
  subst, ℕ, ◌+◌, ◌/◌, ◌≤◌, ◌<◌, ◌≡◌, refl, sym, inl, inr, some, arith, leb, Bool-cases, ok, Returns,
  Returns->>=, if◌then◌else◌, add32,
}
use udftools.Extent.{unzip, set_extent}
use udftools.Extent.SpaceType
use udftools.Extent.Tiling.{type_at}
use udftools.Extent.Place.{Fits, Placed, set_extent-Placed}
use udftools.Extent.Blank.{set_extent_front}
use udftools.Space.{
  Disc, init_space, has_flag, flag_bootarea_mbr, divide, place, place_boot_area, place_vrs,
}
use udftools.Space.Sane.{Sane, Sane-exts, divide-ok, vrs_bounds}

-- The blocks of the volume recognition sequence.
abbrev pub vrs_blocks : ℕ → ℕ
vrs_blocks blocksize = if leb 2048 blocksize then 4 else (6144 + blocksize) / blocksize

vrs_blocks-bounds :
    (blocksize : ℕ)
    → 512 ≤ blocksize
    → blocksize ≤ 32768
    → (0 < vrs_blocks blocksize) × (vrs_blocks blocksize ≤ 13)
vrs_blocks-bounds b low high = let bounds = vrs_bounds b low high in ground arith

vrs_blocks-divide :
    (blocksize : ℕ)
    → 512 ≤ blocksize
    → blocksize ≤ 32768
    → (if leb 2048 blocksize then ok 4 else divide (add32 6144 blocksize) blocksize)
      ≡ ok (vrs_blocks blocksize)
vrs_blocks-divide b low high = elim (Bool-cases (leb 2048 b)) [
  | inl wide ↦ rw wide refl
  | inr narrow ↦ rw narrow (
      let same : add32 6144 b ≡ 6144 + b = omega arith in
      rw same (divide-ok (6144 + b) b (omega arith)))
]

-- The sequence fits behind the boot area.
pub record Begun (given d : Disc) : Type 0 where
  pub sane : Sane given d
  pub room : Fits (32768 / given.blocksize) (vrs_blocks given.blocksize) d.exts

module _ (given : Disc) (h : Sane given (init_space given)) where
  front-Begun :
      (type size : ℕ)
      → 0 < size
      → size ≤ 32768 / given.blocksize
      → Returns (place type 0 size (init_space given)) (Begun given)
  unfolding place init_space
  front-Begun type size some_blocks bound =
      let bounds = vrs_bounds given.blocksize h.blocksize.0 h.blocksize.1 in
      let n = vrs_blocks-bounds given.blocksize h.blocksize.0 h.blocksize.1 in
      rw (set_extent_front type given.blocks size some_blocks (omega (arith, h.large)) h.small)
        (record {
          sane =
              Sane-exts given (init_space given) _ h (refl, (omega arith, omega (arith, h.large)));
          room = inr (inl (omega (arith, h.large)));
        })

  pub place_boot_area-Begun : Returns (place_boot_area (init_space given)) (Begun given)
  unfolding place_boot_area init_space
  place_boot_area-Begun =
      let bounds = vrs_bounds given.blocksize h.blocksize.0 h.blocksize.1 in
      elim (Bool-cases (has_flag (init_space given) flag_bootarea_mbr)) [
        | inl mbr ↦ rw mbr (front-Begun SpaceType.mbr 1 (omega arith) bounds.0)
        | inr plain ↦ rw plain (
            rw (divide-ok 32768 given.blocksize (omega (arith, h.blocksize.0)))
              (front-Begun SpaceType.reserved (32768 / given.blocksize) bounds.0 (omega arith)))
      ]

-- The blocks of the volume recognition sequence have that type.
abbrev pub HasVrs : Disc → Disc → Type 0
HasVrs given d =
    (x : ℕ)
    → 32768 / given.blocksize ≤ x
    → x < 32768 / given.blocksize + vrs_blocks given.blocksize
    → type_at d.exts x ≡ some SpaceType.vrs

pub record Recognised (given d : Disc) : Type 0 where
  pub sane : Sane given d
  pub sequence : HasVrs given d

module _ (given d : Disc) where
  -- The sequence ends before block 77.
  pub vrs_end : Sane given d → 32768 / given.blocksize + vrs_blocks given.blocksize ≤ 77
  vrs_end h =
      let bounds = vrs_bounds d.blocksize h.blocksize.0 h.blocksize.1 in
      let n = vrs_blocks-bounds d.blocksize h.blocksize.0 h.blocksize.1 in
      subst (λ k. 32768 / k + vrs_blocks k ≤ 77) h.same_blocksize (omega arith)

  pub place_vrs-Recognised : Begun given d → Returns (place_vrs d) (Recognised given)
  unfolding place_vrs place
  place_vrs-Recognised b =
      let h = b.sane in
      let start = 32768 / d.blocksize in
      let size = vrs_blocks d.blocksize in
      rw (divide-ok 32768 d.blocksize (omega (arith, h.blocksize.0))) (
        rw (vrs_blocks-divide d.blocksize h.blocksize.0 h.blocksize.1) (
          Returns->>= (set_extent d.exts SpaceType.vrs start size) _
            (Placed 0 given.blocks SpaceType.vrs start size d.exts) (Recognised given)
            (set_extent-Placed d.exts SpaceType.vrs start size 0 given.blocks h.tiles h.small
              (subst (λ k. Fits (32768 / k) (vrs_blocks k) d.exts) (sym h.same_blocksize) b.room))
            λ c p. record {
              sane = Sane-exts given d (unzip c) h p.tiles;
              sequence =
                  subst
                    (λ k.
                      (x : ℕ)
                      → 32768 / k ≤ x
                      → x < 32768 / k + vrs_blocks k
                      → type_at (unzip c) x ≡ some SpaceType.vrs)
                    h.same_blocksize (λ x low high. ground (arith, p.types x));
            }))

-- ===== src/Layout/Descriptors.antt =====
-- The volume descriptor sequences and the integrity descriptors of `split_space`.
use native.Mathlib.Nat.{div-mul-le_self}
use udftools.Base.{
  ℕ, ◌*◌, ◌/◌, ◌≤◌, ◌<◌, ◌≡◌, ◌≢◌, none, some, Option, ap, refl, inl, inr, true, ◌||◌, arith, ltb,
  leb, Bool-cases, EndsOr, EndsOr->>=, EndsOr_mono, EndsOr_of_Returns, Returns, Run, ok, ◌∙◌, ◌>>=◌,
  u32, sub32, add32,
}
use udftools.Extent.{Cursor, first, last, next_extent, find_next_extent_size, prev_extent_size}
use udftools.Extent.SpaceType
use udftools.Extent.Search.Sound.{Found, find_next_extent_size-Found}
use udftools.Extent.Cursors.{prev_extent_size-Found, next_extent-finds}
use udftools.Layout.{
  Sizes, from_block, place_mvds, place_rvds, place_lvid, place_missing, place_lvid_last,
}
use udftools.Space.{Disc, has_flag, flag_vat, place_found}
use udftools.Space.Sane.{Sane, After, Made, stay-After, divide-ok, place_found-Made}
use udftools.Layout.Amounts.{Sized}
use udftools.Layout.Short.{NoMvds, NoRvds, NoLvid}

module _ (given d : Disc) (sizes : Sizes) (h : Sane given d) (s : Sized given sizes) where
  -- A search, and the area that it finds.
  result-Made :
      (search : Run ℕ) (type size : ℕ)
      → 0 < size
      → Returns search (Found SpaceType.uspace size d.exts)
      → EndsOr
          (search >>= λ start. place_found type start size d)
          (Made given d type size)
          (search ≡ ok 0)
  result-Made search type size some_blocks found =
      EndsOr->>= search _ (Found SpaceType.uspace size d.exts) (Made given d type size)
        (search ≡ ok 0)
        (EndsOr_of_Returns search (Found SpaceType.uspace size d.exts) (search ≡ ok 0) found)
        λ x result f.
          EndsOr_mono (place_found type x size d) (Made given d type size) (Made given d type size)
            (x ≡ 0) (search ≡ ok 0) (place_found-Made type x size given d h some_blocks f)
            (λ a m. m) (λ zero. result ∙ ap (λ (k : ℕ). ok k) zero)

  search-Made :
      (type start size align : ℕ)
      → start < given.blocks
      → 0 < align
      → align ≤ size
      → EndsOr
          (do
            start ← find_next_extent_size d.exts start SpaceType.uspace size align
            place_found type start size d)
          (Made given d type size)
          (find_next_extent_size d.exts start SpaceType.uspace size align ≡ ok 0)
  search-Made type start size align inside pos wide =
      result-Made (find_next_extent_size d.exts start SpaceType.uspace size align) type size
        (omega arith)
        (find_next_extent_size-Found d.exts start SpaceType.uspace size align 0 given.blocks h.tiles
          h.small (omega arith) inside pos wide)

  back-Made :
      (type size align : ℕ)
      → 0 < align
      → align ≤ size
      → EndsOr
          (do
            start ← prev_extent_size (last d.exts) SpaceType.uspace size align
            place_found type start size d)
          (Made given d type size)
          (prev_extent_size (last d.exts) SpaceType.uspace size align ≡ ok 0)
  back-Made type size align pos wide =
      result-Made (prev_extent_size (last d.exts) SpaceType.uspace size align) type size
        (omega arith)
        (prev_extent_size-Found d.exts SpaceType.uspace size align given.blocks h.tiles h.small pos
          wide)

  from_block-lt : (start : ℕ) → start ≤ 256 → from_block d start < given.blocks
  from_block-lt start low = let large = h.large in ground arith

  vds_same : d.vds.min_size ≡ given.vds.min_size
  vds_same = ap (λ z. z.min_size) h.same_vds

  vds_align : d.vds.align ≤ sizes.vds
  vds_align = omega (arith, s.vds, h.vds.1, vds_same)

  lvid_align : d.lvid.align ≤ sizes.lvid
  lvid_align =
      let same : d.lvid.min_size ≡ given.lvid.min_size = ap (λ z. z.min_size) h.same_lvid in
      omega (arith, s.lvid, h.lvid.1)

  pub place_mvds-Made :
      EndsOr (place_mvds sizes d) (Made given d SpaceType.mvds sizes.vds) (NoMvds sizes d)
  unfolding place_mvds
  place_mvds-Made =
      search-Made SpaceType.mvds (from_block d 96) sizes.vds d.vds.align
        (from_block-lt 96 (omega arith)) h.vds.0 vds_align

  pub place_rvds-Made :
      EndsOr (place_rvds sizes d) (Made given d SpaceType.rvds sizes.vds) (NoRvds sizes d)
  unfolding place_rvds
  place_rvds-Made =
      let large = h.large in
      let small = h.small in
      let packets = sub32 256 sizes.vds / d.vds.align in
      elim (Bool-cases (has_flag d flag_vat)) [
        | inl vat ↦ rw vat (
            rw (divide-ok (sub32 256 sizes.vds) d.vds.align h.vds.0) (
              search-Made SpaceType.rvds (u32 (packets * d.vds.align)) sizes.vds d.vds.align
                (omega (
                  arith,
                  s.vds,
                  vds_same,
                  h.vds.2,
                  div-mul-le_self (sub32 256 sizes.vds) d.vds.align,
                ))
                h.vds.0 vds_align))
        | inr no_vat ↦ rw no_vat (
            let more : ltb 257 d.blocks ≡ true = ground (arith, h.blocks) in
            rw more (elim (Bool-cases (leb 3072 d.blocks)) [
              | inl many ↦ rw many (
                  search-Made SpaceType.rvds (add32 (sub32 d.blocks 257) 97 / 32 * 32) sizes.vds
                    d.vds.align
                    (ground (arith, h.blocks, div-mul-le_self (add32 (sub32 d.blocks 257) 97) 32))
                    h.vds.0 vds_align)
              | inr few ↦ rw few (back-Made SpaceType.rvds sizes.vds d.vds.align h.vds.0 vds_align)
            ]))
      ]

  pub place_lvid-After :
      EndsOr (place_lvid sizes d) (After given d) (NoLvid (from_block d 128) sizes d)
  unfolding place_lvid
  place_lvid-After =
      let E = NoLvid (from_block d 128) sizes d in
      EndsOr->>= (prev_extent_size (last d.exts) SpaceType.uspace sizes.lvid d.lvid.align) _
        (Found SpaceType.uspace sizes.lvid d.exts) (After given d) E
        (EndsOr_of_Returns (prev_extent_size (last d.exts) SpaceType.uspace sizes.lvid d.lvid.align)
          (Found SpaceType.uspace sizes.lvid d.exts) E
          (prev_extent_size-Found d.exts SpaceType.uspace sizes.lvid d.lvid.align given.blocks
            h.tiles h.small h.lvid.0 lvid_align))
        λ x result found. elim (Bool-cases (ltb x 256 || leb 770 d.blocks)) [
          | inl again ↦ rw again (
              EndsOr_mono _ (Made given d SpaceType.lvid sizes.lvid) (After given d) E E
                (search-Made SpaceType.lvid (from_block d 128) sizes.lvid d.lvid.align
                  (from_block-lt 128 (omega arith)) h.lvid.0 lvid_align)
                (λ d' m. m.after) (λ none_found. none_found))
          | inr later ↦ rw later (stay-After given d h)
        ]

  place_missing-EndsOr :
      (c : Option Cursor)
      → next_extent (first d.exts) SpaceType.lvid ≡ c
      → EndsOr
          (place_missing c sizes d)
          (λ d'. After given d d' × (next_extent (first d'.exts) SpaceType.lvid ≢ none))
          (NoLvid 0 sizes d)
  unfolding place_missing
  place_missing-EndsOr (some c) found = (stay-After given d h, λ nothing. cc)
  place_missing-EndsOr none found =
      EndsOr_mono _ (Made given d SpaceType.lvid sizes.lvid) _ (NoLvid 0 sizes d) (NoLvid 0 sizes d)
        (search-Made SpaceType.lvid 0 sizes.lvid d.lvid.align (omega (arith, h.large)) h.lvid.0
          lvid_align)
        (λ d' m. (
          m.after,
          next_extent-finds SpaceType.lvid sizes.lvid d'.exts (omega (arith, h.lvid.0, lvid_align))
              (omega arith) m.area,
        ))
        (λ none_found. none_found)

  pub place_lvid_last-EndsOr :
      EndsOr
        (place_lvid_last sizes d)
        (λ d'. After given d d' × (next_extent (first d'.exts) SpaceType.lvid ≢ none))
        (NoLvid 0 sizes d)
  unfolding place_lvid_last
  place_lvid_last-EndsOr = place_missing-EndsOr (next_extent (first d.exts) SpaceType.lvid) refl

-- ===== src/Layout/Partition.antt =====
-- The partition of `split_space`: an aligned part of the free space.
use native.Mathlib.Nat.{mod-lt, mod-le}
use udftools.Base.{
  ℕ, ◌+◌, ◌-◌, ◌%◌, ◌^◌, ◌≤◌, ◌<◌, ◌≡◌, subst, refl, ◌⊎◌, inl, inr, true, false, ◌||◌, none, some,
  List, [], ◌∷◌, arith, ltb, leb, ◌==◌, Bool-cases, Returns, Returns->>=, EndsOr, EndsOr->>=,
  EndsOr_of_Returns, ap, ◌∙◌, ok, ◌>>=◌, sub32, add32, reverse_onto, Option,
}
use udftools.Base.Multiples.{round_up, round_up-mod, round_down-mod}
use udftools.Extent.{Extent, Cursor, first, last, has_type, next_extent, prev_extent, find_extent}
use udftools.Extent.SpaceType
use udftools.Extent.Tiling.{Tiles, Tiles-le, Tiles-suffix}
use udftools.Extent.Find.{Holds, find_extent-Holds}
use udftools.Extent.Search.{Room}
use udftools.Extent.Search.Sound.{Room-reverse_onto}
use udftools.Extent.Cursors.{Into, next_extent-Into, next_first-Into, prev_last-Into}
use udftools.Layout.{
  Region, aligned_part, larger, largest_from, largest_at, largest_free, place_partition,
}
use udftools.Layout.Short.{NoPspace}
use udftools.Space.{Disc, has_flag, flag_vat, place}
use udftools.Space.Sane.{Sane, Filling, place-Filling}

-- A multiple of the alignment of free blocks, at a multiple of it; or nothing.
Best : ℕ → List Extent → Region → Type 0
Best align exts r =
    (r.size ≡ 0)
    ⊎ (r.start % align ≡ 0) × (r.size % align ≡ 0) × Room SpaceType.uspace r.size r.start exts

module _ (align : ℕ) (pos : 0 < align) where
  -- The aligned part of an extent lies in it.
  Part : Extent → Region → Type 0
  Part e p =
      (p.size ≡ 0)
      ⊎ (p.start % align ≡ 0)
        × (p.size % align ≡ 0)
        × (e.start ≤ p.start)
        × (p.start + p.size ≤ e.start + e.blocks)

  aligned_part-Part :
      (e : Extent) → e.start + e.blocks < 2 ^ 32 → Returns (aligned_part align e) (Part e)
  unfolding aligned_part Part
  aligned_part-Part e small =
      let divides : (align == 0) ≡ false = ground arith in
      let rest = e.start % align in
      let low = mod-lt e.start pos in
      let under = mod-le e.start align in
      elim (Bool-cases (rest == 0)) [
        | inl aligned ↦ rw aligned (
            rw divides
              (inr (ground arith, round_down-mod e.blocks align pos, omega arith, omega arith)))
        | inr other ↦ rw other (
            rw divides (elim (Bool-cases (leb (add32 e.blocks rest) align)) [
              | inl little ↦ rw little (inl refl)
              | inr enough ↦
                  let start : sub32 (add32 e.start align) rest ≡ round_up e.start align =
                    ground arith in
                  let size : add32 (sub32 e.blocks align) rest ≡ e.blocks - (align - rest) =
                    ground arith in
                  rw enough (
                    rw start (
                      rw size (
                        inr (
                          round_up-mod e.start align pos,
                          round_down-mod (e.blocks - (align - rest)) align pos,
                          omega arith,
                          ground arith,
                        ))))
            ]))
      ]

  larger-Best :
      (exts : List Extent) (best new : Region)
      → Best align exts best
      → Best align exts new
      → Best align exts (larger best new)
  unfolding larger
  larger-Best exts best new old fresh = elim (Bool-cases (ltb best.size new.size)) [
    | inl more ↦ rw more fresh
    | inr less ↦ rw less old
  ]

  Part-Best :
      (b : List Extent) (e : Extent) (r : List Extent) (p : Region)
      → has_type e SpaceType.uspace ≡ true
      → Part e p
      → Best align (reverse_onto b (e ∷ r)) p
  unfolding Part Best Room
  Part-Best b e r p typed (inl nothing) = inl nothing
  Part-Best b e r p typed (inr part) = inr (
    part.0,
    part.1,
    Room-reverse_onto SpaceType.uspace p.size p.start b (e ∷ r) (inl (typed, part.2, part.3)),
  )

  module _ (t : ℕ) (small : t < 2 ^ 32) where
    largest_from-Best :
        (m : ℕ) (b r : List Extent) (best : Region)
        → Tiles m r t
        → Best align (reverse_onto b r) best
        → Returns (largest_from align best r) (Best align (reverse_onto b r))
    unfolding largest_from
    largest_from-Best m b [] best tiles old = old
    largest_from-Best m b (e ∷ r) best tiles old =
        let bound = Tiles-le (e.start + e.blocks) t r tiles.1 in
        let rest : (part : Region)
            → Best align (reverse_onto b (e ∷ r)) part
            → Returns (largest_from align (larger best part) r)
                (Best align (reverse_onto b (e ∷ r))) =
          λ part fresh.
            largest_from-Best (e.start + e.blocks) (e ∷ b) r (larger best part) tiles.1
              (larger-Best (reverse_onto b (e ∷ r)) best part old fresh) in
        elim (Bool-cases (has_type e SpaceType.uspace)) [
          | inl typed ↦ rw typed (
              Returns->>= (aligned_part align e) _ (Part e) (Best align (reverse_onto b (e ∷ r)))
                (aligned_part-Part e (omega arith))
                λ part p. rest part (Part-Best b e r part typed p))
          | inr other ↦ rw other (rest best old)
        ]

    largest_at-Best :
        (exts : List Extent) (c : Option Cursor) (best : Region)
        → Tiles 0 exts t
        → Into exts c
        → Best align exts best
        → Returns (largest_at align best c) (Best align exts)
    unfolding largest_at
    largest_at-Best exts none best tiles into old = old
    largest_at-Best exts (some c) best tiles into old =
        let ahead = Tiles-suffix 0 t c.before (c.at ∷ c.after) (rw into tiles) in
        subst (λ l. Returns (largest_from align best (c.at ∷ c.after)) (Best align l)) into
          (largest_from-Best ahead.0 c.before (c.at ∷ c.after) best ahead.1 (rw into old))

module _ (given d : Disc) (h : Sane given d) where
  largest_free-Best : Returns (largest_free d) (Best d.pspace.align d.exts)
  unfolding largest_free
  largest_free-Best =
      let Good = Best d.pspace.align d.exts in
      let search = largest_at-Best d.pspace.align h.pspace given.blocks h.small d.exts in
      Returns->>= (find_extent d.exts 256) _ (Holds 0 given.blocks 256 d.exts) Good
        (find_extent-Holds d.exts 256 0 given.blocks h.tiles (omega arith) (omega (arith, h.large))
          h.small)
        λ c held.
          Returns->>=
            (largest_at d.pspace.align (record { start = 0; size = 0 })
              (next_extent (some c) SpaceType.uspace))
            _ Good Good
            (search (next_extent (some c) SpaceType.uspace) (record { start = 0; size = 0 }) h.tiles
              (next_extent-Into d.exts c SpaceType.uspace held.whole) (unfold Best in inl refl))
            λ behind good. elim (Bool-cases (has_flag d flag_vat || leb 770 d.blocks)) [
              | inl done ↦ rw done good
              | inr small ↦ rw small (
                  Returns->>=
                    (largest_at d.pspace.align behind (prev_extent (last d.exts) SpaceType.uspace))
                    _ Good Good
                    (search (prev_extent (last d.exts) SpaceType.uspace) behind h.tiles
                      (prev_last-Into d.exts SpaceType.uspace) good)
                    λ end better.
                      search (next_extent (first d.exts) SpaceType.uspace) end h.tiles
                        (next_first-Into d.exts SpaceType.uspace) better)
            ]

  -- The partition is put where it was found, or the program leaves as there is no free space.
  pub place_partition-EndsOr :
      EndsOr
        (place_partition d)
        (λ p.
          Filling given d SpaceType.pspace p.1.start p.1.size p.0
          × (0 < p.1.size)
          × (p.1.start % d.pspace.align ≡ 0)
          × (p.1.size % d.pspace.align ≡ 0))
        (NoPspace d)
  unfolding place_partition Best
  place_partition-EndsOr =
      let E = NoPspace d in
      EndsOr->>= (largest_free d) _ (Best d.pspace.align d.exts) _ E
        (EndsOr_of_Returns (largest_free d) (Best d.pspace.align d.exts) E largest_free-Best)
        λ best result good. elim (Bool-cases (best.size == 0)) [
          | inl zero ↦ rw zero (
              ap (λ r. r >>= λ (b : Region). ok b.size) result
              ∙ ap (λ (k : ℕ). ok k)
                  (let nothing : best.size ≡ 0 = ground (arith, zero) in nothing))
          | inr more ↦
              let some_blocks : 0 < best.size = ground arith in
              elim good [
                | inl nothing ↦ absurd (omega arith)
                | inr room ↦ rw more (
                    EndsOr->>= (place SpaceType.pspace best.start best.size d) _
                      (Filling given d SpaceType.pspace best.start best.size) _ E
                      (EndsOr_of_Returns (place SpaceType.pspace best.start best.size d)
                        (Filling given d SpaceType.pspace best.start best.size) E
                        (place-Filling SpaceType.pspace best.start best.size given d h some_blocks
                          room.2))
                      λ d' placed f. (f, some_blocks, room.0, room.1))
              ]
        ]

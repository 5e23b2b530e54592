-- ===== src/Extent/Find.antt =====
-- What `find_extent` and the searches by type of libudffs/extent.c find.
use udftools.Base.{
  ℕ, ◌+◌, ◌^◌, ◌≤◌, ◌<◌, ◌≡◌, refl, sym, List, [], ◌∷◌, arith, ltb, reverse_onto, Returns, add32,
  Bool-cases, inl, inr,
}
use udftools.Extent.{Extent, Cursor, unzip, find_from, find_extent}
use udftools.Extent.Tiling.{Tiles, TilesBack, Tiles-le}

-- A cursor into a tiled list, at the extent that holds a block.
pub record Holds (s t x : ℕ) (exts : List Extent) (c : Cursor) : Type 0 where
  pub whole : unzip c ≡ exts
  pub behind : TilesBack s c.before c.at.start
  pub ahead : Tiles (c.at.start + c.at.blocks) c.after t
  pub from : c.at.start ≤ x
  pub below : x < c.at.start + c.at.blocks

find_from-Holds :
    (x s t : ℕ) (b : List Extent) (e : Extent) (r : List Extent)
    → TilesBack s b e.start
    → Tiles (e.start + e.blocks) r t
    → e.start ≤ x
    → x < t
    → t < 2 ^ 32
    → Holds s t x (reverse_onto b (e ∷ r)) (find_from x b e r)
unfolding find_from
find_from-Holds x s t b e [] back ahead low high small = record {
  whole = refl;
  behind = back;
  ahead = ahead;
  from = low;
  below = omega arith;
}
find_from-Holds x s t b e (n ∷ r) back ahead low high small =
    let exact : add32 e.start e.blocks ≡ e.start + e.blocks =
      omega (arith, Tiles-le (e.start + e.blocks) t (n ∷ r) ahead) in
    elim (Bool-cases (ltb x (add32 e.start e.blocks))) [
      | inl hit ↦
          rw hit (record {
            whole = refl;
            behind = back;
            ahead = ahead;
            from = low;
            below = ground arith;
          })
      | inr miss ↦
          rw miss (
            find_from-Holds x s t (e ∷ b) n r (sym ahead.0, back) ahead.1 (ground arith) high small)
    ]

-- On a list that tiles from `s` to `t`, `find_extent` returns the extent that holds a block of it.
pub find_extent-Holds :
    (exts : List Extent) (x s t : ℕ)
    → Tiles s exts t
    → s ≤ x
    → x < t
    → t < 2 ^ 32
    → Returns (find_extent exts x) (Holds s t x exts)
unfolding find_extent
find_extent-Holds [] x s t tiles low high small = absurd (omega arith)
find_extent-Holds (e ∷ r) x s t tiles low high small =
    find_from-Holds x s t [] e r (omega arith) tiles.1 (omega arith) high small

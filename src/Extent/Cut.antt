-- ===== src/Extent/Cut.antt =====
-- How `set_extent` cuts an extent: what the pieces put in its place must be.
use udftools.Base.{
  ℕ, ◌+◌, ◌^◌, ◌≤◌, ◌<◌, ◌≡◌, refl, sym, ◌∙◌, ap, inl, inr, ◌&&◌, some, List, ◌∷◌, arith, ltb, leb,
  if◌then◌else◌, reverse_onto, add32, sub32, Bool-cases,
}
use udftools.Extent.{Extent, extent}
use udftools.Extent.Tiling.{
  Tiles, TilesBack, type_at, Tiles-le, type_at-reverse_onto, type_at-below,
}

-- Extents put in the place of one: they cover the same blocks, and they change the types as given.
pub record Pieces (e : Extent) (type start blocks t : ℕ) (after pieces : List Extent) : Type 0 where
  pub covers : Tiles e.start pieces t
  pub types :
      (x : ℕ)
      → e.start ≤ x
      → type_at pieces x
        ≡ (if leb start x && ltb x (start + blocks) then some type else type_at (e ∷ after) x)

-- The four ways in which `set_extent` cuts the extent that it found.
module _ (t type start blocks : ℕ) (e : Extent) (after : List Extent)
    (ahead : Tiles (e.start + e.blocks) after t) (small : t < 2 ^ 32) (low : e.start ≤ start)
    (fits : start + blocks ≤ e.start + e.blocks) where
  end-le : e.start + e.blocks ≤ t
  end-le = Tiles-le (e.start + e.blocks) t after ahead

  pub whole-Pieces :
      start ≡ e.start
      → blocks ≡ e.blocks
      → Pieces e type start blocks t after (record e { space_type = type } ∷ after)
  unfolding type_at
  whole-Pieces p q = record { covers = (refl, ahead); types = λ x h. ground arith }

  pub front-Pieces :
      start ≡ e.start
      → blocks < e.blocks
      → Pieces e type start blocks t after (
          extent type start blocks
          ∷ record e { start = add32 e.start blocks; blocks = sub32 e.blocks blocks }
          ∷ after)
  unfolding type_at
  front-Pieces p q =
      let bound = end-le in
      let cut : add32 e.start blocks + sub32 e.blocks blocks ≡ e.start + e.blocks = omega arith in
      record { covers = (p, (omega arith, rw cut ahead)); types = λ x h. ground arith }

  pub back-Pieces :
      e.start < start
      → start + blocks ≡ e.start + e.blocks
      → Pieces e type start blocks t after
          (record e { blocks = sub32 e.blocks blocks } ∷ extent type start blocks ∷ after)
  unfolding type_at
  back-Pieces p q =
      let bound = end-le in
      record { covers = (refl, (omega arith, rw q ahead)); types = λ x h. ground arith }

  pub middle-Pieces :
      e.start < start
      → start + blocks < e.start + e.blocks
      → Pieces e type start blocks t after (
          record e { blocks = sub32 start e.start }
          ∷ extent type start blocks
          ∷ extent e.space_type
              (add32 start blocks)
              (add32 (sub32 (sub32 e.blocks blocks) start) e.start)
          ∷ after)
  unfolding type_at
  middle-Pieces p q =
      let bound = end-le in
      let cut : add32 start blocks + add32 (sub32 (sub32 e.blocks blocks) start) e.start
          ≡ e.start + e.blocks =
        omega arith in
      record {
        covers = (refl, (omega arith, (omega arith, rw cut ahead)));
        types = λ x h. ground arith;
      }

module _ (s t type start blocks : ℕ) (b : List Extent) (e : Extent)
    (after pieces : List Extent) where
  pub Pieces-types :
      TilesBack s b e.start
      → e.start ≤ start
      → Pieces e type start blocks t after pieces
      → (x : ℕ) → s ≤ x
      → type_at (reverse_onto b pieces) x ≡ (
          if leb start x && ltb x (start + blocks)
          then some type
          else type_at (reverse_onto b (e ∷ after)) x)
  Pieces-types back low p x from = elim (Bool-cases (ltb x e.start)) [
    | inl below ↦
        ground (arith, type_at-below s e.start x b pieces (e ∷ after) back (ground arith) from)
    | inr above ↦
        type_at-reverse_onto s e.start x b pieces back (ground arith)
        ∙ p.types x (ground arith)
        ∙ ap (λ o. if leb start x && ltb x (start + blocks) then some type else o)
            (sym (type_at-reverse_onto s e.start x b (e ∷ after) back (ground arith)))
  ]

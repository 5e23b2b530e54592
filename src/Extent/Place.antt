-- ===== src/Extent/Place.antt =====
-- `set_extent` against its purpose: the requested blocks get the type, and no other block changes.
use udftools.Base.{
  ℕ, ◌+◌, ◌^◌, ◌≤◌, ◌<◌, ◌≡◌, refl, sym, subst, ◌⊎◌, inl, inr, ◌&&◌, some, List, [], ◌∷◌, arith,
  ltb, leb, ◌==◌, if◌then◌else◌, reverse_onto, ok, Returns, add32, sub32, Bool-cases, Returns->>=,
}
use udftools.Extent.{Extent, Cursor, unzip, cursor, extent, find_extent, set_at, set_extent}
use udftools.Extent.Tiling.{Tiles, TilesBack, type_at, Tiles-le, Tiles-reverse_onto}
use udftools.Extent.Find.{Holds, find_extent-Holds}
use udftools.Extent.Cut.{
  Pieces, Pieces-types, whole-Pieces, front-Pieces, back-Pieces, middle-Pieces,
}

-- The cursor is at an extent of the requested type and place, in a list that covers the same
-- blocks, and of all blocks only the requested ones have changed their type.
pub record Placed (s t type start blocks : ℕ) (exts : List Extent) (c : Cursor) : Type 0 where
  pub type_set : c.at.space_type ≡ type
  pub start_set : c.at.start ≡ start
  pub blocks_set : c.at.blocks ≡ blocks
  pub tiles : Tiles s (unzip c) t
  pub types :
      (x : ℕ)
      → s ≤ x
      → type_at (unzip c) x
        ≡ (if leb start x && ltb x (start + blocks) then some type else type_at exts x)

module _ (s t type start blocks : ℕ) (b : List Extent) (e : Extent)
    (after pieces : List Extent) where
  Pieces-Placed :
      (c : Cursor)
      → TilesBack s b e.start
      → e.start ≤ start
      → Pieces e type start blocks t after pieces
      → unzip c ≡ reverse_onto b pieces
      → (c.at.space_type ≡ type) × (c.at.start ≡ start) × (c.at.blocks ≡ blocks)
      → Placed s t type start blocks (reverse_onto b (e ∷ after)) c
  Pieces-Placed c back low p list fields = record {
    type_set = fields.0;
    start_set = fields.1;
    blocks_set = fields.2;
    tiles = rw list (Tiles-reverse_onto s e.start t b pieces back p.covers);
    types = λ x h. rw list (Pieces-types s t type start blocks b e after pieces back low p x h);
  }

module _ (s t type start blocks : ℕ) (c : Cursor) (small : t < 2 ^ 32)
    (back : TilesBack s c.before c.at.start) (ahead : Tiles (c.at.start + c.at.blocks) c.after t)
    (low : c.at.start ≤ start) (fits : start + blocks ≤ c.at.start + c.at.blocks) where
  abbrev Done : Type 0
  Done = Returns (set_at c type start blocks) (Placed s t type start blocks (unzip c))

  done :
      (c' : Cursor) (pieces : List Extent)
      → set_at c type start blocks ≡ ok c'
      → Pieces c.at type start blocks t c.after pieces
      → unzip c' ≡ reverse_onto c.before pieces
      → (c'.at.space_type ≡ type) × (c'.at.start ≡ start) × (c'.at.blocks ≡ blocks)
      → Done
  done c' pieces run p list fields =
      rw run
        (Pieces-Placed s t type start blocks c.before c.at c.after pieces c' back low p list fields)

  place_front : start ≡ c.at.start → Done
  unfolding set_at
  place_front p = elim (Bool-cases (blocks == c.at.blocks)) [
    | inl all ↦
        done (record c { at = record c.at { space_type = type } }) _ (ground arith)
          (whole-Pieces t type start blocks c.at c.after ahead small low fits p (ground arith)) refl
          (refl, sym p, ground arith)
    | inr part ↦
        done
          (cursor c.before (extent type start blocks) (
            record c.at { start = add32 c.at.start blocks; blocks = sub32 c.at.blocks blocks }
            ∷ c.after))
          _ (ground arith)
          (front-Pieces t type start blocks c.at c.after ahead small low fits p (ground arith)) refl
          (refl, refl, refl)
  ]

  place_behind : c.at.start < start → Done
  unfolding set_at
  place_behind p =
      let bound = Tiles-le (c.at.start + c.at.blocks) t c.after ahead in
      elim (Bool-cases (start + blocks == c.at.start + c.at.blocks)) [
        | inl all ↦
            done
              (cursor (record c.at { blocks = sub32 c.at.blocks blocks } ∷ c.before)
                (extent type start blocks) c.after)
              _ (ground arith)
              (back-Pieces t type start blocks c.at c.after ahead small low fits p (ground arith))
              refl (refl, refl, refl)
        | inr part ↦
            done
              (cursor (record c.at { blocks = sub32 start c.at.start } ∷ c.before)
                (extent type start blocks)
                (extent c.at.space_type (add32 start blocks)
                    (add32 (sub32 (sub32 c.at.blocks blocks) start) c.at.start)
                  ∷ c.after))
              _ (ground arith)
              (middle-Pieces t type start blocks c.at c.after ahead small low fits p (ground arith))
              refl (refl, refl, refl)
      ]

  set_at-Placed : Done
  set_at-Placed = elim (Bool-cases (start == c.at.start)) [
    | inl here ↦ place_front (ground arith)
    | inr behind ↦ place_behind (ground arith)
  ]

-- The request lies inside one extent of the list.
abbrev pub Fits : ℕ → ℕ → List Extent → Type 0
Fits start blocks [] = ⊥
Fits start blocks (e ∷ r) =
    (e.start ≤ start) × (start < e.start + e.blocks) × (start + blocks ≤ e.start + e.blocks)
    ⊎ Fits start blocks r

Fits-bounds :
    (start blocks s t : ℕ) (r : List Extent)
    → Tiles s r t
    → Fits start blocks r
    → (s ≤ start) × (start < t)
Fits-bounds start blocks s t [] tiles fits = absurd fits
Fits-bounds start blocks s t (e ∷ r) tiles (inl here) =
    omega (arith, Tiles-le (e.start + e.blocks) t r tiles.1)
Fits-bounds start blocks s t (e ∷ r) tiles (inr there) =
    let rest = Fits-bounds start blocks (e.start + e.blocks) t r tiles.1 there in omega arith

-- What lies before the first block of a request does not hold it.
Fits-reverse_onto :
    (start blocks s m : ℕ) (b r : List Extent)
    → TilesBack s b m
    → m ≤ start
    → Fits start blocks (reverse_onto b r)
    → Fits start blocks r
Fits-reverse_onto start blocks s m [] r back low fits = fits
Fits-reverse_onto start blocks s m (e ∷ b) r back low fits =
    elim (Fits-reverse_onto start blocks s e.start b (e ∷ r) back.1 (omega arith) fits) [
      | inl here ↦ absurd (omega arith)
      | inr there ↦ there
    ]

-- The extent that holds the first block of a request that fits has room for all of it.
Fits-room :
    (start blocks s t : ℕ) (exts : List Extent) (c : Cursor)
    → Holds s t start exts c
    → Fits start blocks exts
    → start + blocks ≤ c.at.start + c.at.blocks
Fits-room start blocks s t exts c h fits =
    elim (Fits-reverse_onto start blocks s c.at.start c.before (c.at ∷ c.after) h.behind h.from
      (rw h.whole fits)) [
        | inl here ↦ omega arith
        | inr there ↦ absurd (
            omega
              (arith, Fits-bounds start blocks (c.at.start + c.at.blocks) t c.after h.ahead there))
      ]

-- A request that lies inside one extent of a disc is carried out: `set_extent` returns a pointer to
-- an extent of the requested type, start and size, in a list that covers the same blocks without a
-- gap, in which the requested blocks have the type and all others have the type that they had.
pub set_extent-Placed :
    (exts : List Extent) (type start blocks s t : ℕ)
    → Tiles s exts t
    → t < 2 ^ 32
    → Fits start blocks exts
    → Returns (set_extent exts type start blocks) (Placed s t type start blocks exts)
unfolding set_extent
set_extent-Placed exts type start blocks s t tiles small fits =
    let bounds = Fits-bounds start blocks s t exts tiles fits in
    Returns->>= (find_extent exts start) (λ c. set_at c type start blocks) (Holds s t start exts)
      (Placed s t type start blocks exts)
      (find_extent-Holds exts start s t tiles bounds.0 bounds.1 small)
      λ c h.
        subst (λ l. Returns (set_at c type start blocks) (Placed s t type start blocks l)) h.whole
          (set_at-Placed s t type start blocks c small h.behind h.ahead h.from
            (Fits-room start blocks s t exts c h fits))

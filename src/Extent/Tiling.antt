-- ===== src/Extent/Tiling.antt =====
-- The extents of a disc lie one behind the other, and a list of them stands for the type of each
-- block. Facts about such lists, cut at a cursor.
use udftools.Base.{
  ℕ, ◌+◌, ◌≤◌, ◌<◌, ◌≡◌, refl, ◌&&◌, Option, none, some, List, [], ◌∷◌, arith, ltb, leb,
  if◌then◌else◌, reverse_onto,
}
use udftools.Extent.{Extent}

-- The extents cover the blocks from `s` up to `t`, in order and with no gap.
abbrev pub Tiles : ℕ → List Extent → ℕ → Type 0
Tiles s [] t = s ≡ t
Tiles s (e ∷ r) t = (e.start ≡ s) × Tiles (e.start + e.blocks) r t

-- The same of a list that is read from its end.
abbrev pub TilesBack : ℕ → List Extent → ℕ → Type 0
TilesBack s [] t = s ≡ t
TilesBack s (e ∷ b) t = (e.start + e.blocks ≡ t) × TilesBack s b e.start

-- The type of a block: what a list of extents is for.
unfoldable pub type_at : List Extent → ℕ → Option ℕ
type_at [] x = none
type_at (e ∷ r) x =
    if leb e.start x && ltb x (e.start + e.blocks) then some e.space_type else type_at r x

pub Tiles-le : (s t : ℕ) (r : List Extent) → Tiles s r t → s ≤ t
Tiles-le s t [] h = omega arith
Tiles-le s t (e ∷ r) h = omega (arith, Tiles-le (e.start + e.blocks) t r h.1)

pub TilesBack-le : (s t : ℕ) (b : List Extent) → TilesBack s b t → s ≤ t
TilesBack-le s t [] h = omega arith
TilesBack-le s t (e ∷ b) h = omega (arith, TilesBack-le s e.start b h.1)

pub Tiles-reverse_onto :
    (s m t : ℕ) (b r : List Extent) → TilesBack s b m → Tiles m r t → Tiles s (reverse_onto b r) t
Tiles-reverse_onto s m t [] r back h = rw back h
Tiles-reverse_onto s m t (e ∷ b) r back h =
    Tiles-reverse_onto s e.start t b (e ∷ r) back.1 (refl, rw back.0 h)

-- From the cut on, the extents before it do not matter.
pub type_at-reverse_onto :
    (s m x : ℕ) (b r : List Extent)
    → TilesBack s b m
    → m ≤ x
    → type_at (reverse_onto b r) x ≡ type_at r x
unfolding type_at
type_at-reverse_onto s m x [] r back h = refl
type_at-reverse_onto s m x (e ∷ b) r back h =
    ground (arith, type_at-reverse_onto s e.start x b (e ∷ r) back.1)

-- Below the cut, what follows it does not matter.
pub type_at-below :
    (s m x : ℕ) (b r r' : List Extent)
    → TilesBack s b m
    → x < m
    → s ≤ x
    → type_at (reverse_onto b r) x ≡ type_at (reverse_onto b r') x
unfolding type_at
type_at-below s m x [] r r' back h low = absurd (omega arith)
type_at-below s m x (e ∷ b) r r' back h low = ground (
  arith,
  type_at-reverse_onto s e.start x b (e ∷ r) back.1,
  type_at-reverse_onto s e.start x b (e ∷ r') back.1,
  type_at-below s e.start x b (e ∷ r) (e ∷ r') back.1,
)

pub Tiles-suffix :
    (s t : ℕ) (b r : List Extent) → Tiles s (reverse_onto b r) t → (m : ℕ) × Tiles m r t
Tiles-suffix s t [] r h = (s, h)
Tiles-suffix s t (e ∷ b) r h =
    let before = Tiles-suffix s t b (e ∷ r) h in (e.start + e.blocks, before.1.1)

-- ===== src/Extent/Kept.antt =====
-- What a request in free space leaves alone: every block that is in use.
use mathlib.Core.Option.{some-injective}
use udftools.Base.{
  ℕ, ◌+◌, ◌≤◌, ◌<◌, ◌≡◌, ◌≢◌, ◌∙◌, inl, inr, some, List, [], ◌∷◌, arith, bit_and, Bool-cases, ◌&&◌,
  ltb, leb,
}
use udftools.Extent.{Extent, Cursor, unzip, has_type}
use udftools.Extent.SpaceType
use udftools.Extent.Tiling.{Tiles, type_at}
use udftools.Extent.Place.{Placed}
use udftools.Extent.Search.{Room, Room-from}

-- The second list gives every block that is in use in the first one the same type.
pub Kept : List Extent → List Extent → Type 0
Kept l l' =
    (x type : ℕ)
    → type_at l x ≡ some type
    → bit_and type SpaceType.uspace ≡ 0
    → type_at l' x ≡ some type

pub Kept-refl : (l : List Extent) → Kept l l
unfolding Kept
Kept-refl l x type here used = here

pub Kept-trans : (l m n : List Extent) → Kept l m → Kept m n → Kept l n
unfolding Kept
Kept-trans l m n h h' x type here used = h' x type (h x type here used) used

pub Kept-at :
    (x type : ℕ) (l m : List Extent)
    → Kept l m
    → type_at l x ≡ some type
    → bit_and type SpaceType.uspace ≡ 0
    → type_at m x ≡ some type
unfolding Kept
Kept-at x type l m h here used = h x type here used

-- A block of the type that was searched for has a type with that bit.
Room-type_at :
    (type blocks x y found s t : ℕ) (r : List Extent)
    → Tiles s r t
    → Room type blocks x r
    → x ≤ y
    → y < x + blocks
    → type_at r y ≡ some found
    → bit_and found type ≢ 0
unfolding Room type_at has_type
Room-type_at type blocks x y found s t [] tiles room low high here = absurd room
Room-type_at type blocks x y found s t (e ∷ r) tiles (inl typed) low high here =
    let same : e.space_type ≡ found = some-injective e.space_type found (ground arith) in
    λ zero. ground (arith, typed.0, same)
Room-type_at type blocks x y found s t (e ∷ r) tiles (inr there) low high here =
    let bound = Room-from type blocks x (e.start + e.blocks) t r tiles.1 there in
    Room-type_at type blocks x y found (e.start + e.blocks) t r tiles.1 there low high
      (ground arith)

pub Placed-Kept :
    (type start blocks t : ℕ) (exts : List Extent) (c : Cursor)
    → Tiles 0 exts t
    → Room SpaceType.uspace blocks start exts
    → Placed 0 t type start blocks exts c
    → Kept exts (unzip c)
unfolding Kept
Placed-Kept type start blocks t exts c tiles room p x found here used =
    p.types x (omega arith) ∙ elim (Bool-cases (leb start x && ltb x (start + blocks))) [
      | inl inside ↦ absurd (
          Room-type_at SpaceType.uspace blocks start x found 0 t exts tiles room (ground arith)
            (ground arith) here used)
      | inr outside ↦ rw outside here
    ]

-- All of those blocks have a type.
unfoldable pub Filled : ℕ → ℕ → ℕ → List Extent → Type 0
Filled type start blocks l = (x : ℕ) → start ≤ x → x < start + blocks → type_at l x ≡ some type

-- Somewhere there is an area of a type, with that many blocks.
unfoldable pub Area : ℕ → ℕ → List Extent → Type 0
Area type blocks l = (start : ℕ) × Filled type start blocks l

pub Filled-Kept :
    (type start blocks : ℕ) (l l' : List Extent)
    → bit_and type SpaceType.uspace ≡ 0
    → Kept l l'
    → Filled type start blocks l
    → Filled type start blocks l'
unfolding Filled Kept
Filled-Kept type start blocks l l' used kept filled =
    λ x low high. kept x type (filled x low high) used

pub Area-Kept :
    (type blocks : ℕ) (l l' : List Extent)
    → bit_and type SpaceType.uspace ≡ 0
    → Kept l l'
    → Area type blocks l
    → Area type blocks l'
unfolding Area
Area-Kept type blocks l l' used kept area =
    (area.0, Filled-Kept type area.0 blocks l l' used kept area.1)

-- ===== src/Extent/Cursors.antt =====
-- The pointers that the functions of libudffs/extent.c return point into the list that they search.
use mathlib.Core.Option.{some-injective}
use udftools.Base.{
  ℕ, ◌+◌, ◌^◌, ◌≤◌, ◌<◌, ◌≡◌, ◌≢◌, refl, sym, ◌∙◌, ap, inl, inr, bit_and, ◌==◌, ◌&&◌, subst, leb,
  ltb, Option, none, some, List, [], ◌∷◌, arith, if◌then◌else◌, reverse_onto, Bool-cases, Returns,
  Returns_mono,
}
use udftools.Extent.{
  Extent, Cursor, cursor, unzip, first, last_from, last, has_type, next_from, next_extent,
  prev_from, prev_extent, prev_extent_size,
}
use udftools.Extent.Tiling.{Tiles, TilesBack, type_at}
use udftools.Extent.Search.{Room}
use udftools.Extent.Search.Prev.{Last, prev_extent_size-Last}
use udftools.Extent.Search.Sound.{Found, Room-reverse_onto}
use udftools.Extent.Place.{Fits}
use udftools.Extent.Kept.{Area, Filled}

-- A pointer is null, or it points into the list.
abbrev pub Into : List Extent → Option Cursor → Type 0
Into exts none = Unit
Into exts (some c) = unzip c ≡ exts

pub next_from-Into : (type : ℕ) (b r : List Extent) → Into (reverse_onto b r) (next_from type b r)
unfolding next_from
next_from-Into type b [] = tt
next_from-Into type b (e ∷ r) = elim (Bool-cases (has_type e type)) [
  | inl typed ↦ rw typed refl
  | inr other ↦ rw other (next_from-Into type (e ∷ b) r)
]

pub prev_from-Into : (type : ℕ) (b a : List Extent) → Into (reverse_onto b a) (prev_from type b a)
unfolding prev_from
prev_from-Into type [] a = tt
prev_from-Into type (e ∷ b) a = elim (Bool-cases (has_type e type)) [
  | inl typed ↦ rw typed refl
  | inr other ↦ rw other (prev_from-Into type b (e ∷ a))
]

pub next_extent-Into :
    (exts : List Extent) (c : Cursor) (type : ℕ)
    → unzip c ≡ exts
    → Into exts (next_extent (some c) type)
unfolding next_extent
next_extent-Into exts c type h = rw (← h) (next_from-Into type c.before (c.at ∷ c.after))

pub prev_extent-Into :
    (exts : List Extent) (c : Cursor) (type : ℕ)
    → unzip c ≡ exts
    → Into exts (prev_extent (some c) type)
unfolding prev_extent
prev_extent-Into exts c type h = rw (← h) (prev_from-Into type (c.at ∷ c.before) c.after)

pub next_first-Into : (exts : List Extent) (type : ℕ) → Into exts (next_extent (first exts) type)
next_first-Into [] type = unfold first next_extent in tt
next_first-Into (e ∷ r) type = unfold first in next_extent-Into (e ∷ r) (cursor [] e r) type refl

last_from-unzip :
    (b : List Extent) (e : Extent) (r : List Extent)
    → unzip (last_from b e r) ≡ reverse_onto b (e ∷ r)
unfolding last_from
last_from-unzip b e [] = refl
last_from-unzip b e (n ∷ r) = last_from-unzip (e ∷ b) n r

pub prev_last-Into : (exts : List Extent) (type : ℕ) → Into exts (prev_extent (last exts) type)
prev_last-Into [] type = unfold last prev_extent in tt
prev_last-Into (e ∷ r) type =
    unfold last in prev_extent-Into (e ∷ r) (last_from [] e r) type (last_from-unzip [] e r)

-- The last extent of a tiled list, reached from the end.
pub record IsLast (s t : ℕ) (exts : List Extent) (c : Cursor) : Type 0 where
  pub whole : unzip c ≡ exts
  pub behind : TilesBack s c.before c.at.start
  pub end : c.at.start + c.at.blocks ≡ t

last_from-IsLast :
    (s t : ℕ) (b : List Extent) (e : Extent) (r : List Extent)
    → TilesBack s b e.start
    → Tiles (e.start + e.blocks) r t
    → IsLast s t (reverse_onto b (e ∷ r)) (last_from b e r)
unfolding last_from
last_from-IsLast s t b e [] back ahead = record { whole = refl; behind = back; end = ahead }
last_from-IsLast s t b e (n ∷ r) back ahead =
    last_from-IsLast s t (e ∷ b) n r (sym ahead.0, back) ahead.1

Room-behind :
    (type blocks x : ℕ) (b r : List Extent)
    → Room type blocks x b
    → Room type blocks x (reverse_onto b r)
unfolding Room
Room-behind type blocks x [] r room = absurd room
Room-behind type blocks x (e ∷ b) r (inl here) =
    Room-reverse_onto type blocks x b (e ∷ r) (inl here)
Room-behind type blocks x (e ∷ b) r (inr there) = Room-behind type blocks x b (e ∷ r) there

Last-Found :
    (type blocks offset x : ℕ) (c : Cursor)
    → Last type blocks offset (c.at ∷ c.before) x
    → Found type blocks (unzip c) x
Last-Found type blocks offset x c (inl found) =
    inr (Room-behind type blocks x (c.at ∷ c.before) c.after found.0.2)
Last-Found type blocks offset x c (inr nothing) = inl nothing.0

-- A block with room behind it is the start of a request that fits.
pub Room-Fits :
    (type blocks x : ℕ) (r : List Extent) → 0 < blocks → Room type blocks x r → Fits x blocks r
unfolding Room
Room-Fits type blocks x [] some_blocks room = room
Room-Fits type blocks x (e ∷ r) some_blocks (inl here) = inl (omega arith)
Room-Fits type blocks x (e ∷ r) some_blocks (inr there) =
    inr (Room-Fits type blocks x r some_blocks there)

-- A single block of a tiled list always fits.
pub Fits-one : (x s t : ℕ) (r : List Extent) → Tiles s r t → s ≤ x → x < t → Fits x 1 r
Fits-one x s t [] tiles low high = absurd (omega arith)
Fits-one x s t (e ∷ r) tiles low high = elim (Bool-cases (ltb x (e.start + e.blocks))) [
  | inl here ↦ inl (ground arith)
  | inr there ↦ inr (Fits-one x (e.start + e.blocks) t r tiles.1 (ground arith) high)
]

-- The search back from `disc->tail` returns 0 or a block with room behind it.
pub prev_extent_size-Found :
    (exts : List Extent) (type blocks offset t : ℕ)
    → Tiles 0 exts t
    → t < 2 ^ 32
    → 0 < offset
    → offset ≤ blocks
    → Returns (prev_extent_size (last exts) type blocks offset) (Found type blocks exts)
prev_extent_size-Found [] type blocks offset t tiles small pos wide =
    unfold last prev_extent_size in inl refl
prev_extent_size-Found (e ∷ r) type blocks offset t tiles small pos wide =
    let c = last_from [] e r in
    let l = last_from-IsLast 0 t [] e r (sym tiles.0) tiles.1 in
    unfold last in
    Returns_mono _ (Last type blocks offset (c.at ∷ c.before)) (Found type blocks (e ∷ r))
      (prev_extent_size-Last c type blocks offset 0 l.behind (omega (arith, l.end)) pos wide)
      λ x h. rw (← l.whole) (Last-Found type blocks offset x c h)

skipped :
    (type x found : ℕ) (e : Extent) (r : List Extent)
    → type_at (e ∷ r) x ≡ some found
    → bit_and found type ≢ 0
    → bit_and e.space_type type ≡ 0
    → type_at r x ≡ some found
unfolding type_at
skipped type x found e r here hit other =
    elim (Bool-cases (leb e.start x && ltb x (e.start + e.blocks))) [
      | inr outside ↦
          subst (λ b. (if b then some e.space_type else type_at r x) ≡ some found) outside here
      | inl inside ↦ absurd (
          let same : e.space_type ≡ found = some-injective e.space_type found (
            subst (λ b. (if b then some e.space_type else type_at r x) ≡ some found) inside here) in
          hit (ap (λ t. bit_and t type) (sym same) ∙ other))
    ]

-- A search reaches an extent of the type if some block has it.
next_from-finds :
    (type x found : ℕ) (b r : List Extent)
    → type_at r x ≡ some found
    → bit_and found type ≢ 0
    → next_from type b r ≢ none
unfolding next_from type_at has_type
next_from-finds type x found b [] here hit = λ nothing. cc
next_from-finds type x found b (e ∷ r) here hit =
    elim (Bool-cases (bit_and e.space_type type == 0)) [
      | inr typed ↦ rw typed (λ nothing. cc)
      | inl other ↦ rw other (
          next_from-finds type x found (e ∷ b) r (skipped type x found e r here hit (ground arith))
            hit)
    ]

type_at_none : (x type : ℕ) → type_at [] x ≢ some type
unfolding type_at
type_at_none x type = λ here. cc

-- An area of a type is found from the first extent.
pub next_extent-finds :
    (type blocks : ℕ) (exts : List Extent)
    → 0 < blocks
    → bit_and type type ≢ 0
    → Area type blocks exts
    → next_extent (first exts) type ≢ none
unfolding Area Filled
next_extent-finds type blocks [] some_blocks hit area =
    absurd (type_at_none (area.0) type (area.1 area.0 (omega arith) (omega arith)))
next_extent-finds type blocks (e ∷ r) some_blocks hit area =
    unfold first next_extent in
    next_from-finds type area.0 type [] (e ∷ r) (area.1 area.0 (omega arith) (omega arith)) hit

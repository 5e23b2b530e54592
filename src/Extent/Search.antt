-- ===== src/Extent/Search.antt =====
-- The searches for room of a given size and alignment: what they search for.
pub mod Round
pub mod Next
pub mod Sound
pub mod Prev
pub mod Wrap
use native.Mathlib.Nat.{div-add-mod, mod-lt}
use native.Mathlib.Decide.{dec_lt, ℕ_discrete}
use udftools.Base.{
  ℕ, zero, suc, ◌+◌, ◌-◌, ◌*◌, ◌/◌, ◌%◌, ◌^◌, ◌≤◌, ◌<◌, ◌≡◌, ◌≢◌, refl, sym, ◌∙◌, ap, subst, ◌⊎◌,
  inl, inr, Bool, true, false, ◌&&◌, Option, none, some, List, [], ◌∷◌, arith, ltb, ltb→lt, leb,
  ◌==◌, if◌then◌else◌, reverse_onto, Run, ok, exit_failure, fault, Returns, Returns_mono, add32,
  sub32, Bool-cases, Returns->>=, length,
}
use udftools.Extent.{
  Extent, Cursor, unzip, cursor, has_type, next_from, next_after, next_extent, find_extent,
  misplaced, next_size_loop, find_next_extent_size,
}
use udftools.Base.Multiples.{round_up, round_up-mod, round_up-least}
use udftools.Extent.Tiling.{Tiles, TilesBack, Tiles-le}
use udftools.Extent.Find.{Holds, find_extent-Holds}

-- `blocks` blocks from `x` on lie in one extent of the type.
unfoldable pub Room : ℕ → ℕ → ℕ → List Extent → Type 0
Room type blocks x [] = ⊥
Room type blocks x (e ∷ r) =
    (has_type e type ≡ true) × (e.start ≤ x) × (x + blocks ≤ e.start + e.blocks)
    ⊎ Room type blocks x r

module _ (type blocks offset : ℕ) where
  -- A multiple of `offset` from `start` on, with room behind it.
  abbrev pub Candidate : ℕ → List Extent → ℕ → Type 0
  Candidate start exts x = (start ≤ x) × (x % offset ≡ 0) × Room type blocks x exts

  -- The first candidate, or 0 where there is none.
  pub First : ℕ → List Extent → ℕ → Type 0
  First start exts r =
      Candidate start exts r × ((x : ℕ) → Candidate start exts x → r ≤ x)
      ⊎ (r ≡ 0) × ((x : ℕ) → ¬ Candidate start exts x)

pub Room-from :
    (type blocks x m t : ℕ) (r : List Extent)
    → Tiles m r t
    → Room type blocks x r
    → (m ≤ x) × (x + blocks ≤ t)
unfolding Room
Room-from type blocks x m t [] tiles room = absurd room
Room-from type blocks x m t (e ∷ r) tiles (inl here) =
    omega (arith, Tiles-le (e.start + e.blocks) t r tiles.1)
Room-from type blocks x m t (e ∷ r) tiles (inr there) =
    let rest = Room-from type blocks x (e.start + e.blocks) t r tiles.1 there in omega arith

module _ (start type blocks offset t : ℕ) where
  -- An extent without room is passed by.
  pub First-skip :
      (e : Extent) (r : List Extent) (x : ℕ)
      → ((y : ℕ)
          → start ≤ y
          → y % offset ≡ 0
          → has_type e type ≡ true
          → e.start ≤ y
          → y + blocks ≤ e.start + e.blocks
          → ⊥)
      → First type blocks offset start r x
      → First type blocks offset start (e ∷ r) x
  unfolding First Room
  First-skip e r x full (inl found) =
      inl ((found.0.0, found.0.1, inr found.0.2), λ y c. go y c.0 c.1 c.2)
    where
      go : (y : ℕ) → start ≤ y → y % offset ≡ 0 → Room type blocks y (e ∷ r) → x ≤ y
      go y p q (inl here) = absurd (full y p q here.0 here.1 here.2)
      go y p q (inr there) = found.1 y (p, q, there)
  First-skip e r x full (inr nothing) = inr (nothing.0, λ y c. go y c.0 c.1 c.2)
    where
      go : (y : ℕ) → start ≤ y → y % offset ≡ 0 → Room type blocks y (e ∷ r) → ⊥
      go y p q (inl here) = full y p q here.0 here.1 here.2
      go y p q (inr there) = nothing.1 y (p, q, there)

  -- The first candidate of an extent is the first of all from there on.
  pub First-hit :
      (e : Extent) (r : List Extent) (x : ℕ)
      → Tiles (e.start + e.blocks) r t
      → has_type e type ≡ true
      → (e.start ≤ x) × (x + blocks ≤ e.start + e.blocks)
      → (start ≤ x) × (x % offset ≡ 0)
      → ((y : ℕ) → start ≤ y → y % offset ≡ 0 → e.start ≤ y → x ≤ y)
      → First type blocks offset start (e ∷ r) x
  unfolding First Room
  First-hit e r x ahead typed inside wanted least =
      inl ((wanted.0, wanted.1, inl (typed, inside.0, inside.1)), λ y c. go y c.0 c.1 c.2)
    where
      go : (y : ℕ) → start ≤ y → y % offset ≡ 0 → Room type blocks y (e ∷ r) → x ≤ y
      go y p q (inl here) = least y p q here.1
      go y p q (inr there) =
          omega (arith, Room-from type blocks y (e.start + e.blocks) t r ahead there)

  pub Returns-First-skip :
      (e : Extent) (r : List Extent) (run : Run ℕ)
      → ((y : ℕ)
          → start ≤ y
          → y % offset ≡ 0
          → has_type e type ≡ true
          → e.start ≤ y
          → y + blocks ≤ e.start + e.blocks
          → ⊥)
      → Returns run (First type blocks offset start r)
      → Returns run (First type blocks offset start (e ∷ r))
  Returns-First-skip e r run full h =
      Returns_mono run (First type blocks offset start r) (First type blocks offset start (e ∷ r)) h
        λ x f. First-skip e r x full f

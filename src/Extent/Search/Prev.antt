-- ===== src/Extent/Search/Prev.antt =====
-- `prev_extent_size` finds the last block that is aligned and has room behind it.
use mathlib.Core.Bool.{false≢true}
use native.Mathlib.Decide.{ℕ_discrete}
use native.Mathlib.Nat.{mod-lt, div-mul-le_self}
use udftools.Base.Multiples.{round_up, round_up-mod, round_up-least, last-mod, last-greatest}
use udftools.Base.{
  ℕ, zero, suc, ◌+◌, ◌-◌, ◌*◌, ◌/◌, ◌%◌, ◌^◌, ◌≤◌, ◌<◌, ◌≡◌, ◌≢◌, refl, sym, ◌∙◌, ◌⊎◌, inl, inr,
  true, some, List, [], ◌∷◌, arith, ltb, if◌then◌else◌, Run, ok, Returns, Returns_mono, Bool-cases,
  length, sub32,
}
use udftools.Extent.{
  Extent, Cursor, cursor, has_type, prev_from, prev_extent, prev_before, prev_size_loop,
  prev_extent_size,
}
use udftools.Extent.Tiling.{TilesBack, TilesBack-le}
use udftools.Extent.Search.{Room, Candidate}

-- The last candidate of a list, or 0 where there is none.
abbrev pub Last : ℕ → ℕ → ℕ → List Extent → ℕ → Type 0
Last type blocks offset exts r =
    Candidate type blocks offset 0 exts r
      × ((x : ℕ) → Candidate type blocks offset 0 exts x → x ≤ r)
    ⊎ (r ≡ 0) × ((x : ℕ) → ¬ Candidate type blocks offset 0 exts x)

Room-back :
    (type blocks x s m : ℕ) (b : List Extent)
    → TilesBack s b m
    → Room type blocks x b
    → (s ≤ x) × (x + blocks ≤ m)
unfolding Room
Room-back type blocks x s m [] back room = absurd room
Room-back type blocks x s m (e ∷ b) back (inl here) = omega (arith, TilesBack-le s e.start b back.1)
Room-back type blocks x s m (e ∷ b) back (inr there) =
    let rest = Room-back type blocks x s e.start b back.1 there in omega arith

module _ (type blocks offset s : ℕ) (pos : 0 < offset) (wide : offset ≤ blocks) where
  Last-skip :
      (e : Extent) (b : List Extent) (r : ℕ)
      → ((y : ℕ)
          → y % offset ≡ 0
          → has_type e type ≡ true
          → e.start ≤ y
          → y + blocks ≤ e.start + e.blocks
          → ⊥)
      → Last type blocks offset b r
      → Last type blocks offset (e ∷ b) r
  unfolding Room
  Last-skip e b r full (inl found) =
      inl ((omega arith, found.0.1, inr found.0.2), λ y c. go y c.1 c.2)
    where
      go : (y : ℕ) → y % offset ≡ 0 → Room type blocks y (e ∷ b) → y ≤ r
      go y q (inl here) = absurd (full y q here.0 here.1 here.2)
      go y q (inr there) = found.1 y (omega arith, q, there)
  Last-skip e b r full (inr nothing) = inr (nothing.0, λ y c. go y c.1 c.2)
    where
      go : (y : ℕ) → y % offset ≡ 0 → Room type blocks y (e ∷ b) → ⊥
      go y q (inl here) = full y q here.0 here.1 here.2
      go y q (inr there) = nothing.1 y (omega arith, q, there)

  Last-hit :
      (e : Extent) (b : List Extent) (r : ℕ)
      → TilesBack s b e.start
      → has_type e type ≡ true
      → (e.start ≤ r) × (r + blocks ≤ e.start + e.blocks)
      → r % offset ≡ 0
      → ((y : ℕ) → y % offset ≡ 0 → e.start ≤ y → y + blocks ≤ e.start + e.blocks → y ≤ r)
      → Last type blocks offset (e ∷ b) r
  unfolding Room
  Last-hit e b r back typed inside aligned greatest =
      inl ((omega arith, aligned, inl (typed, inside.0, inside.1)), λ y c. go y c.1 c.2)
    where
      go : (y : ℕ) → y % offset ≡ 0 → Room type blocks y (e ∷ b) → y ≤ r
      go y q (inl here) = greatest y q here.1 here.2
      go y q (inr there) = omega (arith, Room-back type blocks y s e.start b back there)

  abbrev Done : List Extent → Run ℕ → Type 0
  Done l run = Returns run (Last type blocks offset l)

  skip :
      (e : Extent) (b : List Extent) (run : Run ℕ)
      → ((y : ℕ)
          → y % offset ≡ 0
          → has_type e type ≡ true
          → e.start ≤ y
          → y + blocks ≤ e.start + e.blocks
          → ⊥)
      → Done b run
      → Done (e ∷ b) run
  skip e b run full h =
      Returns_mono run (Last type blocks offset b) (Last type blocks offset (e ∷ b)) h
        λ r l. Last-skip e b r full l

  -- The last multiple in an extent whose first one is `p`.
  hit_from :
      (e : Extent) (b : List Extent) (p : ℕ)
      → TilesBack s b e.start
      → has_type e type ≡ true
      → p % offset ≡ 0
      → (e.start ≤ p) × (p + blocks ≤ e.start + e.blocks)
      → ((y : ℕ) → y % offset ≡ 0 → e.start ≤ y → p ≤ y)
      → Last type blocks offset (e ∷ b) (p + (e.start + e.blocks - p - blocks) / offset * offset)
  hit_from e b p back typed aligned inside least =
      let k = e.start + e.blocks - p - blocks in
      Last-hit e b (p + k / offset * offset) back typed (omega (arith, div-mul-le_self k offset))
        (last-mod p k offset aligned)
        λ y q low room. last-greatest p k offset y pos aligned q (least y q low) (omega arith)

  module _ (t fuel : ℕ) (e : Extent) (b a : List Extent) (small : t < 2 ^ 32)
      (bound : e.start + e.blocks ≤ t) where
    step : Run ℕ
    step = prev_size_loop (suc fuel) type blocks offset (some (cursor b e a))

    rest : Run ℕ
    rest = prev_size_loop fuel type blocks offset (prev_from type b (e ∷ a))

    step-little : e.blocks < blocks → step ≡ rest
    unfolding step rest prev_size_loop prev_before
    step-little h = ground arith

    step-aligned :
        blocks ≤ e.blocks
        → e.start % offset ≡ 0
        → step ≡ ok (e.start + (e.start + e.blocks - e.start - blocks) / offset * offset)
    unfolding step prev_size_loop prev_before
    step-aligned h m =
        let k = e.start + e.blocks - e.start - blocks in
        let left : sub32 (sub32 e.blocks 0) blocks ≡ k = omega arith in
        ground (arith, left, div-mul-le_self k offset)

    step-unaligned :
        blocks ≤ e.blocks
        → e.start % offset ≢ 0
        → step ≡ (
            if ltb (e.start + e.blocks) (round_up e.start offset + blocks)
            then rest
            else ok (
                round_up e.start offset
                + (e.start + e.blocks - round_up e.start offset - blocks) / offset * offset))
    unfolding step rest prev_size_loop prev_before
    step-unaligned h m =
        let inc = offset - e.start % offset in
        let k = e.start + e.blocks - round_up e.start offset - blocks in
        let small_inc = mod-lt e.start pos in
        elim (Bool-cases (ltb (e.start + e.blocks) (round_up e.start offset + blocks))) [
          | inl short ↦ ground arith
          | inr enough ↦
              let left : sub32 (sub32 e.blocks inc) blocks ≡ k = ground arith in
              ground (arith, left, div-mul-le_self k offset)
        ]

    step-Last :
        has_type e type ≡ true
        → blocks ≤ e.blocks
        → TilesBack s b e.start
        → Done b rest
        → Done (e ∷ b) step
    step-Last typed fits back next = elim (ℕ_discrete (e.start % offset) 0) [
      | yes m ↦
          rw (step-aligned fits m)
            (hit_from e b e.start back typed m (omega arith) (λ y q low. low))
      | no m ↦
          rw (step-unaligned fits m)
            (elim (Bool-cases (ltb (e.start + e.blocks) (round_up e.start offset + blocks))) [
              | inl short ↦ rw short (
                  skip e b rest
                    (λ y n typed low room.
                      ground (arith, round_up-least e.start offset y pos n low m))
                    next)
              | inr enough ↦ rw enough (
                  hit_from e b (round_up e.start offset) back typed
                    (round_up-mod e.start offset pos) (ground arith)
                    (λ y n low. round_up-least e.start offset y pos n low m))
            ])
    ]

    reached : has_type e type ≡ true → TilesBack s b e.start → Done b rest → Done (e ∷ b) step
    reached typed back next = elim (Bool-cases (ltb e.blocks blocks)) [
      | inl little ↦
          rw (step-little (ground arith)) (skip e b rest (λ y q typed low room. ground arith) next)
      | inr fits ↦ step-Last typed (ground arith) back next
    ]

  prev_size_loop-Last :
      (t fuel m : ℕ) (b a : List Extent)
      → t < 2 ^ 32
      → m ≤ t
      → length b < fuel
      → TilesBack s b m
      → Done b (prev_size_loop fuel type blocks offset (prev_from type b a))
  unfolding prev_from step rest
  prev_size_loop-Last t zero m b a small bound enough back = absurd (omega arith)
  prev_size_loop-Last t (suc fuel) m [] a small bound enough back =
      unfold prev_size_loop Room in inr (refl, λ x c. c.2)
  prev_size_loop-Last t (suc fuel) m (e ∷ b) a small bound enough back =
      elim (Bool-cases (has_type e type)) [
        | inl typed ↦ rw typed (
            reached t fuel e b a small (omega arith) typed back.1 (
              prev_size_loop-Last t fuel e.start b (e ∷ a) small (omega arith) (omega arith)
                back.1))
        | inr other ↦ rw other (
            skip e b _ (λ y q typed low room. false≢true (sym other ∙ typed))
              (prev_size_loop-Last t (suc fuel) e.start b (e ∷ a) small (omega arith) (omega arith)
                back.1))
      ]

-- From a cursor into a list that tiles from `s` to its extent's end, and with an alignment between 1
-- and the number of blocks wanted, the search returns. Its result is the last aligned block at which
-- that many blocks of one extent of the type begin, among the extents from the cursor back; it is 0
-- if there is none.
pub prev_extent_size-Last :
    (c : Cursor) (type blocks offset s : ℕ)
    → TilesBack s c.before c.at.start
    → c.at.start + c.at.blocks < 2 ^ 32
    → 0 < offset
    → offset ≤ blocks
    → Returns
        (prev_extent_size (some c) type blocks offset)
        (Last type blocks offset (c.at ∷ c.before))
unfolding prev_extent_size prev_extent
prev_extent_size-Last c type blocks offset s back small pos wide =
    prev_size_loop-Last type blocks offset s pos wide (c.at.start + c.at.blocks)
      (suc (suc (length c.before))) (c.at.start + c.at.blocks) (c.at ∷ c.before) c.after small
      (omega arith) (omega arith) (refl, back)

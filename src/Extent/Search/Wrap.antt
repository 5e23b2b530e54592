-- ===== src/Extent/Search/Wrap.antt =====
-- The searches where the alignment is more than the number of blocks wanted.
use native.Mathlib.Nat.{mod-lt}
use udftools.Base.{ℕ, suc, ◌+◌, ◌%◌, ◌^◌, ◌≤◌, ◌<◌, ◌≡◌, ◌≢◌, [], ◌∷◌, arith, some, ok, inl, inr}
use udftools.Extent.{Cursor, next_size_loop, skip_to, misplaced}
use udftools.Extent.Search.{Room}
use udftools.Base.Multiples.{round_up}

-- If the search reaches an extent with enough blocks, whose start is not aligned and whose end lies
-- in front of the next aligned block, then the subtraction of the distance to that block wraps
-- around: the search returns the block, which has no room in the extent. The extent starts at the
-- start of the search or behind it, and the numbers fit 32 bits.
pub next_size_loop-outside :
    (fuel start type blocks offset : ℕ) (c : Cursor)
    → start ≤ c.at.start
    → c.at.start % offset ≢ 0
    → 0 < offset
    → blocks ≤ c.at.blocks
    → c.at.start + c.at.blocks < round_up c.at.start offset
    → round_up c.at.start offset < 2 ^ 32
    → blocks + offset ≤ 2 ^ 32
    → (next_size_loop (suc fuel) start type blocks offset (some c)
        ≡ ok (round_up c.at.start offset))
      × (¬ Room type blocks (round_up c.at.start offset) (c.at ∷ []))
unfolding Room next_size_loop skip_to misplaced
next_size_loop-outside fuel start type blocks offset c low unaligned pos enough short small fits =
    let bound = mod-lt c.at.start pos in
    (ground arith, λ room. elim room [ inl here ↦ omega arith | inr there ↦ there ])

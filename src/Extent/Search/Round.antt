-- ===== src/Extent/Search/Round.antt =====
-- One round of the loop of `find_next_extent_size`, at an extent of the wanted type.
use native.Mathlib.Nat.{mod-lt}
use udftools.Base.{
  ℕ, suc, ◌+◌, ◌-◌, ◌%◌, ◌^◌, ◌≤◌, ◌<◌, ◌≡◌, ◌≢◌, some, List, [], ◌∷◌, arith, ltb, if◌then◌else◌,
  Run, ok,
}
use udftools.Extent.{Extent, cursor, next_from, next_after, misplaced, next_size_loop}
use udftools.Base.Multiples.{round_up}
use udftools.Extent.Tiling.{Tiles}

-- The first extent ends behind a block.
abbrev pub Reaches : ℕ → List Extent → Type 0
Reaches start [] = Unit
Reaches start (e ∷ r) = start < e.start + e.blocks

pub Reaches-tail :
    (start t : ℕ) (e : Extent) (r : List Extent)
    → Tiles (e.start + e.blocks) r t
    → start < e.start + e.blocks
    → Reaches start r
Reaches-tail start t e [] tiles h = tt
Reaches-tail start t e (n ∷ r) tiles h = omega arith

module _ (start type blocks offset t : ℕ) (pos : 0 < offset) (wide : offset ≤ blocks)
    (small : t < 2 ^ 32) where
  module _ (fuel : ℕ) (b : List Extent) (e : Extent) (r : List Extent)
      (fits : blocks ≤ e.blocks) where
    abbrev pub step : Run ℕ
    step = next_size_loop (suc fuel) start type blocks offset (some (cursor b e r))

    abbrev pub rest : Run ℕ
    rest = next_size_loop fuel start type blocks offset (next_from type (e ∷ b) r)

    -- The extent holds `start`, behind its first block.
    pub step-behind :
        e.start < start
        → start < e.start + e.blocks
        → e.start + e.blocks ≤ t
        → step ≡ (if ltb (e.start + e.blocks - start) blocks then rest else ok start)
    unfolding next_size_loop next_after misplaced
    step-behind p q bound = ground arith

    pub step-unaligned :
        start ≤ e.start
        → e.start % offset ≢ 0
        → e.start + e.blocks ≤ t
        → step ≡ (
            if ltb (e.start + e.blocks) (round_up e.start offset + blocks)
            then rest
            else ok (round_up e.start offset))
    unfolding next_size_loop next_after misplaced
    step-unaligned p q bound = ground (arith, mod-lt e.start pos)

    pub step-aligned :
        start ≤ e.start → e.start % offset ≡ 0 → e.start + e.blocks ≤ t → step ≡ ok e.start
    unfolding next_size_loop next_after misplaced
    step-aligned p q bound = ground arith

  -- An extent with too few blocks is passed by.
  pub step-little :
      (fuel : ℕ) (b : List Extent) (e : Extent) (r : List Extent)
      → e.blocks < blocks
      → next_size_loop (suc fuel) start type blocks offset (some (cursor b e r))
        ≡ next_size_loop fuel start type blocks offset (next_from type (e ∷ b) r)
  unfolding next_size_loop next_after
  step-little fuel b e r h = ground arith

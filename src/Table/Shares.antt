-- ===== src/Table/Shares.antt =====
-- The blocks that the descriptors of a space table stand for.
use udftools.Base.{
  ℕ, ◌+◌, ◌/◌, ◌%◌, ◌^◌, ◌≤◌, ◌<◌, ◌≡◌, ap, arith, bit_and, List, [], ◌∷◌, ltb, leb, ◌&&◌,
  if◌then◌else◌, reverse_onto, All,
}
use udftools.Base.Bits.{bit_and_mask}
use udftools.Table.{ShortAd, ext_length_mask}

module _ (blocksize : ℕ) where
  -- The number of blocks of an extent.
  abbrev pub count : ShortAd → ℕ
  count d = d.ext_length % 2 ^ 30 / blocksize

  pub masked-count : (d : ShortAd) → bit_and d.ext_length ext_length_mask / blocksize ≡ count d
  masked-count d = ap (λ (t : ℕ). t / blocksize) (bit_and_mask 30 d.ext_length)

  -- How often a block is in the extents: in a sound table, once if it is free and else never.
  unfoldable pub share : ℕ → ShortAd → ℕ
  share b d = if leb d.ext_position b && ltb b (d.ext_position + count d) then 1 else 0

  unfoldable pub shares : ℕ → List ShortAd → ℕ
  unfolding share
  shares b [] = 0
  shares b (d ∷ l) = share b d + shares b l

  pub shares-reverse_onto :
      (b : ℕ) (l m : List ShortAd) → shares b (reverse_onto l m) ≡ shares b l + shares b m
  unfolding shares
  shares-reverse_onto b [] m = omega arith
  shares-reverse_onto b (d ∷ l) m = omega (arith, shares-reverse_onto b l (d ∷ m))

  -- An extent is whole blocks, and ends so that a start in it can be aligned in 32 bits.
  unfoldable pub ExtentOk : ℕ → ShortAd → Type 0
  ExtentOk alignment d =
      (d.ext_length < 2 ^ 32)
      × (d.ext_length % 2 ^ 30 % blocksize ≡ 0)
      × (d.ext_position + count d + alignment < 2 ^ 32)

  pub All-reverse_onto :
      (P : ShortAd → Type 0) (l m : List ShortAd) → All P l → All P m → All P (reverse_onto l m)
  All-reverse_onto P [] m h k = k
  All-reverse_onto P (d ∷ l) m h k = All-reverse_onto P l (d ∷ m) h.1 (h.0, k)

-- Ascending extents, from a bound on.
unfoldable pub Ascends : ℕ → ℕ → List ShortAd → Type 0
Ascends blocksize from [] = Unit {0}
Ascends blocksize from (d ∷ l) =
    (from ≤ d.ext_position) × Ascends blocksize (d.ext_position + count blocksize d) l

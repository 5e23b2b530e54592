-- ===== src/Table/Taken.antt =====
-- What is left of a space table when blocks of one extent are taken.
use native.Mathlib.Nat.{
  div-add-mod, mul_comm, add-mul, mul-div_cancel, mul-mod_left, mul-le-mul_right,
}
use udftools.Base.{
  ℕ, ◌+◌, ◌-◌, ◌*◌, ◌/◌, ◌%◌, ◌^◌, ◌≤◌, ◌<◌, ◌≡◌, ap, ◌∙◌, arith, bit_or, List, [], ◌∷◌,
  reverse_onto, All, sub32, u32,
}
use udftools.Base.Bits.{bit_or_fields}
use udftools.Table.{ShortAd, shorter, ext_not_recorded_allocated}
use udftools.Table.Shares.{count, ExtentOk, Ascends}

pub replace-All :
    (P : ShortAd → Type 0) (p : List ShortAd) (d : ShortAd) (l m : List ShortAd)
    → All P (reverse_onto p (d ∷ l))
    → (P d → All P l → All P m)
    → All P (reverse_onto p m)
replace-All P [] d l m h f = f h.0 h.1
replace-All P (e ∷ p) d l m h f =
    replace-All P p e (d ∷ l) (e ∷ m) h λ first rest. (first, f rest.0 rest.1)

-- Extents that stand in the place of one ascend as that one did.
pub replace-Ascends :
    (blocksize from : ℕ) (p : List ShortAd) (d : ShortAd) (l m : List ShortAd)
    → Ascends blocksize from (reverse_onto p (d ∷ l))
    → ((b : ℕ)
        → b ≤ d.ext_position
        → Ascends blocksize (d.ext_position + count blocksize d) l
        → Ascends blocksize b m)
    → Ascends blocksize from (reverse_onto p m)
unfolding Ascends
replace-Ascends blocksize from [] d l m h f = f from h.0 h.1
replace-Ascends blocksize from (e ∷ p) d l m h f =
    replace-Ascends blocksize from p e (d ∷ l) (e ∷ m) h
      λ b low rest. (low, f (e.ext_position + count blocksize e) rest.0 rest.1)

pub lower-Ascends :
    (blocksize b c : ℕ) (l : List ShortAd) → b ≤ c → Ascends blocksize c l → Ascends blocksize b l
unfolding Ascends
lower-Ascends blocksize b c [] h sorted = sorted
lower-Ascends blocksize b c (d ∷ l) h sorted = (omega (arith, sorted.0), sorted.1)

module _ (alignment blocksize : ℕ) (pos : 0 < blocksize) where
  -- The length of a number of blocks.
  sized :
      (n len : ℕ)
      → len % 2 ^ 30 ≡ n * blocksize
      → (len % 2 ^ 30 / blocksize ≡ n) × (len % 2 ^ 30 % blocksize ≡ 0)
  sized n len e = (
    ap (λ (t : ℕ). t / blocksize) e ∙ mul-div_cancel n pos,
    ap (λ (t : ℕ). t % blocksize) e ∙ mul-mod_left n blocksize,
  )

  module _ (d : ShortAd) (valid : ExtentOk blocksize alignment d) where
    whole_blocks : d.ext_length % 2 ^ 30 ≡ count blocksize d * blocksize
    unfolding ExtentOk
    whole_blocks = omega (
      arith,
      div-add-mod (d.ext_length % 2 ^ 30) blocksize,
      mul_comm blocksize (count blocksize d),
      valid.1,
    )

    few_blocks : (n : ℕ) → n ≤ count blocksize d → n * blocksize ≤ d.ext_length % 2 ^ 30
    few_blocks n h = omega (arith, mul-le-mul_right blocksize h, whole_blocks)

    -- A length less some blocks.
    pub shorter-count :
        (n : ℕ)
        → n ≤ count blocksize d
        → (shorter d n blocksize < 2 ^ 32)
          × (shorter d n blocksize % 2 ^ 30 / blocksize ≡ count blocksize d - n)
          × (shorter d n blocksize % 2 ^ 30 % blocksize ≡ 0)
    unfolding shorter ExtentOk
    shorter-count n h =
        let e = count blocksize d - n in
        let parts : (n + e) * blocksize ≡ n * blocksize + e * blocksize = add-mul n e blocksize in
        let joined : (n + e) * blocksize ≡ count blocksize d * blocksize =
          ap (λ (t : ℕ). t * blocksize) (let z : n + e ≡ count blocksize d = omega arith in z) in
        let few = few_blocks n h in
        let len : sub32 d.ext_length (u32 (n * blocksize)) ≡ d.ext_length - n * blocksize =
          omega (arith, valid.0) in
        let size : (d.ext_length - n * blocksize) % 2 ^ 30 ≡ e * blocksize =
          omega (arith, whole_blocks) in
        let both = sized e (d.ext_length - n * blocksize) size in
        rw len (omega (arith, valid.0), both.0, both.1)

    -- A new length of some of the blocks.
    pub fresh-count :
        (n : ℕ)
        → n ≤ count blocksize d
        → let len = bit_or ext_not_recorded_allocated (u32 (n * blocksize)) in
          (len < 2 ^ 32) × (len % 2 ^ 30 / blocksize ≡ n) × (len % 2 ^ 30 % blocksize ≡ 0)
    fresh-count n h =
        let few = few_blocks n h in
        let kept : u32 (n * blocksize) ≡ n * blocksize = omega arith in
        let len : bit_or ext_not_recorded_allocated (u32 (n * blocksize)) ≡ 2 ^ 30 + n * blocksize =
          ap (bit_or ext_not_recorded_allocated) kept
          ∙ bit_or_fields 1 30 (n * blocksize) (omega arith) in
        let both = sized n (2 ^ 30 + n * blocksize) (omega arith) in
        rw len (omega arith, both.0, both.1)

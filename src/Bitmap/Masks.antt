-- ===== src/Bitmap/Masks.antt =====
-- The masks of the searches at their widths, words read from bytes, and the loop of `ffz`.
use native.Mathlib.Nat.{pow-suc, one-le-pow}
use udftools.Base.{
  ℕ, zero, suc, ◌+◌, ◌-◌, ◌*◌, ◌/◌, ◌%◌, ◌^◌, ◌≤◌, ◌<◌, ◌≡◌, refl, sym, ap, ◌∙◌, arith, bit_and,
  bit_or, List, [], ◌∷◌, ◌++◌, length, take, replicate, number_of, All, ◌==◌, ==_iff, ok, u32,
  holds_below, holds_below-at, ◌&&◌, true, inl, inr, Bool-cases, leb, Bool, ◌>>>◌, ◌<<<◌,
}
use udftools.Base.Bits.{bit_and_step, bit_or_step, bit_and_mask}
use udftools.Bitmap.{all_ones, ffz_from, ffz}
use udftools.Bitmap.Digits.{bits, bits_of, first_zero, bits-fields}

abbrev pub Byte : ℕ → Type 0
Byte b = b < 256

-- Digits above a width are not read.
pub bits-mod : (n m t : ℕ) → m ≤ n → bits m (t % 2 ^ n) ≡ bits m t
unfolding bits
bits-mod n zero t h = refl
bits-mod zero (suc m) t h = absurd (omega arith)
bits-mod (suc n) (suc m) t h =
    let step = bit_and_step t (2 ^ suc n - 1) in
    let p = pow-suc 2 n in
    let pos = one-le-pow n 2 in
    let wide : bit_and t (2 ^ suc n - 1) ≡ t % 2 ^ suc n = bit_and_mask (suc n) t in
    let half : (2 ^ suc n - 1) / 2 ≡ 2 ^ n - 1 = omega arith in
    let odd : (2 ^ suc n - 1) % 2 ≡ 1 = omega arith in
    let under : bit_and (t / 2) ((2 ^ suc n - 1) / 2) ≡ t / 2 % 2 ^ n =
      ap (bit_and (t / 2)) half ∙ bit_and_mask n (t / 2) in
    let low : t % 2 ^ suc n % 2 ≡ t % 2 = ground arith in
    let high : t % 2 ^ suc n / 2 ≡ t / 2 % 2 ^ n = ground arith in
    rw (low, high) (ap (λ l. t % 2 ∷ l) (bits-mod n m (t / 2) (omega arith)))

-- The digits from a position on filled with ones.
pub bits-mask_high :
    (n m s t : ℕ)
    → s ≤ m
    → m ≤ n
    → bits m (bit_or t (2 ^ n - 2 ^ s)) ≡ take s (bits m t) ++ replicate (m - s) 1
unfolding bits
bits-mask_high n zero zero t h k = refl
bits-mask_high n zero (suc s) t h k = absurd (omega arith)
bits-mask_high zero (suc m) s t h k = absurd (omega arith)
bits-mask_high (suc n) (suc m) zero t h k =
    let rest = bits-mask_high n m zero (t / 2) (omega arith) (omega arith) in
    let p = pow-suc 2 n in
    let pos = one-le-pow n 2 in
    let odd : (2 ^ suc n - 1) % 2 ≡ 1 = omega arith in
    let half : (2 ^ suc n - 1) / 2 ≡ 2 ^ n - 1 = omega arith in
    let step = bit_or_step t (2 ^ suc n - 1) in
    let low : bit_or t (2 ^ suc n - 1) % 2 ≡ 1 = ground arith in
    let high : bit_or t (2 ^ suc n - 1) / 2 ≡ bit_or (t / 2) (2 ^ n - 1) =
      rw (sym half) (ground arith) in
    let size : suc m - 0 ≡ suc (m - 0) = omega arith in rw (low, high, size) (ap (λ l. 1 ∷ l) rest)
bits-mask_high (suc n) (suc m) (suc s) t h k =
    let rest = bits-mask_high n m s (t / 2) (omega arith) (omega arith) in
    let p = pow-suc 2 n in
    let q = pow-suc 2 s in
    let even : (2 ^ suc n - 2 ^ suc s) % 2 ≡ 0 = omega arith in
    let half : (2 ^ suc n - 2 ^ suc s) / 2 ≡ 2 ^ n - 2 ^ s = omega arith in
    let step = bit_or_step t (2 ^ suc n - 2 ^ suc s) in
    let low : bit_or t (2 ^ suc n - 2 ^ suc s) % 2 ≡ t % 2 = ground arith in
    let high : bit_or t (2 ^ suc n - 2 ^ suc s) / 2 ≡ bit_or (t / 2) (2 ^ n - 2 ^ s) =
      rw (sym half) (ground arith) in
    let size : suc m - suc s ≡ m - s = omega arith in
    rw (low, high, size) (ap (λ l. t % 2 ∷ l) rest)

-- A mask of ones swallows what fits below it.
pub bit_or-ones : (n t : ℕ) → t < 2 ^ n → bit_or t (2 ^ n - 1) ≡ 2 ^ n - 1
bit_or-ones zero t h = let e : t ≡ 0 = omega arith in rw e refl
bit_or-ones (suc n) t h = ground (
  arith,
  pow-suc 2 n,
  one-le-pow n 2,
  bit_or_step t (2 ^ suc n - 1),
  bit_or-ones n (t / 2),
  ap (bit_or (t / 2))
      (let e : (2 ^ suc n - 1) / 2 ≡ 2 ^ n - 1 = omega (arith, pow-suc 2 n, one-le-pow n 2) in e),
)

-- The bytes of a number hold its digits.
pub bits-number_of : (l : List ℕ) → All Byte l → bits (8 * length l) (number_of l) ≡ bits_of l
unfolding bits_of
bits-number_of [] small = unfold bits in refl
bits-number_of (b ∷ l) small =
    let e : 8 * suc (length l) ≡ 8 + 8 * length l = omega arith in
    rw e (
      bits-fields 8 (8 * length l) b (number_of l) small.0
      ∙ ap (λ t. bits 8 b ++ t) (bits-number_of l small.1))

pub number_of-lt : (n : ℕ) (l : List ℕ) → All Byte l → length l ≤ n → number_of l < 2 ^ (8 * n)
number_of-lt n [] small h = one-le-pow (8 * n) 2 (omega arith)
number_of-lt zero (b ∷ l) small h = absurd (omega arith)
number_of-lt (suc n) (b ∷ l) small h =
    let e : 2 ^ (8 * suc n) ≡ 256 * 2 ^ (8 * n) =
      let f : 8 * suc n ≡ suc (suc (suc (suc (suc (suc (suc (suc (8 * n)))))))) = omega arith in
      rw f (simp pow-suc (omega arith)) in
    omega (arith, number_of-lt n l small.1 (omega arith), small.0)

-- `ffz` ends on every word that is short of its fuel, with the position of the first 0.
ffz_from-first_zero :
    (n fuel t r : ℕ) → t < 2 ^ n → n < fuel → ffz_from fuel t r ≡ ok (r + first_zero (bits n t))
unfolding ffz_from bits first_zero
ffz_from-first_zero n zero t r small h = absurd (omega arith)
ffz_from-first_zero zero (suc fuel) t r small h =
    let e : t ≡ 0 = omega arith in rw e (let z : r ≡ r + 0 = omega arith in ap ok z)
ffz_from-first_zero (suc n) (suc fuel) t r small h =
    let bit : bit_and t 1 ≡ t % 2 = bit_and_mask 1 t in
    let rest =
      ffz_from-first_zero n fuel (t / 2) (r + 1) (omega (arith, pow-suc 2 n)) (omega arith) in
    let half : t >>> 1 ≡ t / 2 = omega arith in
    rw (bit, half)
      (elim (Bool-cases (t % 2 == 0)) [
        | inl even ↦ rw even (let z : r ≡ r + 0 = omega arith in ap ok z)
        | inr odd ↦ rw odd (
            rest
            ∙ ap ok (
                let z : r + 1 + first_zero (bits n (t / 2))
                    ≡ r + suc (first_zero (bits n (t / 2))) =
                  omega arith in
                z))
      ])

pub ffz-first_zero : (n t : ℕ) → t < 2 ^ n → n ≤ 64 → ffz t ≡ ok (first_zero (bits n t))
unfolding ffz
ffz-first_zero n t small h =
    ffz_from-first_zero n 65 t 0 small (omega arith)
    ∙ ap ok (let z : 0 + first_zero (bits n t) ≡ first_zero (bits n t) = omega arith in z)

-- The masks that are made from `~0UL`, for a number of digits inside a word.
masks_test : ℕ → Bool
masks_test k =
    (all_ones >>> (32 - k) == 2 ^ (32 + k) - 1)
    && (((all_ones <<< k) % 2 ^ 64 == 2 ^ 64 - 2 ^ k)
        && (leb (2 ^ 32) (2 ^ (32 + k)) && (u32 (2 ^ (32 + k) - 1) == 2 ^ 32 - 1)))

masks_checked : holds_below masks_test 32 ≡ true
unfolding holds_below masks_test
masks_checked = refl

pub masks :
    (k : ℕ)
    → k < 32
    → (all_ones >>> (32 - k) ≡ 2 ^ (32 + k) - 1)
      × ((all_ones <<< k) % 2 ^ 64 ≡ 2 ^ 64 - 2 ^ k)
      × (2 ^ 32 ≤ 2 ^ (32 + k))
      × (u32 (2 ^ (32 + k) - 1) ≡ 2 ^ 32 - 1)
unfolding masks_test
masks k h =
    let e = holds_below-at masks_test 32 k h masks_checked in
    let low = all_ones >>> (32 - k) in
    let high = (all_ones <<< k) % 2 ^ 64 in
    let tests =
      and_true (low == 2 ^ (32 + k) - 1) (high == 2 ^ 64 - 2 ^ k) (leb (2 ^ 32) (2 ^ (32 + k)))
        (u32 (2 ^ (32 + k) - 1) == 2 ^ 32 - 1) e in
    (
      (==_iff low (2 ^ (32 + k) - 1)).0 tests.0,
      (==_iff high (2 ^ 64 - 2 ^ k)).0 tests.1,
      ground (arith, tests.2),
      (==_iff (u32 (2 ^ (32 + k) - 1)) (2 ^ 32 - 1)).0 tests.3,
    )
  where
    and_true :
        (a b c d : Bool)
        → (a && (b && (c && d))) ≡ true
        → (a ≡ true) × (b ≡ true) × (c ≡ true) × (d ≡ true)
    and_true a b c d e = ground arith

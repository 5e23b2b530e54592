-- ===== src/Bitmap/Digits.antt =====
-- Words and bytes as lists of their binary digits, the lowest first, and what masks do to them.
use native.Mathlib.Nat.{pow-suc, one-le-pow}
use udftools.Base.{
  ℕ, zero, suc, ◌+◌, ◌-◌, ◌*◌, ◌/◌, ◌%◌, ◌^◌, ◌≤◌, ◌<◌, ◌≡◌, ◌≢◌, refl, sym, ap, arith, bit_and,
  bit_or, List, [], ◌∷◌, ◌++◌, length, take, drop, replicate, ◌==◌, if◌then◌else◌,
}
use udftools.Base.Bits.{bit_and_step, bit_or_step}

unfoldable pub bits : ℕ → ℕ → List ℕ
bits zero t = []
bits (suc n) t = t % 2 ∷ bits n (t / 2)

-- The bits of a bitmap.
unfoldable pub bits_of : List ℕ → List ℕ
unfolding bits
bits_of [] = []
bits_of (b ∷ bytes) = bits 8 b ++ bits_of bytes

-- The position of the first digit that is not 0, or the length.
unfoldable pub first_one : List ℕ → ℕ
first_one [] = 0
first_one (d ∷ l) = if d == 0 then suc (first_one l) else 0

-- The position of the first 0, or the length.
unfoldable pub first_zero : List ℕ → ℕ
first_zero [] = 0
first_zero (d ∷ l) = if d == 0 then 0 else suc (first_zero l)

pub length-bits : (n t : ℕ) → length (bits n t) ≡ n
unfolding bits
length-bits zero t = refl
length-bits (suc n) t = ap suc (length-bits n (t / 2))

-- The digits of two fields, one above the other.
pub bits-fields : (n m a b : ℕ) → a < 2 ^ n → bits (n + m) (a + 2 ^ n * b) ≡ bits n a ++ bits m b
unfolding bits
bits-fields zero m a b small =
    let e : 0 + m ≡ m = omega arith in let f : a + 2 ^ 0 * b ≡ b = omega arith in rw (e, f) refl
bits-fields (suc n) m a b small =
    let e : suc n + m ≡ suc (n + m) = omega arith in
    let p = pow-suc 2 n in
    let scaled : 2 ^ suc n * b ≡ 2 * (2 ^ n * b) = omega (arith, ap (λ (t : ℕ). t * b) p) in
    let low : (a + 2 ^ suc n * b) % 2 ≡ a % 2 = omega arith in
    let high : (a + 2 ^ suc n * b) / 2 ≡ a / 2 + 2 ^ n * b = omega arith in
    rw (e, low, high) (ap (λ l. a % 2 ∷ l) (bits-fields n m (a / 2) b (omega arith)))

-- Digits of 0 and of a word of ones.
pub first_one-zero : (n : ℕ) → first_one (bits n 0) ≡ n
unfolding first_one bits
first_one-zero zero = refl
first_one-zero (suc n) = ap suc (first_one-zero n)

pub first_zero-ones : (n : ℕ) → first_zero (bits n (2 ^ n - 1)) ≡ n
unfolding first_zero bits
first_zero-ones zero = refl
first_zero-ones (suc n) =
    let one : (2 ^ suc n - 1) % 2 ≡ 1 = omega (arith, pow-suc 2 n, one-le-pow n 2) in
    let half : (2 ^ suc n - 1) / 2 ≡ 2 ^ n - 1 = omega (arith, pow-suc 2 n, one-le-pow n 2) in
    rw (one, half) (ap suc (first_zero-ones n))

pub first_one-lt : (n t : ℕ) → t < 2 ^ n → t ≢ 0 → first_one (bits n t) < n
unfolding first_one bits
first_one-lt zero t small ne = absurd (omega arith)
first_one-lt (suc n) t small ne = ground (arith, pow-suc 2 n, first_one-lt n (t / 2))

pub first_zero-lt : (n t : ℕ) → t < 2 ^ n → t ≢ 2 ^ n - 1 → first_zero (bits n t) < n
unfolding first_zero bits
first_zero-lt zero t small ne = absurd (omega arith)
first_zero-lt (suc n) t small ne =
    ground (arith, pow-suc 2 n, one-le-pow n 2, first_zero-lt n (t / 2))

-- The complement of a word has a 0 where the word has a 1.
pub first_zero-complement :
    (n t : ℕ) → t < 2 ^ n → first_zero (bits n (2 ^ n - 1 - t)) ≡ first_one (bits n t)
unfolding first_zero first_one bits
first_zero-complement zero t small = refl
first_zero-complement (suc n) t small =
    let half : (2 ^ suc n - 1 - t) / 2 ≡ 2 ^ n - 1 - t / 2 = omega (arith, pow-suc 2 n) in
    let low : (2 ^ suc n - 1 - t) % 2 ≡ 1 - t % 2 = omega (arith, pow-suc 2 n) in
    let rest = first_zero-complement n (t / 2) (omega (arith, pow-suc 2 n)) in
    rw (half, low) (ground (arith, rest))

-- A bit set behind the digits that count ends the search there.
pub first_one-or :
    (n s t : ℕ) → s < n → first_one (bits n (bit_or t (2 ^ s))) ≡ first_one (take s (bits n t))
unfolding first_one bits
first_one-or zero s t h = absurd (omega arith)
first_one-or (suc n) zero t h = ground (arith, bit_or_step t 1)
first_one-or (suc n) (suc s) t h =
    let step = bit_or_step t (2 ^ suc s) in
    let p = pow-suc 2 s in
    let even : 2 ^ suc s % 2 ≡ 0 = omega arith in
    let half : 2 ^ suc s / 2 ≡ 2 ^ s = omega arith in
    let low : bit_or t (2 ^ suc s) % 2 ≡ t % 2 = ground arith in
    let high : bit_or t (2 ^ suc s) / 2 ≡ bit_or (t / 2) (2 ^ s) = rw (sym half) (ground arith) in
    rw (low, high) (let rest = first_one-or n s (t / 2) (omega arith) in ground (arith, rest))

-- The low digits masked out.
pub bits-mask_low :
    (n m o t : ℕ)
    → o ≤ m
    → m ≤ n
    → bits m (bit_and t (2 ^ n - 2 ^ o)) ≡ replicate o 0 ++ drop o (bits m t)
unfolding bits
bits-mask_low n zero zero t h k = refl
bits-mask_low n zero (suc o) t h k = absurd (omega arith)
bits-mask_low zero (suc m) o t h k = absurd (omega arith)
bits-mask_low (suc n) (suc m) zero t h k =
    let rest = bits-mask_low n m zero (t / 2) (omega arith) (omega arith) in
    let p = pow-suc 2 n in
    let pos = one-le-pow n 2 in
    let odd : (2 ^ suc n - 1) % 2 ≡ 1 = omega arith in
    let half : (2 ^ suc n - 1) / 2 ≡ 2 ^ n - 1 = omega arith in
    let step = bit_and_step t (2 ^ suc n - 1) in
    let low : bit_and t (2 ^ suc n - 1) % 2 ≡ t % 2 = ground arith in
    let high : bit_and t (2 ^ suc n - 1) / 2 ≡ bit_and (t / 2) (2 ^ n - 1) =
      rw (sym half) (ground arith) in
    rw (low, high) (ap (λ l. t % 2 ∷ l) rest)
bits-mask_low (suc n) (suc m) (suc o) t h k =
    let rest = bits-mask_low n m o (t / 2) (omega arith) (omega arith) in
    let p = pow-suc 2 n in
    let q = pow-suc 2 o in
    let even : (2 ^ suc n - 2 ^ suc o) % 2 ≡ 0 = omega arith in
    let half : (2 ^ suc n - 2 ^ suc o) / 2 ≡ 2 ^ n - 2 ^ o = omega arith in
    let step = bit_and_step t (2 ^ suc n - 2 ^ suc o) in
    let low : bit_and t (2 ^ suc n - 2 ^ suc o) % 2 ≡ 0 = ground arith in
    let high : bit_and t (2 ^ suc n - 2 ^ suc o) / 2 ≡ bit_and (t / 2) (2 ^ n - 2 ^ o) =
      rw (sym half) (ground arith) in
    rw (low, high) (ap (λ l. 0 ∷ l) rest)

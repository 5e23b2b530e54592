-- ===== src/Bitmap/Clear.antt =====
-- `clear_bits` clears the bits of a range and no other.
use native.Mathlib.Nat.{pow-suc, one-le-pow}
use Prim.Native.Nat.{bit_and-bitwise}
use udftools.Base.{
  ℕ, zero, suc, ◌+◌, ◌-◌, ◌*◌, ◌/◌, ◌%◌, ◌^◌, ◌≤◌, ◌<◌, ◌≡◌, refl, sym, ap, ◌∙◌, arith, bit_and,
  List, [], ◌∷◌, ◌++◌, length, All, ◌==◌, ltb, leb, if◌then◌else◌, get_or, Returns, Returns->>=,
  Returns_mono, ◌&&◌,
}
use udftools.Base.Bits.{bit_and_step}
use udftools.Bitmap.{clear_at, clear_bits}
use udftools.Bitmap.Digits.{bits, bits_of}
use udftools.Bitmap.Masks.{Byte}

-- A list with a 0 at a position.
unfoldable pub clear_nth : ℕ → List ℕ → List ℕ
clear_nth k [] = []
clear_nth zero (x ∷ l) = 0 ∷ l
clear_nth (suc k) (x ∷ l) = x ∷ clear_nth k l

get_or-clear_nth :
    (k j : ℕ) (l : List ℕ) → get_or (clear_nth k l) j 0 ≡ (if j == k then 0 else get_or l j 0)
unfolding clear_nth
get_or-clear_nth k j [] = ground arith
get_or-clear_nth zero zero (x ∷ l) = ground arith
get_or-clear_nth zero (suc j) (x ∷ l) = ground arith
get_or-clear_nth (suc k) zero (x ∷ l) = ground arith
get_or-clear_nth (suc k) (suc j) (x ∷ l) = ground (arith, get_or-clear_nth k j l)

clear_nth-append : (k : ℕ) (l m : List ℕ) → k < length l → clear_nth k (l ++ m) ≡ clear_nth k l ++ m
unfolding clear_nth
clear_nth-append k [] m h = absurd (omega arith)
clear_nth-append zero (x ∷ l) m h = refl
clear_nth-append (suc k) (x ∷ l) m h = ap (λ t. x ∷ t) (clear_nth-append k l m (omega arith))

-- One digit masked out.
bits-mask_one :
    (n k t : ℕ) → k < n → bits n (bit_and t (2 ^ n - 1 - 2 ^ k)) ≡ clear_nth k (bits n t)
unfolding bits clear_nth
bits-mask_one zero k t h = absurd (omega arith)
bits-mask_one (suc n) zero t h =
    let p = pow-suc 2 n in
    let pos = one-le-pow n 2 in
    let m = 2 ^ suc n - 1 - 1 in
    let step = bit_and_step t m in
    let half : m / 2 ≡ 2 ^ n - 1 = omega arith in
    let low : bit_and t m % 2 ≡ 0 = ground arith in
    let high : bit_and t m / 2 ≡ bit_and (t / 2) (2 ^ n - 1) = rw (sym half) (ground arith) in
    rw (low, high) (ap (λ l. 0 ∷ l) (bits-ones n n (t / 2) (omega arith)))
  where
    bits-ones : (n m t : ℕ) → m ≤ n → bits m (bit_and t (2 ^ n - 1)) ≡ bits m t
    bits-ones n zero t h = refl
    bits-ones zero (suc m) t h = absurd (omega arith)
    bits-ones (suc n) (suc m) t h =
        let p = pow-suc 2 n in
        let pos = one-le-pow n 2 in
        let step = bit_and_step t (2 ^ suc n - 1) in
        let half : (2 ^ suc n - 1) / 2 ≡ 2 ^ n - 1 = omega arith in
        let low : bit_and t (2 ^ suc n - 1) % 2 ≡ t % 2 = ground arith in
        let high : bit_and t (2 ^ suc n - 1) / 2 ≡ bit_and (t / 2) (2 ^ n - 1) =
          rw (sym half) (ground arith) in
        rw (low, high) (ap (λ l. t % 2 ∷ l) (bits-ones n m (t / 2) (omega arith)))
bits-mask_one (suc n) (suc k) t h =
    let p = pow-suc 2 n in
    let q = pow-suc 2 k in
    let less = pow_lt k n (omega arith) in
    let m = 2 ^ suc n - 1 - 2 ^ suc k in
    let step = bit_and_step t m in
    let half : m / 2 ≡ 2 ^ n - 1 - 2 ^ k = omega arith in
    let odd : m % 2 ≡ 1 = omega arith in
    let low : bit_and t m % 2 ≡ t % 2 = ground arith in
    let high : bit_and t m / 2 ≡ bit_and (t / 2) (2 ^ n - 1 - 2 ^ k) =
      rw (sym half) (ground arith) in
    rw (low, high) (ap (λ l. t % 2 ∷ l) (bits-mask_one n k (t / 2) (omega arith)))
  where
    pow_lt : (k n : ℕ) → k < n → 2 ^ k < 2 ^ n
    pow_lt k zero h = absurd (omega arith)
    pow_lt zero (suc n) h = omega (arith, pow-suc 2 n, one-le-pow n 2)
    pow_lt (suc k) (suc n) h = omega (arith, pow-suc 2 n, pow-suc 2 k, pow_lt k n (omega arith))

bit_and-le : (n a b : ℕ) → a ≤ n → bit_and a b ≤ a
bit_and-le zero a b h = let e : a ≡ 0 = omega arith in rw e (omega (arith, bit_and-bitwise 0 b))
bit_and-le (suc n) a b h = ground (arith, bit_and_step a b, bit_and-le n (a / 2) (b / 2))

-- The byte at an index, with one bit cleared.
clear_at-bits :
    (l : List ℕ) (i k : ℕ)
    → All Byte l
    → i < length l
    → k < 8
    → Returns
        (clear_at l i k)
        (λ m. (length m ≡ length l) × All Byte m × (bits_of m ≡ clear_nth (8 * i + k) (bits_of l)))
unfolding clear_at bits_of
clear_at-bits [] i k small there low = absurd (omega arith)
clear_at-bits (b ∷ l) zero k small there low = (
  refl,
  (omega (arith, small.0, bit_and-le b b (255 - 2 ^ k) (omega arith)), small.1),
  ap (λ t. t ++ bits_of l) (bits-mask_one 8 k b low)
      ∙ sym (clear_nth-append k (bits 8 b) (bits_of l) low)
      ∙ ap (λ n. clear_nth n (bits 8 b ++ bits_of l)) (let e : k ≡ 8 * 0 + k = omega arith in e),
)
clear_at-bits (b ∷ l) (suc i) k small there low =
    let e : 8 * suc i + k ≡ suc (suc (suc (suc (suc (suc (suc (suc (8 * i + k)))))))) =
      omega arith in
    Returns->>= (clear_at l i k) _
      (λ m. (length m ≡ length l) × All Byte m × (bits_of m ≡ clear_nth (8 * i + k) (bits_of l))) _
      (clear_at-bits l i k small.1 (omega arith) low)
      λ m kept. (
        ap suc kept.0,
        (small.0, kept.1),
        rw e (unfold bits clear_nth in ap (λ t. bits 8 b ++ t) kept.2),
      )

-- `clear_bits` returns the bitmap in which the bits of the range are clear and all others are as
-- they were, where the range lies inside the bitmap.
pub clear_bits-range :
    (l : List ℕ) (offset n : ℕ)
    → All Byte l
    → offset + n ≤ 8 * length l
    → Returns (clear_bits l offset n) (λ m.
      (length m ≡ length l)
      × All Byte m
      × ((j : ℕ)
          → get_or (bits_of m) j 0
            ≡ (if leb offset j && ltb j (offset + n) then 0 else get_or (bits_of l) j 0)))
unfolding clear_bits
clear_bits-range l offset zero small inside =
    (refl, small, λ j. outside offset j (get_or (bits_of l) j 0))
  where
    outside : (o j x : ℕ) → x ≡ (if leb o j && ltb j (o + 0) then 0 else x)
    outside o j x = ground arith
clear_bits-range l offset (suc n) small inside =
    let k = offset + n in
    let whole : 8 * (k / 8) + k % 8 ≡ k = omega arith in
    Returns->>= (clear_at l (k / 8) (k % 8)) _
      (λ m.
        (length m ≡ length l)
        × All Byte m
        × (bits_of m ≡ clear_nth (8 * (k / 8) + k % 8) (bits_of l)))
      _ (clear_at-bits l (k / 8) (k % 8) small (omega arith) (omega arith))
      λ m one.
        Returns_mono (clear_bits m offset n) _ _
          (clear_bits-range m offset n one.1 (omega (arith, one.0)))
          λ r rest. (
            rest.0 ∙ one.0,
            rest.1,
            λ j.
                let step : get_or (bits_of m) j 0 ≡ (if j == k then 0 else get_or (bits_of l) j 0) =
                  ap (λ b. get_or b j 0) (one.2 ∙ ap (λ i. clear_nth i (bits_of l)) whole)
                  ∙ get_or-clear_nth k j (bits_of l) in
                rest.2 j
                ∙ one_more offset n j (get_or (bits_of m) j 0) (get_or (bits_of l) j 0) step,
          )
  where
    one_more :
        (o n j y x : ℕ)
        → y ≡ (if j == o + n then 0 else x)
        → (if leb o j && ltb j (o + n) then 0 else y)
          ≡ (if leb o j && ltb j (o + suc n) then 0 else x)
    one_more o n j y x e = ground (arith, e)

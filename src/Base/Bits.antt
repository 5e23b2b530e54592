-- ===== src/Base/Bits.antt =====
-- The bit operations as arithmetic: one equation for the lowest digit of each, then `|` of
-- disjoint fields, `&` with a low mask, and the laws of `^` that shifts need.
use Prim.Native.Nat.{
  min, max, differ, digits, bitwise, bit_and-bitwise, bit_or-bitwise, bit_xor-bitwise,
}
use native.Mathlib.Nat.{
  le_refl, pow-suc, one-le-pow, div-add-mod, add-mul-mod_self_left, mod-eq_of_lt, mod-lt,
}
use Prim.Native.Nat.{ℕ, zero, suc, ◌+◌, ◌-◌, ◌*◌, ◌/◌, ◌%◌, ◌^◌, ◌≤◌, ◌<◌, bit_and, bit_or, bit_xor}
use mathlib.Core.Path.{◌≡◌, refl, ap, ◌∙◌}
use native.Mathlib.Omega.{arith}

-- Fuel beyond the number itself changes no digit.
spare_round :
    (f : ℕ → ℕ → ℕ) (z : ℕ → ℕ) (fuel x y : ℕ)
    → x ≤ fuel
    → digits z f (suc fuel) x y ≡ digits z f fuel x y
spare_round f z zero zero y le = refl
spare_round f z (suc fuel) zero y le = refl
spare_round f z zero (suc x) y le = elim le [ ]
spare_round f z (suc fuel) (suc x) y le =
    ap (λ t. t * 2 + f (suc x % 2) (y % 2)) (spare_round f z fuel (suc x / 2) (y / 2) (omega arith))

enough_fuel :
    (f : ℕ → ℕ → ℕ) (z : ℕ → ℕ) (more x y : ℕ) → digits z f (more + x) x y ≡ bitwise z f x y
enough_fuel f z zero x y = let e : 0 + x ≡ x = omega arith in rw e
enough_fuel f z (suc more) x y =
    let e : suc more + x ≡ suc (more + x) = omega arith in
    rw e (spare_round f z (more + x) x y (omega arith) ∙ enough_fuel f z more x y)

lowest_digit :
    (f : ℕ → ℕ → ℕ) (z : ℕ → ℕ) (x y : ℕ)
    → 0 < x
    → bitwise z f x y ≡ bitwise z f (x / 2) (y / 2) * 2 + f (x % 2) (y % 2)
lowest_digit f z zero y some_digit = elim some_digit [ ]
lowest_digit f z (suc x) y some_digit =
    let e : x ≡ (x - suc x / 2) + suc x / 2 = omega arith in
    ap (λ t. t * 2 + f (suc x % 2) (y % 2))
      (ap (λ t. digits z f t (suc x / 2) (y / 2)) e
        ∙ enough_fuel f z (x - suc x / 2) (suc x / 2) (y / 2))

pub bit_or_step : (x y : ℕ) → bit_or x y ≡ bit_or (x / 2) (y / 2) * 2 + max (x % 2) (y % 2)
bit_or_step zero y = rw bit_or-bitwise (omega (arith, bit_or-bitwise 0 (y / 2)))
bit_or_step (suc x) y = simp bit_or-bitwise (lowest_digit max (λ d. d) (suc x) y (omega arith))

pub bit_and_step : (x y : ℕ) → bit_and x y ≡ bit_and (x / 2) (y / 2) * 2 + min (x % 2) (y % 2)
bit_and_step zero y = rw bit_and-bitwise (omega (arith, bit_and-bitwise 0 (y / 2)))
bit_and_step (suc x) y = simp bit_and-bitwise (lowest_digit min (λ d. 0) (suc x) y (omega arith))

differ_digit : (a b : ℕ) → a < 2 → b < 2 → differ a b ≡ (a + b) % 2
differ_digit zero b p q = omega arith
differ_digit (suc zero) zero p q = refl
differ_digit (suc zero) (suc zero) p q = refl
differ_digit (suc zero) (suc (suc b)) p q = absurd (omega arith)
differ_digit (suc (suc a)) b p q = absurd (omega arith)

pub bit_xor_step : (a b : ℕ) → bit_xor a b ≡ bit_xor (a / 2) (b / 2) * 2 + (a + b) % 2
bit_xor_step zero b = simp bit_xor-bitwise (omega arith)
bit_xor_step (suc a) b = simp bit_xor-bitwise (
    omega (
      arith,
      lowest_digit differ (λ d. d) (suc a) b (omega arith),
      differ_digit (suc a % 2) (b % 2) (omega arith) (omega arith),
    ))

-- Zero is neutral for `|` and absorbing for `&`.
zero_below : (n a : ℕ) → a ≤ n → (bit_or a 0 ≡ a) × (bit_and a 0 ≡ 0)
zero_below zero a le = let e : a ≡ 0 = omega arith in rw e (refl, refl)
zero_below (suc n) a le =
    omega (arith, bit_or_step a 0, bit_and_step a 0, zero_below n (a / 2) (omega arith))

bit_or-zero : (a : ℕ) → bit_or a 0 ≡ a
bit_or-zero a = (zero_below a a (le_refl a)).0

bit_and-zero : (a : ℕ) → bit_and a 0 ≡ 0
bit_and-zero a = (zero_below a a (le_refl a)).1

mod_double : (a m : ℕ) → 1 ≤ m → a % (m * 2) ≡ a / 2 % m * 2 + a % 2
mod_double a m pos =
    let low = a / 2 % m * 2 + a % 2 in
    let whole : a ≡ low + m * 2 * (a / 2 / m) = omega (arith, div-add-mod (a / 2) m) in
    ap (λ (t : ℕ). t % (m * 2)) whole
    ∙ add-mul-mod_self_left low (m * 2) (a / 2 / m)
    ∙ mod-eq_of_lt (let small : low < m * 2 = omega (arith, mod-lt (a / 2) pos) in small)

double_pow : (a s : ℕ) → a * 2 ^ suc s ≡ 2 * (a * 2 ^ s)
double_pow a s = omega (arith, ap (λ (p : ℕ). a * p) (pow-suc 2 s))

-- A shifted number joined by `|` with one that fits below it.
pub bit_or_fields : (high s low : ℕ) → low < 2 ^ s → bit_or (high * 2 ^ s) low ≡ high * 2 ^ s + low
bit_or_fields high zero low small =
    let e : low ≡ 0 = omega arith in rw e (omega (arith, bit_or-zero (high * 1)))
bit_or_fields high (suc s) low small =
    let half = bit_or_fields high s (low / 2) (omega arith) in
    ground (arith, half, double_pow high s, bit_or_step (high * 2 ^ suc s) low)

-- The low `s` bits, cut out by a mask of ones.
pub bit_and_mask : (s a : ℕ) → bit_and a (2 ^ s - 1) ≡ a % 2 ^ s
bit_and_mask zero a = bit_and-zero a ∙ omega arith
bit_and_mask (suc s) a =
    let half = bit_and_mask s (a / 2) in
    let ones : (2 ^ suc s - 1) / 2 ≡ 2 ^ s - 1 = omega (arith, pow-suc 2 s, one-le-pow s 2) in
    let odd : (2 ^ suc s - 1) % 2 ≡ 1 = omega (arith, pow-suc 2 s, one-le-pow s 2) in
    let split = mod_double a (2 ^ s) (one-le-pow s 2 (omega arith)) in
    ground (arith, half, ones, odd, split, pow-suc 2 s, bit_and_step a (2 ^ suc s - 1))

pub bit_xor-lt : (k a b : ℕ) → a < 2 ^ k → b < 2 ^ k → bit_xor a b < 2 ^ k
bit_xor-lt zero a b p q =
    let e : a ≡ 0 = omega arith in let d : b ≡ 0 = omega arith in rw (e, d) (omega arith)
bit_xor-lt (suc k) a b p q =
    omega (
      arith,
      bit_xor_step a b,
      pow-suc 2 k,
      bit_xor-lt k (a / 2) (b / 2) (omega arith) (omega arith),
    )

comm_below : (n a b : ℕ) → a ≤ n → b ≤ n → bit_xor a b ≡ bit_xor b a
comm_below zero a b p q = let e : a ≡ 0 = omega arith in let d : b ≡ 0 = omega arith in rw (e, d)
comm_below (suc n) a b p q = omega (
  arith,
  bit_xor_step a b,
  bit_xor_step b a,
  comm_below n (a / 2) (b / 2) (omega arith) (omega arith),
)

pub bit_xor_comm : (a b : ℕ) → bit_xor a b ≡ bit_xor b a
bit_xor_comm a b = comm_below (a + b) a b (omega arith) (omega arith)

bit_xor_parts :
    (a b : ℕ) → (bit_xor a b / 2 ≡ bit_xor (a / 2) (b / 2)) × (bit_xor a b % 2 ≡ (a + b) % 2)
bit_xor_parts a b = omega (arith, bit_xor_step a b)

bit_xor-div_two : (a b : ℕ) → bit_xor a b / 2 ≡ bit_xor (a / 2) (b / 2)
bit_xor-div_two a b = (bit_xor_parts a b).0

assoc_below :
    (n a b c : ℕ) → a ≤ n → b ≤ n → c ≤ n → bit_xor (bit_xor a b) c ≡ bit_xor a (bit_xor b c)
assoc_below zero a b c p q r =
    let e : a ≡ 0 = omega arith in
    let d : b ≡ 0 = omega arith in let f : c ≡ 0 = omega arith in rw (e, d, f)
assoc_below (suc n) a b c p q r = ground (
  arith,
  bit_xor_step (bit_xor a b) c,
  bit_xor_step a (bit_xor b c),
  bit_xor_parts a b,
  bit_xor_parts b c,
  assoc_below n (a / 2) (b / 2) (c / 2),
)

pub bit_xor_assoc : (a b c : ℕ) → bit_xor (bit_xor a b) c ≡ bit_xor a (bit_xor b c)
bit_xor_assoc a b c = assoc_below (a + b + c) a b c (omega arith) (omega arith) (omega arith)

self_below : (n a : ℕ) → a ≤ n → bit_xor a a ≡ 0
self_below zero a p = let e : a ≡ 0 = omega arith in rw e
self_below (suc n) a p = omega (arith, bit_xor_step a a, self_below n (a / 2) (omega arith))

pub bit_xor_self : (a : ℕ) → bit_xor a a ≡ 0
bit_xor_self a = self_below a a (omega arith)

pub zero-bit_xor : (a : ℕ) → bit_xor 0 a ≡ a
zero-bit_xor a = bit_xor-bitwise 0 a

-- What is mixed in twice cancels.
pub bit_xor_cancel : (a b : ℕ) → bit_xor a (bit_xor a b) ≡ b
bit_xor_cancel a b = rw (← bit_xor_assoc, bit_xor_self) (zero-bit_xor b)

-- `^` works digit by digit, so it acts on the fields above and below any bit apart.
pub bit_xor_fields :
    (k a b c d : ℕ)
    → c < 2 ^ k
    → d < 2 ^ k
    → bit_xor (a * 2 ^ k + c) (b * 2 ^ k + d) ≡ bit_xor a b * 2 ^ k + bit_xor c d
bit_xor_fields zero a b c d p q =
    let e : c ≡ 0 = omega arith in let f : d ≡ 0 = omega arith in rw (e, f) (ground arith)
bit_xor_fields (suc k) a b c d p q = ground (
  arith,
  bit_xor_step (a * 2 ^ suc k + c) (b * 2 ^ suc k + d),
  bit_xor_step c d,
  double_pow a k,
  double_pow b k,
  double_pow (bit_xor a b) k,
  bit_xor_fields k a b (c / 2) (d / 2) (omega arith) (omega arith),
)

-- One bit selected by `&`.
pub bit_and_bit : (k q r : ℕ) → r < 2 ^ k → bit_and (q * 2 ^ k + r) (2 ^ k) ≡ q % 2 * 2 ^ k
bit_and_bit zero q r fits =
    omega (arith, bit_and_step (q * 1 + r) 1, bit_and-zero ((q * 1 + r) / 2))
bit_and_bit (suc k) q r fits = ground (
  arith,
  bit_and_step (q * 2 ^ suc k + r) (2 ^ suc k),
  double_pow q k,
  double_pow (q % 2) k,
  pow-suc 2 k,
  bit_and_bit k q (r / 2) (omega arith),
)

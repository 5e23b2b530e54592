-- ===== src/Base/Multiples.antt =====
-- Multiples of a number: the next one above a number and the last one up to a bound.
use native.Mathlib.Nat.{
  div-add-mod, mod-lt, mul-mod_right, mul-le-mul_left, mul-le-mul_right, le_of_mul-le-mul_left,
  le-div_iff_mul-le, add-mul-mod_self_right,
}
use native.Mathlib.Omega.{arith}
use Prim.Native.Nat.{ℕ, ◌+◌, ◌-◌, ◌*◌, ◌/◌, ◌%◌, ◌≤◌, ◌<◌}
use mathlib.Core.Path.{◌≡◌, ap, ◌∙◌}
use mathlib.Core.Logic.{◌≢◌}
use native.Mathlib.Decide.{dec_le}

-- The next multiple of `o` above a number that is none.
abbrev pub round_up : ℕ → ℕ → ℕ
round_up a o = a + (o - a % o)

round_up-eq : (a o : ℕ) → 0 < o → round_up a o ≡ o * (a / o + 1)
round_up-eq a o h = omega (arith, div-add-mod a o, mod-lt a h)

pub round_up-mod : (a o : ℕ) → 0 < o → round_up a o % o ≡ 0
round_up-mod a o h = ap (λ (t : ℕ). t % o) (round_up-eq a o h) ∙ mul-mod_right o (a / o + 1)

lt_quotient : (a o x : ℕ) → 0 < o → x % o ≡ 0 → a ≤ x → a % o ≢ 0 → a / o + 1 ≤ x / o
lt_quotient a o x h m le ne = elim (dec_le (a / o + 1) (x / o)) [
  | yes p ↦ p
  | no p ↦ absurd (
      omega (
        arith,
        div-add-mod a o,
        div-add-mod x o,
        mul-le-mul_left o (let q : x / o ≤ a / o = omega arith in q),
      ))
]

pub round_up-least : (a o x : ℕ) → 0 < o → x % o ≡ 0 → a ≤ x → a % o ≢ 0 → round_up a o ≤ x
round_up-least a o x h m le ne =
    omega
      (arith, round_up-eq a o h, div-add-mod x o, mul-le-mul_left o (lt_quotient a o x h m le ne))

-- The last multiple of `o` from a multiple `p` on, up to a distance.
pub last-mod : (p k o : ℕ) → p % o ≡ 0 → (p + k / o * o) % o ≡ 0
last-mod p k o h = add-mul-mod_self_right p (k / o) o ∙ h

pub last-greatest :
    (p k o x : ℕ) → 0 < o → p % o ≡ 0 → x % o ≡ 0 → p ≤ x → x ≤ p + k → x ≤ p + k / o * o
last-greatest p k o x h mp mx low high =
    let d = x / o - p / o in
    let ordered : p / o ≤ x / o =
      le_of_mul-le-mul_left
        (let e : o * (p / o) ≤ o * (x / o) = omega (arith, div-add-mod p o, div-add-mod x o) in e)
        h in
    let apart : x / o ≡ p / o + d = omega arith in
    let scaled : x ≡ p + d * o =
      omega (arith, div-add-mod p o, div-add-mod x o, ap (λ (t : ℕ). o * t) apart) in
    let few : d ≤ k / o = (le-div_iff_mul-le h).1 (omega arith) in
    omega (arith, mul-le-mul_right o few)

-- A number less its remainder.
pub round_down-mod : (n o : ℕ) → 0 < o → (n - n % o) % o ≡ 0
round_down-mod n o h =
    let same : n - n % o ≡ o * (n / o) = omega (arith, div-add-mod n o) in
    ap (λ (t : ℕ). t % o) same ∙ mul-mod_right o (n / o)

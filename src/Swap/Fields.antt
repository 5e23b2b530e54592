-- ===== src/Swap/Fields.antt =====
-- Bytes cut out of a word by a mask, and put together.
use native.Mathlib.Nat.{pow-suc}
use udftools.Base.{ℕ, zero, suc, ◌+◌, ◌*◌, ◌/◌, ◌%◌, ◌^◌, ◌<◌, ◌≡◌, ap, ◌∙◌, arith, bit_and}
use udftools.Base.Bits.{bit_and_step, bit_and_mask}

-- A mask of eight ones, shifted.
pub bit_and_byte :
    (s q b r : ℕ)
    → b < 256
    → r < 2 ^ s
    → bit_and ((q * 256 + b) * 2 ^ s + r) (255 * 2 ^ s) ≡ b * 2 ^ s
bit_and_byte zero q b r small low =
    let e : (q * 256 + b) * 2 ^ 0 + r ≡ q * 256 + b = omega arith in
    rw e (bit_and_mask 8 (q * 256 + b) ∙ omega arith)
bit_and_byte (suc s) q b r small low =
    let p = pow-suc 2 s in
    let x = (q * 256 + b) * 2 ^ suc s + r in
    let scaled : (q * 256 + b) * 2 ^ suc s ≡ 2 * ((q * 256 + b) * 2 ^ s) =
      omega (arith, ap (λ (t : ℕ). (q * 256 + b) * t) p) in
    let scaled' : b * 2 ^ suc s ≡ 2 * (b * 2 ^ s) = omega (arith, ap (λ (t : ℕ). b * t) p) in
    let half : x / 2 ≡ (q * 256 + b) * 2 ^ s + r / 2 = omega arith in
    let mask : 255 * 2 ^ suc s / 2 ≡ 255 * 2 ^ s = omega arith in
    let even : 255 * 2 ^ suc s % 2 ≡ 0 = omega arith in
    let high : bit_and (x / 2) (255 * 2 ^ suc s / 2) ≡ b * 2 ^ s =
      ap (bit_and (x / 2)) mask
      ∙ ap (λ (t : ℕ). bit_and t (255 * 2 ^ s)) half
      ∙ bit_and_byte s q b (r / 2) small (omega arith) in
    ground (arith, bit_and_step x (255 * 2 ^ suc s))

-- ===== src/Crc/Serial.antt =====
-- `udf_crc` against the division it stands for, done one bit at a time.
use native.Mathlib.Nat.{pow-suc, one-le-pow}
use udftools.Base.{
  ℕ, zero, suc, ◌+◌, ◌*◌, ◌/◌, ◌%◌, ◌^◌, ◌≤◌, ◌<◌, ◌≡◌, refl, sym, ◌∙◌, ap, arith, bit_xor, ◌==◌,
  List, [], ◌∷◌, ok, get_or, length, All, take, u16, if◌then◌else◌,
}
use udftools.Base.Bits.{
  bit_and_bit, bit_and_mask, bit_xor_fields, bit_xor_step, bit_xor_comm, bit_xor_assoc,
  zero-bit_xor, bit_xor-lt,
}
use udftools.Crc.{crc_table, crc_step, udf_crc, generate, generate_loop, generate_step}
use udftools.Crc.Generate.{crc_table-generate, crc_table-lt}

pub bit_xor-zero : (a : ℕ) → bit_xor a 0 ≡ a
bit_xor-zero a = bit_xor_comm a 0 ∙ zero-bit_xor a

mix_low : (q r y : ℕ) → r < 32768 → y < 32768 → bit_xor (q * 32768 + r) y ≡ q * 32768 + bit_xor r y
mix_low q r y p h = ground (arith, bit_xor_fields 15 q 0 r y p h, bit_xor-zero q)

bit_xor_double : (a b : ℕ) → bit_xor (a * 2) (b * 2) ≡ bit_xor a b * 2
bit_xor_double a b = ground (arith, bit_xor_step (a * 2) (b * 2))

-- Mixing is done on the low 16 bits before or after the cut.
pub u16-bit_xor : (a b : ℕ) → b < 65536 → u16 (bit_xor a b) ≡ bit_xor (u16 a) b
u16-bit_xor a b h = ground (
  arith,
  bit_xor_fields 16 (a / 65536) 0 (a % 65536) b,
  bit_xor-lt 16 (a % 65536) b (omega arith) h,
)

mix_high :
    (a b poly : ℕ) → b < 65536 → u16 (bit_xor (bit_xor a b) poly) ≡ bit_xor (u16 (bit_xor a poly)) b
mix_high a b poly h =
    ap (λ (t : ℕ). t % 65536)
      (bit_xor_assoc a b poly ∙ ap (bit_xor a) (bit_xor_comm b poly) ∙ sym (bit_xor_assoc a poly b))
    ∙ u16-bit_xor (bit_xor a poly) b h

-- The step reads the top bit of 16.
generate_step_top :
    (poly q r : ℕ)
    → q < 2
    → r < 32768
    → generate_step poly (q * 32768 + r)
      ≡ (if q == 0 then r * 2 else u16 (bit_xor ((q * 32768 + r) * 2) poly))
unfolding generate_step
generate_step_top poly q r p fits = ground (arith, bit_and_bit 15 q r)

-- Mixed into the low 15 bits, a number passes through a step and is only shifted.
generate_step_mixed :
    (poly x y : ℕ)
    → x < 65536
    → y < 32768
    → generate_step poly (bit_xor x y) ≡ bit_xor (generate_step poly x) (y * 2)
generate_step_mixed poly x y p fits =
    let q = x / 32768 in
    let r = x % 32768 in
    let split : x ≡ q * 32768 + r = omega arith in
    let mixed : bit_xor (q * 32768 + r) y ≡ q * 32768 + bit_xor r y =
      mix_low q r y (omega arith) fits in
    ground (
      arith,
      split,
      mixed,
      generate_step_top poly q r (omega arith) (omega arith),
      generate_step_top poly q (bit_xor r y) (omega arith) (bit_xor-lt 15 r y (omega arith) fits),
      bit_xor_double r y,
      mix_high (x * 2) (y * 2) poly (omega arith),
      bit_xor_double x y,
    )

generate_step-lt : (poly crc : ℕ) → generate_step poly crc < 65536
unfolding generate_step
generate_step-lt poly crc = omega arith

lt_of_mul_pow : (k a : ℕ) → a * 2 ^ k < 65536 → a < 65536
lt_of_mul_pow k a h = grind (arith, one-le-pow k 2)

-- `k` steps shift a byte mixed into the low end by `k` bits.
generate_loop_mixed :
    (poly k x y : ℕ)
    → k ≤ 8
    → x < 65536
    → y * 2 ^ k < 65536
    → generate_loop poly k (bit_xor x y) ≡ bit_xor (generate_loop poly k x) (y * 2 ^ k)
unfolding generate_loop
generate_loop_mixed poly zero x y p h fits = ground arith
generate_loop_mixed poly (suc k) x y p h fits =
    let shifted : y * 2 * 2 ^ k ≡ y * 2 ^ suc k =
      omega (arith, ap (λ (t : ℕ). y * t) (pow-suc 2 k)) in
    let small : y * 2 < 65536 = lt_of_mul_pow k (y * 2) (omega arith) in
    rw (generate_step_mixed poly x y h (omega arith), ← shifted)
      (generate_loop_mixed poly k (generate_step poly x) (y * 2) (omega arith)
        (generate_step-lt poly x) (omega arith))

-- One byte of the division: it is mixed into the top of the remainder, which is then shifted
-- out bit by bit.
unfoldable pub serial_byte : ℕ → ℕ → ℕ
serial_byte crc byte = generate_loop 0x1021 8 (bit_xor crc (byte * 256))

unfoldable pub serial : ℕ → List ℕ → ℕ
serial crc [] = crc
serial crc (byte ∷ bytes) = serial (serial_byte crc byte) bytes

-- A byte mixed into the top of a remainder leaves its low byte, mixed in below the top one.
mixed_top :
    (top low byte : ℕ)
    → low < 256
    → bit_xor (top * 256 + low) (byte * 256) ≡ bit_xor (bit_xor top byte * 256) low
mixed_top top low byte h = ground (
  arith,
  bit_xor_fields 8 top byte low 0,
  bit_xor_fields 8 (bit_xor top byte) 0 0 low,
  bit_xor-zero low,
  bit_xor-zero (bit_xor top byte),
  zero-bit_xor low,
)

pub crc_step-serial_byte :
    (crc byte : ℕ) → crc < 65536 → byte < 256 → crc_step crc byte ≡ serial_byte crc byte
unfolding crc_step serial_byte generate
crc_step-serial_byte crc byte p h =
    let t = bit_xor (crc / 256) byte in
    let t_small : t < 256 = bit_xor-lt 8 (crc / 256) byte (omega arith) h in
    let entry = get_or crc_table t 0 in
    let table : entry ≡ generate_loop 0x1021 8 (t * 256) = crc_table-generate t t_small in
    ground (
      arith,
      bit_and_mask 8 t,
      table,
      bit_xor_comm entry (crc * 256),
      bit_xor_comm entry (crc % 256 * 256),
      u16-bit_xor (crc * 256) entry (crc_table-lt t t_small),
      mixed_top (crc / 256) (crc % 256) byte,
      generate_loop_mixed 0x1021 8 (t * 256) (crc % 256),
    )

pub crc_step-lt : (crc byte : ℕ) → crc_step crc byte < 65536
unfolding crc_step
crc_step-lt crc byte = omega arith

-- On a block of at least `size` bytes `udf_crc` returns, and its result is the remainder of the
-- division of the first `size` bytes by x^16 + x^12 + x^5 + 1 (0x1021), done bit by bit from the given
-- remainder.
pub udf_crc-serial :
    (bytes : List ℕ) (size crc : ℕ)
    → size ≤ length bytes
    → All (λ b. b < 256) bytes
    → crc < 65536
    → udf_crc bytes size crc ≡ ok (serial crc (take size bytes))
unfolding udf_crc serial
udf_crc-serial bytes zero crc fits small h = refl
udf_crc-serial [] (suc size) crc fits small h = absurd (omega arith)
udf_crc-serial (byte ∷ bytes) (suc size) crc fits small h =
    rw (crc_step-serial_byte crc byte h small.0) (
      udf_crc-serial bytes size (serial_byte crc byte) (omega arith) small.1
        (rw (← crc_step-serial_byte crc byte h small.0) (crc_step-lt crc byte)))

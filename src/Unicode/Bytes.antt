-- ===== src/Unicode/Bytes.antt =====
-- The bytes of UTF-8 as arithmetic, and what each does to the loop of `encode_utf8`.
use udftools.Base.{
  ℕ, suc, ◌+◌, ◌*◌, ◌%◌, ◌^◌, ◌<◌, ◌≡◌, refl, Bool, true, ◌&&◌, arith, ◌==◌, bit_and, bit_or, ◌<<<◌,
  u8, u32, holds_below, holds_below-at,
}
use udftools.Base.Bits.{bit_and_mask, bit_or_fields}
use udftools.Unicode.{more, char, take_byte}

-- A byte behind the first one.
pub next_byte : (x : ℕ) → u8 (bit_or 0x80 (bit_and x 0x3f)) ≡ 0x80 + x % 64
next_byte x =
    let low : bit_and x 0x3f ≡ x % 64 = bit_and_mask 6 x in
    let all : bit_or 0x80 (x % 64) ≡ 0x80 + x % 64 = bit_or_fields 2 6 (x % 64) (omega arith) in
    rw low (rw all (omega arith))

pub first_of_two : (x : ℕ) → x < 32 → u8 (bit_or 0xc0 x) ≡ 0xc0 + x
first_of_two x h =
    let all : bit_or 0xc0 x ≡ 0xc0 + x = bit_or_fields 6 5 x h in rw all (omega arith)

pub first_of_three : (x : ℕ) → x < 16 → u8 (bit_or 0xe0 x) ≡ 0xe0 + x
first_of_three x h =
    let all : bit_or 0xe0 x ≡ 0xe0 + x = bit_or_fields 14 4 x h in rw all (omega arith)

pub first_of_four : (x : ℕ) → x < 8 → u8 (bit_or 0xf0 x) ≡ 0xf0 + x
first_of_four x h =
    let all : bit_or 0xf0 x ≡ 0xf0 + x = bit_or_fields 30 3 x h in rw all (omega arith)

-- The tests of the loop, at all bytes of a kind.
abbrev ascii_test : ℕ → Bool
ascii_test x = bit_and x 0x80 == 0

abbrev next_test : ℕ → Bool
next_test x = (bit_and (0x80 + x) 0xC0 == 0x80) && (bit_and (0x80 + x) 0x3F == x)

abbrev two_test : ℕ → Bool
two_test x =
    (bit_and (0xc0 + x) 0x80 == 0x80)
    && (bit_and (0xc0 + x) 0xE0 == 0xC0)
    && (bit_and (0xc0 + x) 0x1f == x)

abbrev three_test : ℕ → Bool
three_test x =
    (bit_and (0xe0 + x) 0x80 == 0x80)
    && (bit_and (0xe0 + x) 0xE0 == 0xE0)
    && (bit_and (0xe0 + x) 0xF0 == 0xE0)
    && (bit_and (0xe0 + x) 0x0F == x)

abbrev four_test : ℕ → Bool
four_test x =
    (bit_and (0xf0 + x) 0x80 == 0x80)
    && (bit_and (0xf0 + x) 0xE0 == 0xE0)
    && (bit_and (0xf0 + x) 0xF0 == 0xF0)
    && (bit_and (0xf0 + x) 0xF8 == 0xF0)
    && (bit_and (0xf0 + x) 0x07 == x)

all_tests :
    (holds_below ascii_test 128 ≡ true)
    × (holds_below next_test 64 ≡ true)
    × (holds_below two_test 32 ≡ true)
    × (holds_below three_test 16 ≡ true)
    × (holds_below four_test 8 ≡ true)
unfolding holds_below
all_tests = (refl, refl, refl, refl, refl)

pub take_ascii : (u x : ℕ) → x < 128 → take_byte 0 u x ≡ char x
unfolding take_byte
take_ascii u x h = let test = holds_below-at ascii_test 128 x h all_tests.0 in ground arith

pub take_two : (u x : ℕ) → x < 32 → take_byte 0 u (0xc0 + x) ≡ more 1 x
unfolding take_byte
take_two u x h = let test = holds_below-at two_test 32 x h all_tests.2 in ground arith

pub take_three : (u x : ℕ) → x < 16 → take_byte 0 u (0xe0 + x) ≡ more 2 x
unfolding take_byte
take_three u x h = let test = holds_below-at three_test 16 x h all_tests.3 in ground arith

pub take_four : (u x : ℕ) → x < 8 → take_byte 0 u (0xf0 + x) ≡ more 3 x
unfolding take_byte
take_four u x h = let test = holds_below-at four_test 8 x h all_tests.4 in ground arith

-- The bits that a byte behind the first one adds.
add_bits :
    (u x : ℕ) → u < 2 ^ 26 → x < 64 → bit_or (u32 (u <<< 6)) (bit_and (0x80 + x) 0x3F) ≡ u * 64 + x
add_bits u x small h =
    let test = holds_below-at next_test 64 x h all_tests.1 in
    let low : bit_and (0x80 + x) 0x3F ≡ x = ground arith in
    let same : u32 (u <<< 6) ≡ u * 2 ^ 6 = omega arith in rw low (rw same (bit_or_fields u 6 x h))

pub take_last : (u x : ℕ) → u < 2 ^ 26 → x < 64 → take_byte 1 u (0x80 + x) ≡ char (u * 64 + x)
unfolding take_byte
take_last u x small h =
    let test = holds_below-at next_test 64 x h all_tests.1 in
    let sum = add_bits u x small h in ground arith

pub take_next :
    (k u x : ℕ)
    → u < 2 ^ 26
    → x < 64
    → take_byte (suc (suc k)) u (0x80 + x) ≡ more (suc k) (u * 64 + x)
unfolding take_byte
take_next k u x small h =
    let test = holds_below-at next_test 64 x h all_tests.1 in
    let sum = add_bits u x small h in ground arith

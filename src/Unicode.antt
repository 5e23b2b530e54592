-- ===== src/Unicode.antt =====
-- libudffs/unicode.c: `decode_utf8` and `encode_utf8`, the conversions between the compressed
-- Unicode of a filesystem (a byte 8 or 16, and then units of one or of two bytes) and UTF-8.
--
-- A buffer that is read is a list of bytes. A buffer that is written is the list of the bytes
-- written, without the zero that ends a C string; `none` is the result (size_t)-1. A write of
-- `encode_utf8` behind its buffer ends the pass as `overrun`.
pub mod Decode
pub mod Formed
pub mod Encode
pub mod Bytes
pub mod Chars
pub mod Units
pub mod RoundTrip
pub mod Success
mod Tests
use udftools.Base.{
  ℕ, zero, suc, ◌+◌, ◌-◌, ◌*◌, ◌%◌, ◌^◌, Bool, true, false, not, ◌&&◌, ◌||◌, Option, none, some,
  List, [], ◌∷◌, ◌++◌, Run, ok, exit_failure, fault, out_of_fuel, ◌>>=◌, ltb, leb, ◌==◌,
  if◌then◌else◌, bit_and, bit_or, ◌<<<◌, ◌>>>◌, length, take, u8, u32,
}

-- The code unit at the start of the input, and the input behind it.
unfoldable pub take_unit : Bool → ℕ → List ℕ → Run (ℕ × List ℕ)
take_unit false b r = ok (b, r)
take_unit true b [] = fault
take_unit true b (low ∷ r) = ok (bit_or (b <<< 8) low, r)

-- The character that begins with the unit `c`: a high surrogate takes a low one from the input.
unfoldable pub take_char : ℕ → List ℕ → ℕ × List ℕ
take_char c [] = (c, [])
take_char c (b ∷ []) = (c, b ∷ [])
take_char c (b ∷ low ∷ r) =
    let next = bit_or (b <<< 8) low in
    if leb 0xD800 c && leb c 0xDBFF && leb 0xDC00 next && leb next 0xDFFF
    then (0x10000 + ((c - 0xD800) <<< 10) + (next - 0xDC00), r)
    else (c, b ∷ low ∷ r)

-- What is written for a character. Only a pair of surrogates gives one of 0x10000 or more.
unfoldable pub utf8_of : ℕ → List ℕ
utf8_of c =
    if ltb c 0x80
    then u8 c ∷ []
    else if ltb c 0x800
    then u8 (bit_or 0xc0 (c >>> 6)) ∷ u8 (bit_or 0x80 (bit_and c 0x3f)) ∷ []
    else if ltb c 0x10000
    then u8 (bit_or 0xe0 (c >>> 12))
      ∷ u8 (bit_or 0x80 (bit_and (c >>> 6) 0x3f))
      ∷ u8 (bit_or 0x80 (bit_and c 0x3f))
      ∷ []
    else u8 (bit_or 0xf0 (c >>> 18))
      ∷ u8 (bit_or 0x80 (bit_and (c >>> 12) 0x3f))
      ∷ u8 (bit_or 0x80 (bit_and (c >>> 6) 0x3f))
      ∷ u8 (bit_or 0x80 (bit_and c 0x3f))
      ∷ []

-- Bytes in front of what is written later.
abbrev pub written : List ℕ → Run (Option (List ℕ)) → Run (Option (List ℕ))
written bytes (ok (some rest)) = ok (some (bytes ++ rest))
written bytes (ok none) = ok none
written bytes exit_failure = exit_failure
written bytes fault = fault
written bytes out_of_fuel = out_of_fuel

-- The loop of `decode_utf8`, on the input from `i` on, with `len` bytes written. A unit 0 ends it.
unfoldable pub decode_loop : ℕ → Bool → ℕ → ℕ → List ℕ → Run (Option (List ℕ))
unfolding take_unit take_char utf8_of
decode_loop zero wide outlen len input = out_of_fuel
decode_loop (suc fuel) wide outlen len [] = ok (some [])
decode_loop (suc fuel) wide outlen len (b ∷ r) = do
  unit ← take_unit wide b r
  (let char = take_char unit.0 unit.1 in
      let bytes = utf8_of char.0 in
      let next = decode_loop fuel wide outlen (len + length bytes) char.1 in
      if unit.0 == 0
      then ok (some [])
      else if leb outlen (len + length bytes)
      then ok none
      else written bytes next)

-- The buffer must have `inlen` bytes, and `in[0]` is read in any case. The subtraction is one of 64
-- bits. The fuel is a round for each byte and one for the end.
unfoldable pub decode_utf8 : List ℕ → ℕ → ℕ → Run (Option (List ℕ))
unfolding decode_loop
decode_utf8 [] inlen outlen = if outlen == 0 then ok none else fault
decode_utf8 (mark ∷ input) inlen outlen =
    if outlen == 0
    then ok none
    else if not (mark == 8) && not (mark == 16)
    then ok none
    else if mark == 16 && not ((inlen + (2 ^ 64 - 1)) % 2 ^ 64 % 2 == 0)
    then ok none
    else if ltb (length input) (inlen - 1)
    then fault
    else decode_loop (suc inlen) (mark == 16) outlen 0 (take (inlen - 1) input)

-- What a byte of UTF-8 does to the counter and the character of the loop: more bytes must follow, or
-- a character is complete, or the sequence is invalid.
pub data Step : Type 0 where
  more : ℕ → ℕ → Step
  char : ℕ → Step
  bad : Step

pub take_byte : ℕ → ℕ → ℕ → Step
take_byte cnt u c =
    let next = bit_or (u32 (u <<< 6)) (bit_and c 0x3F) in
    if not (cnt == 0)
    then (if not (bit_and c 0xC0 == 0x80)
        then bad
        else if cnt - 1 == 0
        then char next
        else more (cnt - 1) next)
    else if bit_and c 0x80 == 0
    then char c
    else if bit_and c 0xE0 == 0xC0
    then more 1 (bit_and c 0x1f)
    else if bit_and c 0xF0 == 0xE0
    then more 2 (bit_and c 0x0F)
    else if bit_and c 0xF8 == 0xF0
    then more 3 (bit_and c 0x07)
    else bad

-- How a pass over the input ends: with the bytes written, by `goto try_again` with another limit
-- `max_val`, with (size_t)-1, by `goto error_invalid`, or by a write behind the buffer.
pub data Pass : Type 0 where
  done : List ℕ → Pass
  again : ℕ → Pass
  failed : Pass
  invalid : Pass
  overrun : Pass

-- Bytes written, and then the rest of the pass.
abbrev pub behind : List ℕ → Pass → Pass
behind bytes (done rest) = done (bytes ++ rest)
behind bytes (again limit) = again limit
behind bytes failed = failed
behind bytes invalid = invalid
behind bytes overrun = overrun

abbrev pub then_pass : Pass → (List ℕ → Pass) → Pass
then_pass (done bytes) next = behind bytes (next bytes)
then_pass (again limit) next = again limit
then_pass failed next = failed
then_pass invalid next = invalid
then_pass overrun next = overrun

-- The pair of surrogates of a character behind 0xFFFF.
abbrev pub high_surrogate : ℕ → ℕ
high_surrogate u = ((u - 0x10000) >>> 10) + 0xD800

abbrev pub low_surrogate : ℕ → ℕ
low_surrogate u = bit_and (u - 0x10000) 0x3FF + 0xDC00

-- The bytes of a pair but the last.
abbrev pub pair_bytes : ℕ → List ℕ
pair_bytes u =
    bit_and (high_surrogate u >>> 8) 0xFF
    ∷ bit_and (high_surrogate u) 0xFF
    ∷ u8 (low_surrogate u >>> 8)
    ∷ []

-- The last byte of a character, behind `first`, which is written before the test.
pub put_low : ℕ → ℕ → List ℕ → ℕ → Pass
put_low outlen len first u =
    if ltb outlen (len + length first)
    then overrun
    else if ltb outlen (len + length first + 1)
    then failed
    else done (first ++ bit_and u 0xFF ∷ [])

-- What is written for a character, with `len` bytes in front.
pub put_char : ℕ → ℕ → ℕ → ℕ → Pass
unfolding put_low
put_char outlen limit len u =
    if ltb limit u
    then (if limit == 0x7F then again 0x10FFFF else failed)
    else if limit == 0x10FFFF
    then (if ltb outlen (len + 2)
        then again 0xFF
        else if ltb 0xFFFF u
        then (if ltb outlen (len + 4)
            then failed
            else put_low outlen len (pair_bytes u) (low_surrogate u))
        else put_low outlen len (u8 (u >>> 8) ∷ []) u)
    else put_low outlen len [] u

-- The loop over the input, with its counter and character.
pub encode_pass : ℕ → ℕ → ℕ → ℕ → ℕ → List ℕ → Pass
unfolding take_byte put_char
encode_pass outlen limit cnt u len [] = if cnt == 0 then done [] else invalid
encode_pass outlen limit cnt u len (c ∷ r) = elim (take_byte cnt u c) [
  | more cnt' v ↦ encode_pass outlen limit cnt' v len r
  | char v ↦
      then_pass (put_char outlen limit len v)
        (λ bytes. encode_pass outlen limit 0 v (len + length bytes) r)
  | bad ↦ invalid
]

-- `out[0]`
pub mark_of : ℕ → ℕ
mark_of limit = if limit == 0x10FFFF then 0x10 else 8

pub encode_from : ℕ → ℕ → ℕ → List ℕ → Run (Option (List ℕ))
unfolding encode_pass mark_of
encode_from zero outlen limit input = out_of_fuel
encode_from (suc fuel) outlen limit input = elim (encode_pass outlen limit 0 0 1 input) [
  | done bytes ↦ ok (some (mark_of limit ∷ bytes))
  | again limit' ↦ encode_from fuel outlen limit' input
  | failed ↦ ok none
  | invalid ↦ exit_failure
  | overrun ↦ fault
]

-- The input is a C string without its zero. `out[0]` is written in any case. There are three passes at
-- most.
pub encode_utf8 : List ℕ → ℕ → Run (Option (List ℕ))
unfolding encode_from
encode_utf8 input outlen = if outlen == 0 then fault else encode_from 3 outlen 0x7F input

-- ===== src/Unicode/Tests.antt =====
-- Runs of the conversions, and the theorems about them at concrete strings.
use udftools.Base.{
  ◌≡◌, refl, arith, none, some, List, [], ◌∷◌, ok, exit_failure, fault, Returns, All, length, ◌<◌,
  ℕ, inl, inr,
}
use udftools.Unicode.{
  take_unit, take_char, utf8_of, decode_loop, decode_utf8, take_byte, put_low, put_char,
  encode_pass, mark_of, encode_from, encode_utf8,
}
use udftools.Unicode.Decode.{Room, decode_utf8-Room}
use udftools.Unicode.Units.{Scalar}
use udftools.Unicode.Success.{ReadBack, encode_utf8-ReadBack}
use udftools.Unicode.RoundTrip.{text_of, Back, encode_utf8-Back}
use udftools.Unicode.Encode.{Encodes, encode_utf8-Encodes}

-- A, an e with an accent, the sign of the euro and a character behind 0xFFFF.
abbrev text : List ℕ
text = 0x41 ∷ 0xC3 ∷ 0xA9 ∷ 0xE2 ∷ 0x82 ∷ 0xAC ∷ 0xF0 ∷ 0x9F ∷ 0x98 ∷ 0x80 ∷ []

abbrev units : List ℕ
units = 0x00 ∷ 0x41 ∷ 0x00 ∷ 0xE9 ∷ 0x20 ∷ 0xAC ∷ 0xD8 ∷ 0x3D ∷ 0xDE ∷ 0x00 ∷ []

encode_runs :
    (encode_utf8 text 128 ≡ ok (some (16 ∷ units)))
    × (encode_utf8 (0x41 ∷ 0xC3 ∷ 0xA9 ∷ []) 3 ≡ ok (some (8 ∷ 0x41 ∷ 0xE9 ∷ [])))
    × (encode_utf8 text 8 ≡ ok none)
    × (encode_utf8 (0x41 ∷ 0xC3 ∷ []) 128 ≡ exit_failure)
unfolding encode_utf8 encode_from encode_pass take_byte put_char put_low mark_of
encode_runs = (refl, refl, refl, refl)

decode_runs :
    (decode_utf8 (16 ∷ units) 11 128 ≡ ok (some text))
    × (decode_utf8 (16 ∷ units) 10 128 ≡ ok none)
    × (decode_utf8 (8 ∷ 0x41 ∷ 0 ∷ 0x42 ∷ []) 4 128 ≡ ok (some (0x41 ∷ [])))
    × (decode_utf8 (8 ∷ 0x41 ∷ 0x42 ∷ []) 3 2 ≡ ok none)
    × (decode_utf8 (8 ∷ []) 3 128 ≡ fault)
unfolding decode_utf8 decode_loop take_unit take_char utf8_of
decode_runs = (refl, refl, refl, refl, refl)

decode_utf8-Room_example : Returns (decode_utf8 (16 ∷ units) 11 128) (Room 128 0)
decode_utf8-Room_example =
    decode_utf8-Room 16 units 11 128 (omega arith) (omega arith) (omega arith)

encode_utf8-Encodes_example : Encodes 128 text (encode_utf8 text 128)
encode_utf8-Encodes_example = encode_utf8-Encodes text 128 (omega arith)

-- The characters of the text.
abbrev chars : List ℕ
chars = 0x41 ∷ 0xE9 ∷ 0x20AC ∷ 0x1F600 ∷ []

chars-Scalar : All Scalar chars
chars-Scalar = (
  (omega arith, omega arith, inl (omega arith)),
  (
    (omega arith, omega arith, inl (omega arith)),
    (
      (omega arith, omega arith, inl (omega arith)),
      ((omega arith, omega arith, inr (omega arith)), tt),
    ),
  ),
)

chars_length : length (text_of chars) < 64
unfolding text_of utf8_of
chars_length = omega arith

encode_utf8-Back_example : Returns (encode_utf8 (text_of chars) 128) (Back 64 chars)
encode_utf8-Back_example =
    encode_utf8-Back chars 128 64 chars-Scalar (omega arith) (omega arith) chars_length

encode_utf8-ReadBack_example : Returns (encode_utf8 (text_of chars) 128) (ReadBack 64 chars)
encode_utf8-ReadBack_example =
    encode_utf8-ReadBack chars 128 64 chars-Scalar (omega arith) (omega arith) chars_length

-- ===== src/Crc/Tests.antt =====
-- Runs of crc.c, its own test among them, and the theorems about it at concrete blocks.
use udftools.Base.{
  ℕ, suc, ◌+◌, ◌≡◌, ◌≢◌, refl, arith, List, [], ◌∷◌, ◌++◌, ok, fault, get_or, length, take,
}
use udftools.Crc.{crc_table, crc_step, udf_crc, generate}
use udftools.Crc.Generate.{crc_table-generate}
use udftools.Crc.Serial.{serial, udf_crc-serial}
use udftools.Crc.Detect.{udf_crc-detects_byte}

-- The block of `main` under TEST, with the value that it prints as correct.
abbrev test_bytes : List ℕ
test_bytes = 0x70 ∷ 0x6A ∷ 0x77 ∷ []

udf_crc_test : udf_crc test_bytes 3 0 ≡ ok 0x3299
unfolding udf_crc crc_step crc_table
udf_crc_test = refl

udf_crc_short : udf_crc test_bytes 4 0 ≡ fault
unfolding udf_crc crc_step crc_table
udf_crc_short = refl

crc_table-generate_example : get_or crc_table 200 0 ≡ generate 0x1021 200
crc_table-generate_example = crc_table-generate 200 (omega arith)

udf_crc-serial_example : udf_crc test_bytes 2 7 ≡ ok (serial 7 (take 2 test_bytes))
udf_crc-serial_example = udf_crc-serial test_bytes 2 7 (omega arith) (omega arith) (omega arith)

abbrev head_bytes : List ℕ
head_bytes = 1 ∷ 2 ∷ []

abbrev tail_bytes : List ℕ
tail_bytes = 255 ∷ []

udf_crc-detects_byte_example :
    udf_crc (head_bytes ++ 0x20 ∷ tail_bytes) (length head_bytes + suc (length tail_bytes)) 0
    ≢ udf_crc (head_bytes ++ 0x21 ∷ tail_bytes) (length head_bytes + suc (length tail_bytes)) 0
udf_crc-detects_byte_example =
    udf_crc-detects_byte head_bytes tail_bytes 0x20 0x21 0 (omega arith) (omega arith) (omega arith)
      (omega arith) (omega arith) (omega arith)

-- ===== src/Bitmap/Tests.antt =====
-- Runs of the searches and of the allocation in a space bitmap, and the theorems about them at
-- concrete bitmaps.
use udftools.Base.{
  ℕ, ◌+◌, ◌-◌, ◌*◌, ◌/◌, ◌≡◌, refl, arith, List, [], ◌∷◌, length, All, leb, ltb, ◌&&◌,
  if◌then◌else◌, get_or, ok, fault, out_of_fuel, inr, Returns,
}
use udftools.Bitmap.{
  udf_find_next_one_bit, udf_find_next_zero_bit, one_inside, one_words, one_last, one_first,
  one_middle, zero_inside, zero_words, zero_last, zero_first, zero_middle, word, part_word, ffz,
  ffz_from, clear_bits,
}
use udftools.Bitmap.Digits.{bits, bits_of, first_zero}
use udftools.Bitmap.Masks.{Byte}
use udftools.Bitmap.Search.{next_one, next_zero}
use udftools.Bitmap.FindOne.{udf_find_next_one_bit-next_one}
use udftools.Bitmap.FindZero.{udf_find_next_zero_bit-next_zero}
use udftools.Bitmap.Clear.{clear_bits-range}
use udftools.Bitmap.Alloc.{SpaceBitmapDesc, find_blocks, udf_alloc_bitmap_blocks, first_bitmap}
use udftools.Bitmap.Free.{Holds, Free}
use udftools.Bitmap.One.{TakesOne, udf_alloc_bitmap_blocks-TakesOne}
use udftools.Bitmap.Runs.{find_blocks-Stuck, find_blocks-Overlap}
use udftools.Bitmap.First.{first_bitmap-bits}

-- Blocks 0, 3, 4 and 38 are free.
abbrev bytes : List ℕ
bytes = 0x19 ∷ 0 ∷ 0 ∷ 0 ∷ 0x40 ∷ 0 ∷ 0 ∷ 0 ∷ []

abbrev sbd : SpaceBitmapDesc
sbd = record { num_of_bits = 40; bitmap = bytes }

search_runs :
    (udf_find_next_one_bit bytes 40 1 ≡ ok 3)
    × (udf_find_next_one_bit bytes 40 32 ≡ ok 38)
    × (udf_find_next_one_bit bytes 40 39 ≡ ok 40)
    × (udf_find_next_zero_bit bytes 40 0 ≡ ok 1)
    × (udf_find_next_zero_bit bytes 40 3 ≡ ok 32)
unfolding udf_find_next_one_bit one_inside one_words one_last one_first one_middle
    udf_find_next_zero_bit zero_inside zero_words zero_last zero_first zero_middle word part_word
    ffz ffz_from
search_runs = (refl, refl, refl, refl, refl)

-- An offset in the last word reads all of its bytes.
short_run : udf_find_next_one_bit (0 ∷ []) 8 1 ≡ fault
unfolding udf_find_next_one_bit one_inside word
short_run = refl

bytes-Byte : All Byte bytes
bytes-Byte = omega arith

sbd-Holds : Holds sbd
unfolding Holds
sbd-Holds = (bytes-Byte, omega arith)

zero_is_Free : Free sbd 0
unfolding Free bits_of bits
zero_is_Free = omega arith

three_is_Free : Free sbd 3
unfolding Free bits_of bits
three_is_Free = omega arith

udf_find_next_one_bit-next_one_example :
    udf_find_next_one_bit bytes 40 1 ≡ ok (next_one (bits_of bytes) 40 1)
udf_find_next_one_bit-next_one_example =
    udf_find_next_one_bit-next_one bytes 40 1 bytes-Byte (omega arith) (omega arith)
      (inr (omega arith))

udf_find_next_zero_bit-next_zero_example :
    udf_find_next_zero_bit bytes 40 3 ≡ ok (next_zero (bits_of bytes) 40 ((3 + 31) / 32 * 32))
udf_find_next_zero_bit-next_zero_example =
    udf_find_next_zero_bit-next_zero bytes 40 3 bytes-Byte (omega arith) (omega arith)
      (inr (omega arith))

clear_bits-range_example : Returns (clear_bits bytes 3 2) (λ m.
    (length m ≡ length bytes)
    × All Byte m
    × ((j : ℕ)
        → get_or (bits_of m) j 0
          ≡ (if leb 3 j && ltb j (3 + 2) then 0 else get_or (bits_of bytes) j 0)))
clear_bits-range_example = clear_bits-range bytes 3 2 bytes-Byte (omega arith)

udf_alloc_bitmap_blocks-TakesOne_example : TakesOne sbd 4 1 (udf_alloc_bitmap_blocks 41 sbd 4 1 1)
udf_alloc_bitmap_blocks-TakesOne_example =
    udf_alloc_bitmap_blocks-TakesOne sbd sbd-Holds 4 1 41 (omega arith) (omega arith) (omega arith)
      (omega arith)

-- Block 0 is free and block 1 is not.
find_blocks-Stuck_example : find_blocks 1000 sbd 1 0 2 ≡ out_of_fuel
find_blocks-Stuck_example =
    find_blocks-Stuck sbd 1 0 2 (omega arith) sbd-Holds (omega arith) (omega arith) (omega arith)
      (omega arith) zero_is_Free 1000 (unfold next_zero first_zero bits_of bits in omega arith)

-- Blocks 3 and 4 are free and block 5 is not.
find_blocks-Overlap_example : find_blocks 1 sbd 1 3 3 ≡ ok 3
find_blocks-Overlap_example =
    find_blocks-Overlap sbd 1 3 3 (omega arith) sbd-Holds (omega arith) (omega arith) (omega arith)
      (omega arith) three_is_Free 1 (omega arith) (omega arith) (omega arith)

first_bitmap-bits_example : Returns (first_bitmap 20 512 2) (λ sbd.
    (sbd.num_of_bits ≡ 20)
    × All Byte sbd.bitmap
    × (length sbd.bitmap ≡ (20 + 7) / 8)
    × ((j : ℕ)
        → get_or (bits_of sbd.bitmap) j 0 ≡ (
            if leb 2 j && ltb j (2 + (24 + (20 + 7) / 8 + 512 - 1) / 512)
            then 0
            else if ltb j 20
            then 1
            else 0)))
first_bitmap-bits_example =
    first_bitmap-bits 20 512 2 (omega arith) (omega arith) (omega arith) (omega arith)

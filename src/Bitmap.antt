-- ===== src/Bitmap.antt =====
-- The space bitmap of mkudffs/file.c and mkudffs/file.h: one bit for each block of the partition,
-- set where the block is free; the searches in it, and the allocation of blocks.
--
-- `unsigned long` has 64 bits here, and the words of the searches 32, so a mask made from `~0UL` has
-- 64 bits before it is cut to a word.
pub mod Digits
pub mod Masks
pub mod Search
pub mod Ones
pub mod FindOne
pub mod Zeros
pub mod FindZero
pub mod Clear
pub mod Alloc
pub mod Find
pub mod Free
pub mod One
pub mod Runs
pub mod First
mod Tests
use udftools.Base.{
  ℕ, zero, suc, ◌+◌, ◌-◌, ◌*◌, ◌/◌, ◌%◌, ◌^◌, bit_and, bit_or, List, [], ◌∷◌, Run, ok, fault,
  exit_failure, out_of_fuel, ◌>>=◌, Bool, not, ltb, leb, ◌==◌, if◌then◌else◌, length, take, drop,
  get_elem?, deref, number_of, u32, add32, sub32, ◌<<<◌, ◌>>>◌,
}

-- `~0UL`
abbrev pub all_ones : ℕ
all_ones = 2 ^ 64 - 1

-- The loop of `ffz`, on fuel: a word of 64 bits is zero after 64 rounds.
unfoldable pub ffz_from : ℕ → ℕ → ℕ → Run ℕ
ffz_from zero word result = out_of_fuel
ffz_from (suc fuel) word result =
    let rest = ffz_from fuel (word >>> 1) (result + 1) in
    if bit_and word 1 == 0 then ok result else rest

unfoldable pub ffz : ℕ → Run ℕ
unfolding ffz_from
ffz word = ffz_from 65 word 0

-- `memcpy(&tmp, p, (size+7)/8)`, into a word of zeros.
unfoldable pub part_word : List ℕ → ℕ → Run ℕ
part_word p size =
    if leb ((size + 7) / 8) (length p) then ok (number_of (take ((size + 7) / 8) p)) else fault

-- The label `found_middle`; `~tmp` has 32 bits.
unfoldable pub one_middle : ℕ → ℕ → Run ℕ
unfolding ffz
one_middle result tmp = ffz (2 ^ 32 - 1 - tmp) >>= λ k. ok (result + k)

-- The label `found_first`.
unfoldable pub one_first : ℕ → ℕ → ℕ → Run ℕ
unfolding one_middle
one_first result size tmp =
    one_middle result (u32 (bit_or (u32 (bit_and tmp (all_ones >>> (32 - size)))) (1 <<< size)))

-- What follows the loop over whole words.
unfoldable pub one_last : List ℕ → ℕ → ℕ → Run ℕ
unfolding one_first part_word
one_last p size result =
    if size == 0 then ok result else (part_word p size >>= one_first result size)

-- The loop over whole words, from a pointer on. A word must have its four bytes.
unfoldable pub one_words : List ℕ → ℕ → ℕ → Run ℕ
unfolding one_last one_middle
one_words (a ∷ b ∷ c ∷ d ∷ p) size result =
    let tmp = number_of (a ∷ b ∷ c ∷ d ∷ []) in
    let rest = one_words p (size - 32) (u32 (result + 32)) in
    if ltb size 32
    then one_last (a ∷ b ∷ c ∷ d ∷ p) size result
    else if tmp == 0
    then rest
    else one_middle result tmp
one_words p size result = if ltb size 32 then one_last p size result else fault

-- `leBPL_to_cpup(p)`
unfoldable pub word : List ℕ → Run ℕ
word (a ∷ b ∷ c ∷ d ∷ p) = ok (number_of (a ∷ b ∷ c ∷ d ∷ []))
word p = fault

-- The word that an offset inside it starts at.
unfoldable pub one_inside : List ℕ → ℕ → ℕ → ℕ → Run ℕ
unfolding one_words word
one_inside p size offset result = word p >>= λ w.
    let tmp = u32 (bit_and w ((all_ones <<< offset) % 2 ^ 64)) in
    if ltb size 32
    then one_first result size tmp
    else if not (tmp == 0)
    then one_middle result tmp
    else one_words (drop 4 p) (size - 32) (u32 (result + 32))

unfoldable pub udf_find_next_one_bit : List ℕ → ℕ → ℕ → Run ℕ
unfolding one_inside
udf_find_next_one_bit addr size offset =
    let p = drop (4 * (offset / 32)) addr in
    let result = u32 (offset / 32 * 32) in
    if leb size offset
    then ok size
    else if offset % 32 == 0
    then one_words p (size - result) result
    else one_inside p (size - result) (offset % 32) result

unfoldable pub zero_middle : ℕ → ℕ → Run ℕ
unfolding ffz
zero_middle result tmp = ffz tmp >>= λ k. ok (result + k)

unfoldable pub zero_first : ℕ → ℕ → ℕ → Run ℕ
unfolding zero_middle
zero_first result size tmp =
    let filled = u32 (bit_or tmp ((all_ones <<< size) % 2 ^ 64)) in
    if filled == 2 ^ 32 - 1 then ok (result + size) else zero_middle result filled

unfoldable pub zero_last : List ℕ → ℕ → ℕ → Run ℕ
unfolding zero_first part_word
zero_last p size result =
    if size == 0 then ok result else (part_word p size >>= zero_first result size)

unfoldable pub zero_words : List ℕ → ℕ → ℕ → Run ℕ
unfolding zero_last zero_middle
zero_words (a ∷ b ∷ c ∷ d ∷ p) size result =
    let tmp = number_of (a ∷ b ∷ c ∷ d ∷ []) in
    let rest = zero_words p (size - 32) (u32 (result + 32)) in
    if ltb size 32
    then zero_last (a ∷ b ∷ c ∷ d ∷ p) size result
    else if tmp == 2 ^ 32 - 1
    then rest
    else zero_middle result tmp
zero_words p size result = if ltb size 32 then zero_last p size result else fault

unfoldable pub zero_inside : List ℕ → ℕ → ℕ → ℕ → Run ℕ
unfolding zero_words word
zero_inside p size offset result = word p >>= λ w.
    let tmp = u32 (bit_or w (all_ones >>> (32 - offset))) in
    if ltb size 32
    then zero_first result size tmp
    else if not (tmp == 2 ^ 32 - 1)
    then zero_middle result tmp
    else zero_words (drop 4 p) (size - 32) (u32 (result + 32))

unfoldable pub udf_find_next_zero_bit : List ℕ → ℕ → ℕ → Run ℕ
unfolding zero_inside
udf_find_next_zero_bit addr size offset =
    let p = drop (4 * (offset / 32)) addr in
    let result = u32 (offset / 32 * 32) in
    if leb size offset
    then ok size
    else if offset % 32 == 0
    then zero_words p (size - result) result
    else zero_inside p (size - result) (offset % 32) result

-- One bit of `clear_bits`: the byte at an index with one bit masked out.
unfoldable pub clear_at : List ℕ → ℕ → ℕ → Run (List ℕ)
clear_at [] i k = fault
clear_at (b ∷ bytes) zero k = ok (bit_and b (255 - 2 ^ k) ∷ bytes)
clear_at (b ∷ bytes) (suc i) k = clear_at bytes i k >>= λ rest. ok (b ∷ rest)

unfoldable pub clear_bits : List ℕ → ℕ → ℕ → Run (List ℕ)
unfolding clear_at
clear_bits bitmap offset zero = ok bitmap
clear_bits bitmap offset (suc length) =
    clear_at bitmap ((offset + length) / 8) ((offset + length) % 8) >>= λ cleared.
    clear_bits cleared offset length

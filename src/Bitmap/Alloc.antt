-- ===== src/Bitmap/Alloc.antt =====
-- The allocation of blocks in a space bitmap (mkudffs/file.c), and the bitmap that mkudffs/mkudffs.c
-- starts with.
use udftools.Base.{
  ℕ, zero, suc, ◌+◌, ◌-◌, ◌*◌, ◌/◌, ◌%◌, bit_and, List, [], ◌∷◌, ◌++◌, Run, ok, fault, exit_failure,
  out_of_fuel, ◌>>=◌, ltb, ◌==◌, if◌then◌else◌, get_elem?, deref, add32, ◌^◌, sub32, u32, ◌<<<◌,
  ◌>>>◌, replicate,
}
use udftools.Space.{divide}
use udftools.Bitmap.{udf_find_next_one_bit, udf_find_next_zero_bit, clear_bits}

-- The fields of struct spaceBitmapDesc that the allocation reads.
pub record SpaceBitmapDesc : Type 0 where
  pub num_of_bits : ℕ
  pub bitmap : List ℕ

-- `((start + alignment - 1) / alignment) * alignment`; a division by zero is a fault.
unfoldable pub align_up : ℕ → ℕ → Run ℕ
align_up start alignment =
    if alignment == 0 then fault else ok (sub32 (add32 start alignment) 1 / alignment * alignment)

-- The two searches of a round: the new `start` and `end`.
unfoldable pub free_run : SpaceBitmapDesc → ℕ → Run (ℕ × ℕ)
free_run sbd start = deref (get_elem? sbd.bitmap (start / 8)) >>= λ byte.
    if bit_and byte (1 <<< (start % 8)) == 0
    then (udf_find_next_one_bit sbd.bitmap sbd.num_of_bits start >>= λ one. ok (one, one))
    else (udf_find_next_zero_bit sbd.bitmap sbd.num_of_bits start >>= λ end. ok (start, end))

-- The loop, on fuel.
unfoldable pub find_blocks : ℕ → SpaceBitmapDesc → ℕ → ℕ → ℕ → Run ℕ
unfolding align_up free_run
find_blocks zero sbd alignment start blocks = out_of_fuel
find_blocks (suc fuel) sbd alignment start blocks = align_up start alignment >>= λ aligned.
    if ltb sbd.num_of_bits (add32 aligned blocks)
    then exit_failure
    else (free_run sbd aligned >>= λ found.
        let rest = find_blocks fuel sbd alignment found.0 blocks in
        if ltb (sub32 found.1 found.0) blocks then rest else ok found.0)

-- The block and the bitmap that is left.
unfoldable pub udf_alloc_bitmap_blocks : ℕ → SpaceBitmapDesc → ℕ → ℕ → ℕ → Run (ℕ × SpaceBitmapDesc)
unfolding find_blocks
udf_alloc_bitmap_blocks fuel sbd alignment start blocks =
    find_blocks fuel sbd alignment start blocks >>= λ block.
    clear_bits sbd.bitmap block blocks >>= λ cleared. ok (block, record sbd { bitmap = cleared })

-- `memset` with 0xFF, and the last byte cut to the blocks that there are. The number of bytes comes
-- from a sum of 32 bits; where it is 0 and a byte is to be cut, the cut is in front of the bitmap.
unfoldable pub full_bitmap : ℕ → Run (List ℕ)
full_bitmap blocks =
    let bytes = add32 blocks 7 / 8 in
    if blocks % 8 == 0
    then ok (replicate bytes 0xFF)
    else if bytes == 0
    then fault
    else ok (replicate (bytes - 1) 0xFF ++ (0xFF >>> (8 - blocks % 8)) ∷ [])

-- The bitmap of `setup_space`, at an offset of the partition: it takes the blocks that its header of
-- 24 bytes and its bytes fill.
unfoldable pub first_bitmap : ℕ → ℕ → ℕ → Run SpaceBitmapDesc
unfolding full_bitmap
first_bitmap blocks blocksize offset = full_bitmap blocks >>= λ full.
    divide (u32 (24 + add32 blocks 7 / 8 + blocksize + (2 ^ 32 - 1))) blocksize >>= λ taken.
    clear_bits full offset taken >>= λ cleared.
    ok (record { num_of_bits = blocks; bitmap = cleared })

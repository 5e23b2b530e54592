-- ===== src/Blocks/Setup.antt =====
-- The part of `setup_space` in mkudffs/mkudffs.c that fills the partition header and counts the blocks
-- of the space descriptor off the free blocks; and what this count is when the space is a bitmap.
use native.Mathlib.Nat.{mul-div_cancel, div-mul-le_self}
use udftools.Base.{
  ℕ, suc, ◌+◌, ◌-◌, ◌*◌, ◌/◌, ◌^◌, ◌≤◌, ◌<◌, ◌≡◌, refl, arith, bit_and, List, [], ◌∷◌, length, Run,
  ok, ◌>>=◌, Bool, true, false, not, ltb, leb, ◌==◌, ◌&&◌, if◌then◌else◌, add32, sub32, u32, get_or,
  ◌⊎◌, inl, inr, Returns, Returns_mono,
}
use udftools.Swap.{u64}
use udftools.Space.{divide}
use udftools.Bitmap.Alloc.{first_bitmap}
use udftools.Bitmap.First.{first_bitmap-bits}
use udftools.Bitmap.Digits.{bits_of}
use udftools.Bitmap.Search.{length-bits_of}
use udftools.Table.{ShortAd}
use udftools.Blocks.{flag_freed_bitmap, flag_freed_table, flag_unalloc_bitmap, flag_unalloc_table}
use udftools.Blocks.Account.{ones}

abbrev pub flag_strategy4096 : ℕ
flag_strategy4096 = 0x00000100

abbrev pub flags_have : ℕ → ℕ → Bool
flags_have flags flag = not (bit_and flags flag == 0)

-- struct partitionHeaderDesc
pub record PartitionHeaderDesc : Type 0 where
  pub unalloc_space_table : ShortAd
  pub unalloc_space_bitmap : ShortAd
  pub partition_integrity_table : ShortAd
  pub freed_space_table : ShortAd
  pub freed_space_bitmap : ShortAd
  pub reserved : List ℕ

-- The extent of a space table, and the blocks that it takes.
abbrev pub table_ad : ℕ → ℕ → ℕ → ShortAd
table_ad flags blocksize offset = record {
  ext_length = if flags_have flags flag_strategy4096 then u32 (blocksize * 2) else blocksize;
  ext_position = offset;
}

abbrev pub table_taken : ℕ → ℕ
table_taken flags = if flags_have flags flag_strategy4096 then 2 else 1

-- The header and the number of free blocks, which is `value` before.
unfoldable pub setup_header :
    ℕ → ℕ → ℕ → ℕ → PartitionHeaderDesc → ℕ → Run (PartitionHeaderDesc × ℕ)
unfolding divide
setup_header flags blocksize blocks offset phd value =
    divide (u64 (24 + add32 blocks 7 / 8 + blocksize + (2 ^ 64 - 1))) blocksize >>= λ n.
    let len = u32 (n * blocksize) in
    let ad : ShortAd = record { ext_length = len; ext_position = offset } in
    divide len blocksize >>= λ taken.
    if flags_have flags flag_freed_bitmap
    then ok (record phd { freed_space_bitmap = ad }, sub32 value taken)
    else if flags_have flags flag_freed_table
    then ok (
      record phd { freed_space_table = table_ad flags blocksize offset },
      sub32 value (table_taken flags),
    )
    else if flags_have flags flag_unalloc_bitmap
    then ok (record phd { unalloc_space_bitmap = ad }, sub32 value taken)
    else if flags_have flags flag_unalloc_table
    then ok (
      record phd { unalloc_space_table = table_ad flags blocksize offset },
      sub32 value (table_taken flags),
    )
    else ok (phd, value)

-- A list of ones with a gap.
ones-gap :
    (l : List ℕ) (a b n : ℕ)
    → a ≤ b
    → b ≤ n
    → n ≤ length l
    → ((j : ℕ) → get_or l j 0 ≡ (if leb a j && ltb j b then 0 else if ltb j n then 1 else 0))
    → ones l + (b - a) ≡ n
unfolding ones
ones-gap [] a b n low high long each = omega arith
ones-gap (x ∷ l) a b n low high long each =
    let rest =
      ones-gap l (a - 1) (b - 1) (n - 1) (omega arith) (omega arith) (omega arith)
        λ j. ground (arith, each (suc j)) in
    ground (arith, rest, each 0)

-- The space is a bitmap.
unfoldable pub by_bitmap : ℕ → Bool
by_bitmap flags =
    if flags_have flags flag_freed_bitmap
    then true
    else not (flags_have flags flag_freed_table) && flags_have flags flag_unalloc_bitmap

by_bitmap_cases :
    (f t u : Bool)
    → (if f then true else not t && u) ≡ true
    → (f ≡ true) ⊎ ((f ≡ false) × (t ≡ false) × (u ≡ true))
by_bitmap_cases true t u h = inl refl
by_bitmap_cases false true u h = absurd (ground (arith, h))
by_bitmap_cases false false u h = inr (refl, refl, h)

module _ (flags blocksize blocks offset : ℕ) (pos : 0 < blocksize) (high : blocksize ≤ 32768)
    (small : blocks + 8 ≤ 2 ^ 32)
    (inside : offset + (24 + (blocks + 7) / 8 + blocksize - 1) / blocksize ≤ blocks) where
  abbrev size : ℕ
  size = 24 + (blocks + 7) / 8 + blocksize - 1

  first_bitmap-ones :
      Returns
        (first_bitmap blocks blocksize offset)
        (λ sbd. blocks - size / blocksize ≡ ones (bits_of sbd.bitmap))
  first_bitmap-ones =
      Returns_mono (first_bitmap blocks blocksize offset) _ _
        (first_bitmap-bits blocks blocksize offset pos small (omega arith) inside)
        λ sbd h.
          let gap =
            ones-gap (bits_of sbd.bitmap) offset (offset + size / blocksize) blocks (omega arith)
              inside (omega (arith, length-bits_of sbd.bitmap, h.2)) h.3 in
          omega (arith, gap)

  -- `setup_space` where the free space is a bitmap, for blocks of up to 32768 bytes, a number of
  -- them that can be rounded up to whole bytes in 32 bits, and a bitmap that lies in the
  -- partition: with all blocks of the partition counted as free before, the number that is left is
  -- that of the bits that are set in the new bitmap.
  pub setup_header-ones :
      by_bitmap flags ≡ true
      → (phd : PartitionHeaderDesc)
      → Returns (setup_header flags blocksize blocks offset phd blocks) (λ r.
        Returns (first_bitmap blocks blocksize offset) (λ sbd. r.1 ≡ ones (bits_of sbd.bitmap)))
  unfolding setup_header divide by_bitmap
  setup_header-ones chosen phd =
      let nonzero : (blocksize == 0) ≡ false = ground arith in
      let sum : u64 (24 + add32 blocks 7 / 8 + blocksize + (2 ^ 64 - 1)) ≡ size = omega arith in
      let n = size / blocksize in
      let least = div-mul-le_self size blocksize in
      let len : u32 (n * blocksize) ≡ n * blocksize = omega arith in
      let taken : n * blocksize / blocksize ≡ n = mul-div_cancel n pos in
      let left : sub32 blocks n ≡ blocks - n = omega arith in
      let counted = first_bitmap-ones in
      rw (nonzero, sum, len, taken, left)
        (elim (by_bitmap_cases (flags_have flags flag_freed_bitmap)
          (flags_have flags flag_freed_table) (flags_have flags flag_unalloc_bitmap) chosen) [
            | inl freed ↦ rw freed counted
            | inr unalloc ↦ rw (unalloc.0, unalloc.1, unalloc.2) counted
          ])

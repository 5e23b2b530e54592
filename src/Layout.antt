-- ===== src/Layout.antt =====
-- mkudffs/mkudffs.c, `split_space`: the areas of a new filesystem are cut out of the extents of the
-- disc, one after the other.
pub mod Amounts
pub mod Short
pub mod Descriptors
pub mod Partition
pub mod Result
mod Tests
use udftools.Base.{
  ℕ, zero, suc, ◌+◌, ◌-◌, ◌*◌, ◌/◌, ◌%◌, Bool, true, false, not, ◌&&◌, ◌||◌, Option, none, some,
  List, [], ◌∷◌, ◌++◌, Run, ok, exit_failure, fault, require, deref, ◌>>=◌, ◌>>◌, ltb, leb, ◌==◌,
  bit_and, if◌then◌else◌, u32, add32, sub32,
}
use udftools.Extent.{
  Extent, Cursor, extent, unzip, first, last, has_type, next_extent, prev_extent, prev_before,
  find_extent, set_extent, find_next_extent_size, prev_extent_size,
}
use udftools.Extent.SpaceType
use udftools.Space.{
  Sizing, SparableMap, Disc, flag_vat, has_flag, divide, place, place_found, place_fixed,
}

-- The arrays `sizes` and `offsets` of the function, the latter without a use before the end.
pub record Sizes : Type 0 where
  pub vds : ℕ
  pub lvid : ℕ
  pub stable : ℕ
  pub sspace : ℕ

-- Calculate minimal size for Sparing Table needed for Sparing Space; a `struct sparingTable` has
-- 56 bytes and a `struct sparingEntry` 8.
pub size_sparing_for : Option SparableMap → Disc → Run Disc
size_sparing_for none d = ok d
size_sparing_for (some spm) d =
    if d.stable.min_size == 0
    then (do
      packets ← divide d.sspace.min_size spm.packet_length
      size ← divide (56 + packets * 8 + d.blocksize - 1) d.blocksize
      ok (record d { stable = record (d.stable) { min_size = u32 size } }))
    else ok d

pub size_sparing_table : Disc → Run Disc
unfolding size_sparing_for
size_sparing_table d = size_sparing_for d.sparable d

-- The loop body that fills `sizes[i]`.
pub size_of : ℕ → Sizing → Run ℕ
size_of blocks z = do
  size ← divide (u32 (z.num_size * blocks)) z.denom_size
  ok (if ltb size z.min_size then z.min_size else size)

pub compute_sizes : Disc → Run Sizes
unfolding size_of
compute_sizes d = do
  vds ← size_of d.blocks d.vds
  lvid ← size_of d.blocks d.lvid
  stable ← size_of d.blocks d.stable
  sspace ← size_of d.blocks d.sspace
  unused ← size_of d.blocks d.pspace
  integrity ←
      if (d.access_type == 3 || d.access_type == 4)
        && ltb (lvid * d.blocksize) 8192
        && ltb 257 d.blocks
      then divide (sub32 (add32 8192 d.blocksize) 1) d.blocksize
      else ok lvid
  ok (record {
    vds = if ltb 6 vds && leb d.blocks 257 then 6 else vds;
    lvid = integrity;
    stable = stable;
    sspace = sspace;
  })

-- The start of the search for the main volume descriptors, and for the integrity descriptor.
abbrev pub from_block : Disc → ℕ → ℕ
from_block d start = if not (has_flag d flag_vat) && ltb d.blocks 770 then 0 else start

pub place_mvds : Sizes → Disc → Run Disc
unfolding place_found
place_mvds sizes d = do
  start ← find_next_extent_size d.exts (from_block d 96) SpaceType.uspace sizes.vds d.vds.align
  place_found SpaceType.mvds start sizes.vds d

pub place_rvds : Sizes → Disc → Run Disc
unfolding place_found
place_rvds sizes d =
    if has_flag d flag_vat
    then (do
      packets ← divide (sub32 256 sizes.vds) d.vds.align
      start ←
          find_next_extent_size d.exts (u32 (packets * d.vds.align)) SpaceType.uspace sizes.vds
            d.vds.align
      place_found SpaceType.rvds start sizes.vds d)
    else if ltb 257 d.blocks
    then (do
      start ←
          if leb 3072 d.blocks
          then find_next_extent_size d.exts (add32 (sub32 d.blocks 257) 97 / 32 * 32)
              SpaceType.uspace sizes.vds d.vds.align
          else prev_extent_size (last d.exts) SpaceType.uspace sizes.vds d.vds.align
      place_found SpaceType.rvds start sizes.vds d)
    else ok d

pub place_lvid : Sizes → Disc → Run Disc
unfolding place_found
place_lvid sizes d = do
  start ← prev_extent_size (last d.exts) SpaceType.uspace sizes.lvid d.lvid.align
  (if ltb start 256 || leb 770 d.blocks
      then (do
        start ←
            find_next_extent_size d.exts (from_block d 128) SpaceType.uspace sizes.lvid d.lvid.align
        place_found SpaceType.lvid start sizes.lvid d)
      else ok d)

-- Where the search for sparing table `i` begins and what it finds.
pub find_sparing_table : Sizes → Disc → ℕ → Run ℕ
find_sparing_table sizes d i =
    if i == 0
    then (do
      mvds ← deref (next_extent (first d.exts) SpaceType.mvds)
      find_next_extent_size d.exts mvds.at.start SpaceType.uspace sizes.stable d.stable.align)
    else if i == 1
    then prev_extent_size (last d.exts) SpaceType.uspace sizes.stable d.stable.align
    else if i == 2
    then prev_extent_size (next_extent (first d.exts) SpaceType.anchor) SpaceType.uspace
        sizes.stable d.stable.align
    else (do
      tail ← deref (last d.exts)
      anchor ← deref (prev_before tail SpaceType.anchor)
      find_next_extent_size d.exts anchor.at.start SpaceType.uspace sizes.stable d.stable.align)

-- `n` sparing tables are left, from number `i` on.
pub place_sparing_tables : Sizes → ℕ → ℕ → Disc → Run Disc
unfolding place_found find_sparing_table
place_sparing_tables sizes zero i d = ok d
place_sparing_tables sizes (suc n) i d = do
  start ← find_sparing_table sizes d i
  d' ← place_found SpaceType.stable start sizes.stable d
  place_sparing_tables sizes n (i + 1) d'

pub place_sparing_for : Sizes → Option SparableMap → Disc → Run Disc
unfolding place_found place_sparing_tables
place_sparing_for sizes none d = ok d
place_sparing_for sizes (some spm) d = do
  d' ← place_sparing_tables sizes spm.num_sparing_tables 0 d
  mvds ← deref (next_extent (first d'.exts) SpaceType.mvds)
  start ← find_next_extent_size d'.exts mvds.at.start SpaceType.uspace sizes.sspace d'.sspace.align
  place_found SpaceType.sspace start sizes.sspace d'

pub place_sparing : Sizes → Disc → Run Disc
unfolding place_sparing_for
place_sparing sizes d = place_sparing_for sizes d.sparable d

-- A part of the free space: its first block and its size.
pub record Region : Type 0 where
  pub start : ℕ
  pub size : ℕ

-- The aligned part of an extent: the start rounded up and the size rounded down; size 0 where the
-- loop says `continue`. An alignment of 0 is a fault.
pub aligned_part : ℕ → Extent → Run Region
aligned_part align e =
    let rest = e.start % align in
    let start = if rest == 0 then e.start else sub32 (add32 e.start align) rest in
    let size = if rest == 0 then e.blocks else add32 (sub32 e.blocks align) rest in
    if align == 0
    then fault
    else if not (rest == 0) && leb (add32 e.blocks rest) align
    then ok (record { start = 0; size = 0 })
    else ok (record { start = start; size = size - size % align })

-- `if (size2 < size)`
pub larger : Region → Region → Region
larger best new = if ltb best.size new.size then new else best

-- The inner loop, over the free ones of the extents from one on.
pub largest_from : ℕ → Region → List Extent → Run Region
unfolding larger
largest_from align best [] = ok best
largest_from align best (e ∷ r) = do
  part ← if has_type e SpaceType.uspace then aligned_part align e else ok best
  largest_from align (larger best part) r

-- The extents from a cursor on. A null pointer ends the loop at once.
pub largest_at : ℕ → Region → Option Cursor → Run Region
unfolding largest_from
largest_at align best none = ok best
largest_at align best (some c) = largest_from align best (c.at ∷ c.after)

-- The largest free region: behind block 256 first, then, on a small disc, from the last free extent
-- and over all.
pub largest_free : Disc → Run Region
unfolding largest_at
largest_free d = do
  c ← find_extent d.exts 256
  behind ←
      largest_at d.pspace.align (record { start = 0; size = 0 })
        (next_extent (some c) SpaceType.uspace)
  if has_flag d flag_vat || leb 770 d.blocks then ok behind else (do
    end ← largest_at d.pspace.align behind (prev_extent (last d.exts) SpaceType.uspace)
    largest_at d.pspace.align end (next_extent (first d.exts) SpaceType.uspace))

pub place_partition : Disc → Run (Disc × Region)
place_partition d = do
  best ← largest_free d
  require (not (best.size == 0))
  d' ← place SpaceType.pspace best.start best.size d
  ok (d', best)

-- One of the two loops that write the size of each partition into the integrity descriptor.
pub partition_sizes : ℕ → ℕ → ℕ → List ℕ
partition_sizes size zero i = []
partition_sizes size (suc n) i =
    (if i == 1 then 0xFFFFFFFF else size) ∷ partition_sizes size n (i + 1)

pub write_sizes : ℕ → Disc → Disc
unfolding partition_sizes
write_sizes size d =
    let table = partition_sizes size d.num_partition_maps 0 in
    record d { sizes_written = table ++ table }

-- An integrity descriptor that found no place before the partition gets one now.
pub place_missing : Option Cursor → Sizes → Disc → Run Disc
unfolding place_found
place_missing (some c) sizes d = ok d
place_missing none sizes d = do
  start ← find_next_extent_size d.exts 0 SpaceType.uspace sizes.lvid d.lvid.align
  place_found SpaceType.lvid start sizes.lvid d

pub place_lvid_last : Sizes → Disc → Run Disc
unfolding place_missing
place_lvid_last sizes d = place_missing (next_extent (first d.exts) SpaceType.lvid) sizes d

-- The volume descriptor sequences and the integrity descriptors.
pub place_descriptors : Sizes → Disc → Run Disc
unfolding place_mvds place_rvds place_lvid
place_descriptors sizes d = do d ← place_mvds sizes d; d ← place_rvds sizes d; place_lvid sizes d

pub split_space : Disc → Run Disc
split_space d = do
  d ← place_fixed d
  d ← size_sparing_table d
  sizes ← compute_sizes d
  d ← place_descriptors sizes d
  d ← place_sparing sizes d
  (d, best) ← place_partition d
  place_lvid_last sizes (write_sizes best.size d)

-- ===== src/Space.antt =====
-- mkudffs/mkudffs.c: the disc that `split_space` works on, and its first steps, which put areas at
-- fixed places. A step takes the disc and returns the changed one.
pub mod Sane
pub mod Fixed
pub mod Anchors
use udftools.Base.{
  ℕ, zero, suc, ◌+◌, ◌-◌, ◌*◌, ◌/◌, ◌%◌, Bool, true, false, not, ◌&&◌, ◌||◌, Option, none, some,
  List, [], ◌∷◌, ◌++◌, Run, ok, exit_failure, fault, require, deref, ◌>>=◌, ◌>>◌, ltb, leb, ◌==◌,
  bit_and, if◌then◌else◌, u32, add32, sub32,
}
use udftools.Extent.{
  Extent, Cursor, extent, unzip, first, last, has_type, next_extent, prev_extent, prev_before,
  find_extent, set_extent, find_next_extent_size, prev_extent_size,
}
use udftools.Extent.SpaceType

-- struct udf_sizing
pub record Sizing : Type 0 where
  pub align : ℕ
  pub num_size : ℕ
  pub denom_size : ℕ
  pub min_size : ℕ

-- The fields of struct sparablePartitionMap that the layout reads.
pub record SparableMap : Type 0 where
  pub packet_length : ℕ
  pub num_sparing_tables : ℕ

-- The fields of struct udf_disc that the layout reads and writes. `sparable` is the map that
-- `find_type2_sparable_partition(disc, 0)` finds; `sizes_written` is `udf_lvid->data` in words.
pub record Disc : Type 0 where
  pub blocks : ℕ
  pub blocksize : ℕ
  pub flags : ℕ
  pub vds : Sizing
  pub lvid : Sizing
  pub stable : Sizing
  pub sspace : Sizing
  pub pspace : Sizing
  pub access_type : ℕ
  pub sparable : Option SparableMap
  pub num_partition_maps : ℕ
  pub sizes_written : List ℕ
  pub exts : List Extent

-- The extent that `udf_init_disc` makes, and the list of it with the size that `main` gives it.
abbrev pub first_extent : Extent
first_extent = extent SpaceType.uspace 0 0

unfoldable pub init_space : Disc → Disc
init_space d = record d { exts = (record first_extent { blocks = d.blocks }) ∷ [] }

abbrev pub flag_closed : ℕ
flag_closed = 0x00000800

abbrev pub flag_vat : ℕ
flag_vat = 0x00001000

abbrev pub flag_bootarea_mbr : ℕ
flag_bootarea_mbr = 0x00040000

unfoldable pub has_flag : Disc → ℕ → Bool
has_flag d flag = not (bit_and d.flags flag == 0)

-- A division by zero is a fault.
unfoldable pub divide : ℕ → ℕ → Run ℕ
divide a b = if b == 0 then fault else ok (a / b)

-- A call of `set_extent` whose result is not used.
unfoldable pub place : ℕ → ℕ → ℕ → Disc → Run Disc
place type start blocks d = do
  c ← set_extent d.exts type start blocks
  ok (record d { exts = unzip c })

-- `if (!start) exit(1); set_extent(...)`, after a search.
unfoldable pub place_found : ℕ → ℕ → ℕ → Disc → Run Disc
unfolding place
place_found type start blocks d = do require (not (start == 0)); place type start blocks d

-- OS boot area
unfoldable pub place_boot_area : Disc → Run Disc
place_boot_area d =
    if has_flag d flag_bootarea_mbr
    then place SpaceType.mbr 0 1 d
    else do size ← divide 32768 d.blocksize; place SpaceType.reserved 0 size d

-- Volume Recognition Sequence
unfoldable pub place_vrs : Disc → Run Disc
place_vrs d = do
  start ← divide 32768 d.blocksize
  size ← if leb 2048 d.blocksize then ok 4 else divide (add32 6144 d.blocksize) d.blocksize
  place SpaceType.vrs start size d

-- First Anchor Point at sector 256
unfoldable pub place_first_anchor : Disc → Run Disc
place_first_anchor d = if ltb 257 d.blocks then place SpaceType.anchor 256 1 d else ok d

-- Second anchor point at sector (End-Of-Volume - 256)
unfoldable pub place_second_anchor : Disc → Run Disc
place_second_anchor d =
    if has_flag d flag_closed
    then (if has_flag d flag_vat
        then (do
          require (not (leb d.blocks 257 || leb (sub32 d.blocks 257) 256))
          place SpaceType.anchor 257 1 d)
        else if leb 3072 d.blocks
        then place SpaceType.anchor (sub32 d.blocks 257) 1 d
        else ok d)
    else ok d

-- Final anchor point at sector End-Of-Volume/Session for sequentially writable media
unfoldable pub place_final_anchor : Disc → Run Disc
place_final_anchor d =
    if has_flag d flag_vat then ok d else place SpaceType.anchor (sub32 d.blocks 1) 1 d

-- What comes before any search: the areas at fixed places.
unfoldable pub place_fixed : Disc → Run Disc
unfolding place_boot_area place_vrs place_first_anchor place_second_anchor place_final_anchor
place_fixed d = do
  d ← place_boot_area d
  d ← place_vrs d
  d ← place_first_anchor d
  d ← place_second_anchor d
  place_final_anchor d

-- ===== src/Table/Tests.antt =====
-- Runs of the allocation in a space table, and the theorem about it at a concrete table.
use udftools.Base.{
  ℕ, ◌+◌, ◌*◌, ◌^◌, ◌≡◌, refl, arith, List, [], ◌∷◌, ok, replicate, exit_failure, fault, true, ◌-◌,
  Returns,
}
use udftools.Space.{divide}
use udftools.Bitmap.Alloc.{align_up}
use udftools.Tag.{Tag}
use udftools.Table.{
  ShortAd, UnallocSpaceEntry, find_slot, take_blocks, shorter, udf_alloc_table_blocks,
}
use udftools.Table.Shares.{ExtentOk, Ascends}
use udftools.Table.Left.{Sound}
use udftools.Table.First.{unrecorded, last_ad, first_ads, first_extents, first_table}
use udftools.Table.Start.{longest, table_blocks, Starts, first_table-Starts}
use udftools.Table.Alloc.{Allocates, udf_alloc_table_blocks-Allocates}

abbrev ad : ℕ → ℕ → ShortAd
ad position blocks = record { ext_length = 2 ^ 30 + blocks * 512; ext_position = position }

-- Blocks 5 to 7 and 16 to 31.
abbrev two : List ShortAd
two = ad 5 3 ∷ ad 16 16 ∷ []

find_slot_runs :
    (find_slot 8 512 4 0 [] two
      ≡ ok (record { passed = ad 5 3 ∷ []; at = ad 16 16; after = []; start = 16; end = 32 }))
    × (find_slot 8 512 40 0 [] two ≡ exit_failure)
unfolding find_slot align_up divide
find_slot_runs = (refl, refl)

take_blocks_run :
    take_blocks 512 4 (record { passed = []; at = ad 16 16; after = []; start = 24; end = 32 }) 1
    ≡ ok (record { ads = ad 16 8 ∷ ad 28 4 ∷ []; room = 0 })
unfolding take_blocks shorter
take_blocks_run = refl

-- With a start behind the first extent, the search goes on in front of the start.
back_run :
    find_slot 1 512 4 20 [] (ad 5 3 ∷ ad 10 20 ∷ [])
    ≡ ok (record { passed = ad 5 3 ∷ []; at = ad 10 20; after = []; start = 10; end = 30 })
unfolding find_slot align_up divide
back_run = refl

abbrev blank_tag : Tag
blank_tag = record {
  tag_ident = 0;
  desc_version = 0;
  tag_checksum = 0;
  reserved = 0;
  tag_serial_num = 0;
  desc_crc = 0;
  desc_crc_length = 0;
  tag_location = 0;
}

abbrev table : UnallocSpaceEntry
table = record {
  desc_tag = blank_tag;
  icb_tag = replicate 20 0;
  alloc_descs = record { ads = two; room = 50 };
}

two-Sound : Sound 8 512 two
unfolding Sound ExtentOk Ascends
two-Sound = omega arith

udf_alloc_table_blocks-Allocates_example :
    Allocates 8 512 4 table 0 (udf_alloc_table_blocks 0x0201 8 512 9 table 0 4)
udf_alloc_table_blocks-Allocates_example =
    udf_alloc_table_blocks-Allocates 0x0201 8 512 9 0 4 table (omega arith) (omega arith)
      (omega arith) two-Sound (omega arith) refl (omega arith) (omega arith)

-- 2 ^ 26 blocks of 2048 bytes.
first_table-Starts_example :
    Returns
      (first_table true 0x0201 2048 (2 ^ 26) 0)
      (Starts 8 2048 (0 + table_blocks true) (2 ^ 26 - table_blocks true))
first_table-Starts_example =
    first_table-Starts true 0x0201 8 2048 (2 ^ 26) 0 (omega arith) (omega arith) (omega arith)
      (omega arith) (omega arith)

first_ads_run :
    first_ads 59 (longest 512) 512 1 (longest 512 + 1024)
    ≡ ok (record { ads = unrecorded (longest 512) 1 ∷ unrecorded 1024 2097152 ∷ []; room = 57 })
unfolding first_ads last_ad divide
first_ads_run = refl

-- With 512 bytes to a block, the test lets 59 full extents and a rest pass, and the descriptor of
-- the rest is written behind the block. With 60 full extents, the program leaves.
room_runs :
    (first_extents 512 0 512 (59 * longest 512 + 512) ≡ fault)
    × (first_extents 512 0 512 (60 * longest 512) ≡ exit_failure)
unfolding first_extents first_ads last_ad divide
room_runs = (refl, refl)

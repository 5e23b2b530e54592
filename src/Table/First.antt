-- ===== src/Table/First.antt =====
-- The space table that mkudffs starts with (`setup_space` of mkudffs/mkudffs.c): the partition
-- without the blocks of the table, in extents that are as long as a descriptor can say.
use udftools.Base.{
  ℕ, zero, suc, ◌+◌, ◌-◌, ◌*◌, ◌/◌, ◌^◌, bit_or, List, [], ◌∷◌, ◌++◌, Run, ok, fault, exit_failure,
  ◌>>=◌, Bool, ltb, if◌then◌else◌, length, add32, u32, some, bytes_of,
}
use udftools.Swap.{u64}
use udftools.Extent.{Payload}
use udftools.Space.{divide}
use udftools.Tag.{Tag, udf_query_tag}
use udftools.Table.{
  ShortAd, Ads, UnallocSpaceEntry, use_bytes, ext_length_mask, ext_not_recorded_allocated,
}

-- The descriptor at `sad`, written last or before the loop goes on. The length is stored in 32 bits.
abbrev pub unrecorded : ℕ → ℕ → ShortAd
unrecorded len pos = record {
  ext_length = u32 (bit_or ext_not_recorded_allocated len);
  ext_position = pos;
}

-- The descriptor behind the loop.
unfoldable pub last_ad : ℕ → ℕ → ℕ → Run Ads
last_ad zero pos rem = fault
last_ad (suc room) pos rem = ok (record { ads = unrecorded rem pos ∷ []; room = room })

-- The loop, and the descriptor behind it, in memory with room for a number of descriptors.
unfoldable pub first_ads : ℕ → ℕ → ℕ → ℕ → ℕ → Run Ads
unfolding last_ad divide
first_ads zero max blocksize pos rem = fault
first_ads (suc room) max blocksize pos rem = divide max blocksize >>= λ step.
    let rest = first_ads room max blocksize (add32 pos step) (rem - max) in
    if ltb max rem
    then (rest >>= λ a. ok (record a { ads = unrecorded max pos ∷ a.ads }))
    else last_ad (suc room) pos rem

-- `icbTag` of the table, with FLAG_STRATEGY4096 as a Boolean.
unfoldable pub use_icb_tag : Bool → List ℕ
use_icb_tag strategy4096 =
    bytes_of 4 0
    ++ (bytes_of 2 (if strategy4096 then 4096 else 4)
        ++ (bytes_of 2 (if strategy4096 then 1 else 0)
            ++ (bytes_of 2 (if strategy4096 then 2 else 1)
                ++ (0 ∷ 1 ∷ 0 ∷ 0 ∷ 0 ∷ 0 ∷ 0 ∷ 0 ∷ 0 ∷ 0 ∷ []))))

abbrev pub zero_tag : Tag
zero_tag = record {
  tag_ident = 0;
  desc_version = 0;
  tag_checksum = 0;
  reserved = 0;
  tag_serial_num = 0;
  desc_crc = 0;
  desc_crc_length = 0;
  tag_location = 0;
}

-- The length of the table, in bytes.
abbrev pub table_length : Bool → ℕ → ℕ
table_length strategy4096 blocksize = if strategy4096 then u32 (blocksize * 2) else blocksize

-- The descriptors for the bytes behind the table, in a block that has room for some.
unfoldable pub first_extents : ℕ → ℕ → ℕ → ℕ → Run Ads
unfolding first_ads last_ad divide
first_extents blocksize offset len rem = divide ext_length_mask blocksize >>= λ most.
    let max = u32 (most * blocksize) in
    divide rem max >>= λ needed. divide len blocksize >>= λ used.
    let room = (blocksize - 40) / 8 in
    if ltb (u64 (blocksize + (2 ^ 64 - 40))) (u64 (needed * 8))
    then exit_failure
    else if ltb ext_length_mask rem
    then first_ads room max blocksize (add32 offset used) rem
    else last_ad room (add32 offset used) rem

-- The table at `offset` of a partition of `blocks` blocks.
unfoldable pub first_table : Bool → ℕ → ℕ → ℕ → ℕ → Run UnallocSpaceEntry
unfolding first_extents use_icb_tag use_bytes
first_table strategy4096 udf_rev blocksize blocks offset =
    let len = table_length strategy4096 blocksize in
    first_extents blocksize offset len (u64 (blocks * blocksize + (2 ^ 64 - len))) >>= λ ads.
    let e : UnallocSpaceEntry = record {
      desc_tag = zero_tag;
      icb_tag = use_icb_tag strategy4096;
      alloc_descs = ads;
    } in
    let bytes = use_bytes e in
    let item : Payload = record { length = length bytes; buffer = some bytes } in
    udf_query_tag udf_rev 0x0107 1 offset (item ∷ []) 0 (40 + 8 * length ads.ads) >>= λ t.
    ok (record e { desc_tag = t })

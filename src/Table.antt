-- ===== src/Table.antt =====
-- The space table of mkudffs/file.c: the extents of free blocks of the partition as short allocation
-- descriptors, and the allocation of blocks from them.
--
-- The descriptors that `lengthAllocDescs` counts are a list, and the memory behind them has room for
-- a number of further ones.
pub mod Shares
pub mod Found
pub mod Taken
pub mod Left
pub mod Alloc
pub mod First
pub mod Whole
pub mod Start
mod Tests
use udftools.Base.{
  ℕ, zero, suc, ◌+◌, ◌-◌, ◌*◌, ◌/◌, ◌%◌, ◌^◌, bit_and, bit_or, List, [], ◌∷◌, ◌++◌, Run, ok, fault,
  exit_failure, ◌>>=◌, Bool, ◌&&◌, ltb, ◌==◌, if◌then◌else◌, reverse_onto, replicate, length, add32,
  sub32, u32, some, bytes_of,
}
use udftools.Extent.{Payload}
use udftools.Space.{divide}
use udftools.Bitmap.Alloc.{align_up}
use udftools.Tag.{Tag, tag_bytes, udf_query_tag}

-- short_ad
pub record ShortAd : Type 0 where
  pub ext_length : ℕ
  pub ext_position : ℕ

abbrev pub ext_length_mask : ℕ
ext_length_mask = 0x3FFFFFFF

abbrev pub ext_not_recorded_allocated : ℕ
ext_not_recorded_allocated = 0x40000000

-- The descriptor at which the loop stops, those in front of it, nearest first, and those behind it,
-- with `start` and `end`.
pub record Slot : Type 0 where
  pub passed : List ShortAd
  pub at : ShortAd
  pub after : List ShortAd
  pub start : ℕ
  pub end : ℕ

-- The loop over the descriptors.
unfoldable pub find_slot : ℕ → ℕ → ℕ → ℕ → List ShortAd → List ShortAd → Run Slot
unfolding align_up divide
find_slot alignment blocksize blocks start passed [] = exit_failure
find_slot alignment blocksize blocks start passed (sad ∷ after) =
    align_up (if ltb start sad.ext_position then sad.ext_position else start) alignment
    >>= λ aligned. divide (bit_and sad.ext_length ext_length_mask) blocksize >>= λ count.
        let end = add32 sad.ext_position count in
        let from = if ltb end aligned then end else aligned in
        let rest = find_slot alignment blocksize blocks from (sad ∷ passed) after in
        if ltb (sub32 end from) blocks
        then rest
        else ok (record { passed = passed; at = sad; after = after; start = from; end = end })

-- The descriptors of a table, and the room behind them.
pub record Ads : Type 0 where
  pub ads : List ShortAd
  pub room : ℕ

-- `le32_to_cpu(sad->extLength) - blocks * disc->blocksize`
unfoldable pub shorter : ShortAd → ℕ → ℕ → ℕ
shorter sad blocks blocksize = sub32 sad.ext_length (u32 (blocks * blocksize))

-- The descriptors without the blocks of a slot. A new descriptor with no room for it is written
-- behind the memory.
unfoldable pub take_blocks : ℕ → ℕ → Slot → ℕ → Run Ads
unfolding shorter
take_blocks blocksize blocks s room =
    let sad = s.at in
    let at_start = s.start == sad.ext_position in
    let at_end = add32 s.start blocks == s.end in
    if at_start && at_end
    then ok (record { ads = reverse_onto s.passed s.after; room = suc room })
    else if at_start
    then ok (record {
      ads = reverse_onto s.passed (
          (record {
            ext_length = shorter sad blocks blocksize;
            ext_position = add32 s.start blocks;
          })
          ∷ s.after);
      room = room;
    })
    else if at_end
    then ok (record {
      ads =
          reverse_onto s.passed
            ((record sad { ext_length = shorter sad blocks blocksize }) ∷ s.after);
      room = room;
    })
    else if room == 0
    then fault
    else ok (record {
      ads = reverse_onto s.passed (
          (record sad {
            ext_length =
                bit_or ext_not_recorded_allocated
                  (u32 (sub32 s.start sad.ext_position * blocksize));
          })
          ∷ (record {
            ext_length =
                bit_or ext_not_recorded_allocated
                  (u32 (sub32 (sub32 s.end s.start) blocks * blocksize));
            ext_position = add32 s.start blocks;
          })
          ∷ s.after);
      room = room - 1;
    })

-- struct unallocSpaceEntry; the bytes of the ICB tag are as they are.
pub record UnallocSpaceEntry : Type 0 where
  pub desc_tag : Tag
  pub icb_tag : List ℕ
  pub alloc_descs : Ads

-- The bytes of the descriptors.
unfoldable pub ads_bytes : List ShortAd → List ℕ
ads_bytes [] = []
ads_bytes (d ∷ ads) = bytes_of 4 d.ext_length ++ (bytes_of 4 d.ext_position ++ ads_bytes ads)

-- The structure in memory, with its room.
unfoldable pub use_bytes : UnallocSpaceEntry → List ℕ
unfolding tag_bytes ads_bytes
use_bytes e =
    tag_bytes e.desc_tag
    ++ (e.icb_tag
        ++ (bytes_of 4 (8 * length e.alloc_descs.ads)
            ++ (ads_bytes e.alloc_descs.ads ++ replicate (8 * e.alloc_descs.room) 0)))

-- The start of the blocks and the entry without them; `offset` is that of the descriptor of the
-- entry.
unfoldable pub udf_alloc_table_blocks :
    ℕ → ℕ → ℕ → ℕ → UnallocSpaceEntry → ℕ → ℕ → Run (ℕ × UnallocSpaceEntry)
unfolding find_slot take_blocks use_bytes
udf_alloc_table_blocks udf_rev alignment blocksize offset e start blocks =
    find_slot alignment blocksize blocks start [] e.alloc_descs.ads >>= λ s.
    take_blocks blocksize blocks s e.alloc_descs.room >>= λ ads.
    let fresh = record e { alloc_descs = ads } in
    let bytes = use_bytes fresh in
    let item : Payload = record { length = length bytes; buffer = some bytes } in
    udf_query_tag udf_rev 0x0107 1 offset (item ∷ []) 0 (40 + 8 * length ads.ads) >>= λ t.
    ok (s.start, record fresh { desc_tag = t })

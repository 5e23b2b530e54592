-- ===== src/Tag.antt =====
-- The tag at the start of every descriptor (include/ecma_167.h), as the fields of the structure and
-- as the 16 bytes that it takes, and the functions of mkudffs/file.c that make one.
pub mod Pieces
pub mod Fits
pub mod Sealed
pub mod Query
mod Tests
use udftools.Base.{
  ℕ, zero, suc, ◌+◌, ◌-◌, ◌*◌, ◌^◌, ◌%◌, Option, none, some, List, [], ◌∷◌, ◌++◌, Run, ok, fault,
  ◌>>=◌, ltb, leb, ◌==◌, if◌then◌else◌, take, drop, u8, u16, u32, add32, sub32, bytes_of, number_of,
}
use udftools.Extent.{Extent, Desc, Payload, has_type}
use udftools.Extent.SpaceType
use udftools.Crc.{udf_crc}

pub record Tag : Type 0 where
  pub tag_ident : ℕ
  pub desc_version : ℕ
  pub tag_checksum : ℕ
  pub reserved : ℕ
  pub tag_serial_num : ℕ
  pub desc_crc : ℕ
  pub desc_crc_length : ℕ
  pub tag_location : ℕ

-- The structure in memory: it is packed, and its numbers are stored by `cpu_to_le16` and
-- `cpu_to_le32`.
unfoldable pub tag_bytes : Tag → List ℕ
tag_bytes t =
    bytes_of 2 t.tag_ident
    ++ (bytes_of 2 t.desc_version
        ++ (bytes_of 1 t.tag_checksum
            ++ (bytes_of 1 t.reserved
                ++ (bytes_of 2 t.tag_serial_num
                    ++ (bytes_of 2 t.desc_crc
                        ++ (bytes_of 2 t.desc_crc_length ++ bytes_of 4 t.tag_location))))))

-- Memory read as a tag, by `le16_to_cpu` and `le32_to_cpu`; 16 bytes must be there.
unfoldable pub tag_of : List ℕ → Run Tag
tag_of (a ∷ b ∷ c ∷ d ∷ e ∷ f ∷ g ∷ h ∷ i ∷ j ∷ k ∷ l ∷ m ∷ n ∷ o ∷ p ∷ r) = ok (record {
  tag_ident = number_of (a ∷ b ∷ []);
  desc_version = number_of (c ∷ d ∷ []);
  tag_checksum = number_of (e ∷ []);
  reserved = number_of (f ∷ []);
  tag_serial_num = number_of (g ∷ h ∷ []);
  desc_crc = number_of (i ∷ j ∷ []);
  desc_crc_length = number_of (k ∷ l ∷ []);
  tag_location = number_of (m ∷ n ∷ o ∷ p ∷ []);
})
tag_of bytes = fault

-- The loop that sums up the bytes of a tag but the fifth, in a `uint8_t`, from an index on.
unfoldable pub sum_from : ℕ → List ℕ → ℕ → ℕ
sum_from i [] sum = sum
sum_from i (b ∷ bytes) sum = sum_from (suc i) bytes (if i == 4 then sum else u8 (sum + b))

-- The bytes that an item points to; NULL points to none.
unfoldable pub bytes_in : Payload → List ℕ
bytes_in p = elim p.buffer [ none ↦ [] | some bytes ↦ bytes ]

-- The loop of `query_tag`: the CRC of the items from an offset in the first one on. The size is
-- cut to the `uint32_t` that `udf_crc` takes.
unfoldable pub crc_items : ℕ → ℕ → List Payload → Run ℕ
unfolding bytes_in
crc_items offset crc [] = ok crc
crc_items offset crc (p ∷ r) =
    udf_crc (drop offset (bytes_in p)) (u32 (p.length + 2 ^ 64 - offset)) crc >>= λ next.
    crc_items 0 next r

-- The checksum of a tag, put into it.
unfoldable pub with_checksum : Tag → Tag
with_checksum t = record t { tag_checksum = sum_from 0 (tag_bytes t) 0 }

-- What the two functions fill a tag with, before its checksum.
unfoldable pub new_tag : ℕ → ℕ → ℕ → ℕ → ℕ → ℕ → Tag
new_tag udf_rev ident serial crc crc_length location = record {
  tag_ident = u16 ident;
  desc_version = if leb 0x0200 udf_rev then 3 else 2;
  tag_checksum = 0;
  reserved = 0;
  tag_serial_num = u16 serial;
  desc_crc = u16 crc;
  desc_crc_length = u16 crc_length;
  tag_location = u32 location;
}

-- Of the disc it reads the revision.
unfoldable pub query_tag : ℕ → Extent → Desc → ℕ → Run Tag
unfolding crc_items with_checksum new_tag
query_tag udf_rev ext desc serial = crc_items 16 0 desc.payload >>= λ crc. ok (
    with_checksum (
      new_tag udf_rev desc.ident serial crc (desc.length + 2 ^ 64 - 16)
        (if has_type ext SpaceType.pspace then desc.offset else add32 ext.start desc.offset)))

-- The loop of `udf_query_tag`, over the items that hold `length` more bytes.
unfoldable pub crc_part : ℕ → ℕ → ℕ → ℕ → List Payload → Run ℕ
unfolding bytes_in
crc_part skip offset length crc [] = ok crc
crc_part skip offset length crc (p ∷ r) =
    let clength = if ltb length (u32 p.length) then length else u32 p.length in
    let rest : Run ℕ =
      udf_crc (drop (skip + offset) (bytes_in p)) (sub32 clength offset) crc >>= λ next.
      crc_part 0 0 (sub32 length clength) next r in
    if length == 0 then ok crc else rest

unfoldable pub udf_query_tag : ℕ → ℕ → ℕ → ℕ → List Payload → ℕ → ℕ → Run Tag
unfolding crc_part with_checksum new_tag
udf_query_tag udf_rev ident serial location payload skip length =
    crc_part skip 16 length 0 payload >>= λ crc.
    ok (with_checksum (new_tag udf_rev ident serial crc (length + 2 ^ 64 - 16) location))

-- ===== src/Fsck.antt =====
-- udffsck/udffsck.c: the tests on the tag of a descriptor.
pub mod Accepts
mod Tests
use udftools.Base.{
  ℕ, ◌-◌, List, Run, ok, ◌>>=◌, Bool, not, leb, ◌==◌, if◌then◌else◌, drop, ◌%◌, u16,
}
use udftools.Crc.{udf_crc}
use udftools.Tag.{Tag, tag_bytes, tag_of, sum_from}

unfoldable pub calculate_checksum : Tag → ℕ
calculate_checksum t = sum_from 0 (tag_bytes t) 0

unfoldable pub checksum : Tag → Bool
unfolding calculate_checksum
checksum t = calculate_checksum t == t.tag_checksum

-- The size is cut to 16 bits by the call.
unfoldable pub calculate_crc : List ℕ → ℕ → Run ℕ
calculate_crc desc size =
    let size' = u16 size in if leb 16 size' then udf_crc (drop 16 desc) (size' - 16) 0 else ok 0

-- True where the CRC differs. The size is cut to 16 bits by the call.
unfoldable pub crc : List ℕ → ℕ → Run Bool
unfolding calculate_crc
crc desc size =
    calculate_crc desc (u16 size) >>= λ calc. tag_of desc >>= λ t. ok (not (t.desc_crc == calc))

-- True where the position differs.
unfoldable pub check_position : Tag → ℕ → Bool
check_position t position = not (t.tag_location == position)

-- ===== src/Label.antt =====
-- udflabel/main.c: the tests on a descriptor before it is changed, and the new checksums after.
pub mod Accepts
pub mod Detect
mod Tests
use udftools.Base.{
  ℕ, ◌+◌, ◌-◌, ◌^◌, ◌%◌, List, [], ◌∷◌, ◌++◌, Run, ok, ◌>>=◌, Bool, true, false, not, ltb, ◌==◌,
  if◌then◌else◌, take, drop, u32,
}
use udftools.Crc.{udf_crc}
use udftools.Tag.{Tag, tag_bytes, tag_of, sum_from}

-- `desc` is the memory from the descriptor on. The difference is a `size_t`, cut to 32 bits by
-- `udf_crc`.
unfoldable pub compute_crc : List ℕ → ℕ → Run ℕ
compute_crc desc length = udf_crc (drop 16 desc) (u32 (length + 2 ^ 64 - 16)) 0

unfoldable pub compute_checksum : Tag → ℕ
compute_checksum t = sum_from 0 (tag_bytes t) 0

-- The result 1 is `true`.
unfoldable pub check_desc : List ℕ → ℕ → Run Bool
unfolding compute_crc compute_checksum
check_desc desc length = tag_of desc >>= λ t.
    if ltb ((length + 2 ^ 64 - 16) % 2 ^ 64) t.desc_crc_length
    then ok false
    else if not (compute_checksum t == t.tag_checksum)
    then ok false
    else (compute_crc desc (16 + t.desc_crc_length) >>= λ crc. ok (crc == t.desc_crc))

-- The descriptor with its new CRC and checksum.
unfoldable pub update_desc : List ℕ → ℕ → Run (List ℕ)
unfolding compute_crc compute_checksum
update_desc desc length = tag_of desc >>= λ t.
    compute_crc desc
      (if ltb (t.desc_crc_length + 16) length then t.desc_crc_length + 16 else length)
    >>= λ crc.
        let fresh = record t { desc_crc = crc } in
        ok (tag_bytes (record fresh { tag_checksum = compute_checksum fresh }) ++ drop 16 desc)

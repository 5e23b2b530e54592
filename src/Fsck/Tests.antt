-- ===== src/Fsck/Tests.antt =====
-- Runs of the tests of udffsck, and the theorem about them at a concrete descriptor.
use udftools.Base.{◌+◌, ◌≡◌, ◌↔◌, refl, [], ◌∷◌, ◌++◌, arith, ok, true, false}
use udftools.Tag.{Tag, tag_bytes}
use udftools.Tag.Fits.{Fits}
use udftools.Label.{check_desc}
use udftools.Fsck.{calculate_crc, checksum, crc, check_position}
use udftools.Fsck.Accepts.{checksum-check_desc}

abbrev bare : Tag
bare = record {
  tag_ident = 1;
  desc_version = 3;
  tag_checksum = 8;
  reserved = 0;
  tag_serial_num = 1;
  desc_crc = 0;
  desc_crc_length = 2;
  tag_location = 32;
}

check_position_runs : (check_position bare 32 ≡ false) × (check_position bare 33 ≡ true)
unfolding check_position
check_position_runs = (refl, refl)

checksum-check_desc_example :
    let d = tag_bytes bare ++ (1 ∷ 2 ∷ []) in
    (check_desc d (2 + 16) ≡ ok true) ↔ ((checksum bare ≡ true) × (crc d (2 + 16) ≡ ok false))
checksum-check_desc_example =
    checksum-check_desc bare (1 ∷ 2 ∷ []) (unfold Fits in omega arith) (omega arith) (omega arith)

-- The size of a descriptor whose tag covers 65520 bytes is cut to 0, and the CRC of none is 0.
calculate_crc_run : calculate_crc (tag_bytes bare) (65520 + 16) ≡ ok 0
unfolding calculate_crc
calculate_crc_run = refl

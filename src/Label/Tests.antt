-- ===== src/Label/Tests.antt =====
-- Runs of the tests of udflabel, and the theorems about them at concrete descriptors.
use udftools.Base.{
  ◌+◌, ◌≡◌, ◌↔◌, ◌≤◌, refl, [], ◌∷◌, ◌++◌, arith, ok, Returns, drop, length, true, false,
}
use udftools.Tag.{Tag, tag_bytes, with_checksum}
use udftools.Tag.Fits.{Fits}
use udftools.Tag.Sealed.{Sealed, with_checksum-Sealed}
use udftools.Crc.Whole.{crc_of, crc_of-lt}
use udftools.Label.{check_desc, update_desc}
use udftools.Label.Accepts.{check_desc-Sealed, update_desc-check_desc}
use udftools.Label.Detect.{check_desc-detects_byte}

abbrev bare : Tag
bare = record {
  tag_ident = 1;
  desc_version = 3;
  tag_checksum = 0;
  reserved = 0;
  tag_serial_num = 1;
  desc_crc = 0;
  desc_crc_length = 3;
  tag_location = 32;
}

bare-Fits : Fits bare
unfolding Fits
bare-Fits = omega arith

abbrev with_crc : Tag
with_crc = record bare { desc_crc = crc_of (1 ∷ 2 ∷ 3 ∷ []) 0 }

abbrev sealed : Tag
unfolding with_checksum
sealed = with_checksum with_crc

sealed-Sealed : Sealed sealed (1 ∷ 2 ∷ 3 ∷ [])
unfolding sealed with_checksum
sealed-Sealed =
    with_checksum-Sealed with_crc (1 ∷ 2 ∷ 3 ∷ [])
      (unfold Fits in
        (
          omega arith,
          omega arith,
          omega arith,
          omega arith,
          omega arith,
          crc_of-lt (1 ∷ 2 ∷ 3 ∷ []) 0 (omega arith),
          omega arith,
          omega arith,
        ))
      (omega arith) refl

check_desc-Sealed_example :
    (check_desc (tag_bytes bare ++ (1 ∷ 2 ∷ 3 ∷ [])) 19 ≡ ok true)
    ↔ ((3 + 16 ≤ 19) × Sealed bare (1 ∷ 2 ∷ 3 ∷ []))
check_desc-Sealed_example =
    check_desc-Sealed bare (1 ∷ 2 ∷ 3 ∷ []) 19 bare-Fits (omega arith) (omega arith) (omega arith)

update_desc-check_desc_example :
    Returns
      (update_desc (tag_bytes bare ++ (1 ∷ 2 ∷ 3 ∷ [])) 19)
      (λ d. (drop 16 d ≡ 1 ∷ 2 ∷ 3 ∷ []) × (check_desc d 19 ≡ ok true))
update_desc-check_desc_example =
    update_desc-check_desc bare (1 ∷ 2 ∷ 3 ∷ []) 19 bare-Fits (omega arith) (omega arith)
      (omega arith)

check_desc-detects_byte_example :
    let d = tag_bytes sealed ++ ((1 ∷ []) ++ 9 ∷ 3 ∷ []) in check_desc d (length d) ≡ ok false
unfolding sealed
check_desc-detects_byte_example =
    check_desc-detects_byte sealed (1 ∷ []) (3 ∷ []) 2 9 sealed-Sealed refl (omega arith)
      (omega arith) (omega arith) (omega arith) (omega arith)

-- ===== src/Tag/Fits.antt =====
-- Tags whose fields fit their widths are read back as they were stored.
use udftools.Base.{ℕ, ◌^◌, ◌<◌, ◌≡◌, refl, List, ◌++◌, arith, ok, bytes_of, number_of}
use udftools.Tag.{Tag, tag_bytes, tag_of}

unfoldable pub Fits : Tag → Type 0
Fits t =
    (t.tag_ident < 65536)
    × (t.desc_version < 65536)
    × (t.tag_checksum < 256)
    × (t.reserved < 256)
    × (t.tag_serial_num < 65536)
    × (t.desc_crc < 65536)
    × (t.desc_crc_length < 65536)
    × (t.tag_location < 2 ^ 32)

number_of_two : (v : ℕ) → v < 65536 → number_of (bytes_of 2 v) ≡ v
number_of_two v h = omega arith

number_of_four : (v : ℕ) → v < 2 ^ 32 → number_of (bytes_of 4 v) ≡ v
number_of_four v h = omega arith

-- Whatever stands behind it, a stored tag is read back.
pub tag_of-tag_bytes : (t : Tag) (rest : List ℕ) → Fits t → tag_of (tag_bytes t ++ rest) ≡ ok t
unfolding tag_of tag_bytes Fits
tag_of-tag_bytes t rest fits =
    let small : number_of (bytes_of 1 t.tag_checksum) ≡ t.tag_checksum = omega (arith, fits.2) in
    let empty : number_of (bytes_of 1 t.reserved) ≡ t.reserved = omega (arith, fits.3) in
    rw
      (
        number_of_two t.tag_ident fits.0,
        number_of_two t.desc_version fits.1,
        small,
        empty,
        number_of_two t.tag_serial_num fits.4,
        number_of_two t.desc_crc fits.5,
        number_of_two t.desc_crc_length fits.6,
        number_of_four t.tag_location fits.7,
      )
      refl

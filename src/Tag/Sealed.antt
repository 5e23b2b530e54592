-- ===== src/Tag/Sealed.antt =====
-- Tags that agree with the bytes behind them, and that the functions of mkudffs make such tags.
use udftools.Base.{
  ℕ, suc, ◌+◌, ◌≤◌, ◌<◌, ◌≡◌, refl, sym, List, [], ◌∷◌, arith, length, take, u8, ◌==◌,
  if◌then◌else◌,
}
use udftools.Crc.Whole.{crc_of}
use udftools.Tag.{Tag, tag_bytes, sum_from, with_checksum}
use udftools.Tag.Fits.{Fits}

-- The checksum is that of the tag, and the CRC that of the bytes behind it that it says it covers.
unfoldable pub Sealed : Tag → List ℕ → Type 0
Sealed t body =
    Fits t
    × (t.tag_checksum ≡ sum_from 0 (tag_bytes t) 0)
    × (t.desc_crc_length ≤ length body)
    × (t.desc_crc ≡ crc_of (take t.desc_crc_length body) 0)

pub sum_from-lt : (i : ℕ) (bytes : List ℕ) (sum : ℕ) → sum < 256 → sum_from i bytes sum < 256
unfolding sum_from
sum_from-lt i [] sum h = h
sum_from-lt i (b ∷ bytes) sum h =
    sum_from-lt (suc i) bytes (if i == 4 then sum else u8 (sum + b)) (ground arith)

-- The checksum does not depend on the byte that holds it.
pub with_checksum-same :
    (t : Tag) → sum_from 0 (tag_bytes (with_checksum t)) 0 ≡ sum_from 0 (tag_bytes t) 0
unfolding with_checksum sum_from tag_bytes
with_checksum-same t = refl

pub with_checksum-Sealed :
    (t : Tag) (body : List ℕ)
    → Fits t
    → t.desc_crc_length ≤ length body
    → t.desc_crc ≡ crc_of (take t.desc_crc_length body) 0
    → Sealed (with_checksum t) body
unfolding Sealed Fits
with_checksum-Sealed t body fits inside crc =
    unfold with_checksum in
    (
      (
        fits.0,
        fits.1,
        sum_from-lt 0 (tag_bytes t) 0 (omega arith),
        fits.3,
        fits.4,
        fits.5,
        fits.6,
        fits.7,
      ),
      sym (with_checksum-same t),
      inside,
      crc,
    )

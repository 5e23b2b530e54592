-- ===== src/Fsck/Accepts.antt =====
-- The tests of udffsck on a tag against those of udflabel.
use udftools.Base.{
  ℕ, ◌+◌, ◌-◌, ◌≤◌, ◌≡◌, ◌↔◌, refl, sym, ap, ◌∙◌, List, ◌++◌, arith, ok, length, take, drop, true,
  false, leb, ◌==◌, ==_iff, take-append-drop, length-take, not, Bool, u16, ◌<◌, ◌^◌,
}
use udftools.Crc.{udf_crc}
use udftools.Crc.Whole.{crc_of, udf_crc-front}
use udftools.Tag.{Tag, tag_bytes, sum_from}
use udftools.Tag.Fits.{Fits, tag_of-tag_bytes}
use udftools.Tag.Sealed.{Sealed}
use udftools.Label.{check_desc}
use udftools.Label.Accepts.{check_desc-Sealed}
use udftools.Fsck.{calculate_checksum, checksum, calculate_crc, crc}

crc-front :
    (t : Tag) (body : List ℕ)
    → Fits t
    → t.desc_crc_length ≤ length body
    → t.desc_crc_length + 16 < 2 ^ 16
    → crc (tag_bytes t ++ body) (t.desc_crc_length + 16)
      ≡ ok (not (t.desc_crc == crc_of (take t.desc_crc_length body) 0))
unfolding crc calculate_crc
crc-front t body fits inside small =
    let n = t.desc_crc_length in
    let part = length-take n body inside in
    let size : n + 16 - 16 ≡ length (take n body) = omega arith in
    let least : leb 16 (n + 16) ≡ true = ground arith in
    let read : udf_crc body (length (take n body)) 0 ≡ ok (crc_of (take n body) 0) =
      ap (λ (l : List ℕ). udf_crc l (length (take n body)) 0) (sym (take-append-drop n body))
      ∙ udf_crc-front (take n body) (drop n body) 0 in
    let behind : drop 16 (tag_bytes t ++ body) ≡ body = unfold tag_bytes in refl in
    let kept : u16 (n + 16) ≡ n + 16 = omega arith in
    rw (kept, kept)
      (rw least (rw behind (rw size (rw read (rw (tag_of-tag_bytes t body fits) refl)))))

-- udffsck and udflabel agree: for a descriptor that is as long as its tag says, and at most 65535
-- bytes long, the checksum test and the CRC test of udffsck both pass exactly where `check_desc` of
-- udflabel accepts it.
pub checksum-check_desc :
    (t : Tag) (body : List ℕ)
    → Fits t
    → t.desc_crc_length ≤ length body
    → t.desc_crc_length + 16 < 2 ^ 16
    → let d = tag_bytes t ++ body in
      let size = t.desc_crc_length + 16 in
      (check_desc d size ≡ ok true) ↔ ((checksum t ≡ true) × (crc d size ≡ ok false))
unfolding checksum calculate_checksum Sealed Fits
checksum-check_desc t body fits inside small =
    let accepts =
      check_desc-Sealed t body (t.desc_crc_length + 16) fits inside (omega arith) (omega arith) in
    let sum = sum_from 0 (tag_bytes t) 0 in
    let value = crc_of (take t.desc_crc_length body) 0 in
    rw (crc-front t body fits inside small) (
      λ e.
          let s = accepts.0 e in
          (
            (==_iff sum t.tag_checksum).1 (sym s.1.1),
            ap (λ (b : Bool). ok (not b)) ((==_iff t.desc_crc value).1 s.1.3),
          ),
      λ (h : ((sum == t.tag_checksum) ≡ true) × (ok (not (t.desc_crc == value)) ≡ ok false)).
          accepts.1 (
            omega arith,
            (
              fits,
              sym ((==_iff sum t.tag_checksum).0 h.0),
              inside,
              (==_iff t.desc_crc value).0 (ground (arith, h.1)),
            ),
          ),
    )

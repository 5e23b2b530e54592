-- ===== src/Label/Detect.antt =====
-- What `check_desc` of udflabel refuses.
use udftools.Base.{
  ℕ, suc, ◌+◌, ◌≤◌, ◌<◌, ◌≡◌, ◌≢◌, sym, ap, ◌∙◌, List, ◌∷◌, ◌++◌, arith, ok, length, take, All,
  false, length-append, take-whole,
}
use udftools.Crc.{udf_crc}
use udftools.Crc.Whole.{crc_of, udf_crc-whole}
use udftools.Crc.Detect.{udf_crc-detects_byte}
use udftools.Tag.{Tag, tag_bytes}
use udftools.Tag.Fits.{Fits}
use udftools.Tag.Sealed.{Sealed}
use udftools.Label.{check_desc}
use udftools.Label.Accepts.{check_desc-tests}

same_size :
    (before after : List ℕ) (byte byte' : ℕ)
    → length (before ++ byte' ∷ after) ≡ length (before ++ byte ∷ after)
same_size before after byte byte' =
    omega (arith, length-append {0} before (byte' ∷ after), length-append {0} before (byte ∷ after))

-- A descriptor whose tag agrees with it and covers all of it is refused once any one byte behind the
-- tag has another value.
pub check_desc-detects_byte :
    (t : Tag) (before after : List ℕ) (byte byte' : ℕ)
    → Sealed t (before ++ byte ∷ after)
    → t.desc_crc_length ≡ length (before ++ byte ∷ after)
    → All (λ b. b < 256) before
    → All (λ b. b < 256) after
    → byte < 256
    → byte' < 256
    → byte ≢ byte'
    → let d = tag_bytes t ++ (before ++ byte' ∷ after) in check_desc d (length d) ≡ ok false
check_desc-detects_byte t before after byte byte' sealed covers small small' h h' ne =
    let old = before ++ byte ∷ after in
    let new = before ++ byte' ∷ after in
    let n = length before + suc (length after) in
    let size = same_size before after byte byte' in
    let count : length old ≡ n = length-append before (byte ∷ after) in
    let count' : length new ≡ n = length-append before (byte' ∷ after) in
    let fits : Fits t = unfold Sealed in sealed.0 in
    let whole : length (tag_bytes t ++ new) ≡ 16 + length new = unfold tag_bytes in omega arith in
    let inside : t.desc_crc_length ≤ length new = omega arith in
    let crc : t.desc_crc ≡ crc_of old 0 =
      unfold Sealed in
      sealed.3 ∙ ap (λ (l : List ℕ). crc_of l 0) (ap (λ k. take k old) covers ∙ take-whole old) in
    let crc' : crc_of (take t.desc_crc_length new) 0 ≡ crc_of new 0 =
      ap (λ (l : List ℕ). crc_of l 0) (ap (λ k. take k new) (covers ∙ sym size) ∙ take-whole new) in
    let differ : crc_of new 0 ≢ crc_of old 0 = λ e.
      udf_crc-detects_byte before after byte byte' 0 small small' h h' (omega arith) ne (
        ap (λ k. udf_crc old k 0) (sym count)
        ∙ udf_crc-whole old 0
        ∙ ap ok (sym e)
        ∙ sym (udf_crc-whole new 0)
        ∙ ap (λ k. udf_crc new k 0) count') in
    let fit : t.desc_crc_length < 65536 = unfold Fits in fits.6 in
    check_desc-tests t new (length (tag_bytes t ++ new)) fits inside (omega arith) (omega arith)
    ∙ ground (arith, crc, crc', differ)

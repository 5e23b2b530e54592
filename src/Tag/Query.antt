-- ===== src/Tag/Query.antt =====
-- The tags that mkudffs makes agree with the descriptors they are for.
use udftools.Base.{
  ℕ, ◌+◌, ◌-◌, ◌^◌, ◌≤◌, ◌<◌, ◌≡◌, refl, sym, ap, ◌∙◌, List, [], ◌∷◌, arith, ok, length, take, drop,
  Returns, ltb, u16, u32, ◌==◌, if◌then◌else◌, sub32, add32, take-whole, length-drop, length-take,
  take-append-drop, false,
}
use udftools.Extent.{Extent, Desc, Payload, has_type}
use udftools.Extent.SpaceType
use udftools.Crc.{udf_crc}
use udftools.Crc.Whole.{crc_of, crc_of-lt, udf_crc-front}
use udftools.Descs.Amount.{total}
use udftools.Tag.{new_tag, query_tag, udf_query_tag, crc_part, bytes_in}
use udftools.Tag.Fits.{Fits}
use udftools.Tag.Sealed.{Sealed, with_checksum-Sealed}
use udftools.Tag.Pieces.{contents, Whole, length-contents, crc_items-behind_tag}

new_tag-Fits :
    (udf_rev ident serial crc crc_length location : ℕ)
    → Fits (new_tag udf_rev ident serial crc crc_length location)
unfolding Fits new_tag
new_tag-Fits udf_rev ident serial crc crc_length location = (
  omega arith,
  ground arith,
  omega arith,
  omega arith,
  omega arith,
  omega arith,
  omega arith,
  omega arith,
)

-- The CRC of a new tag covers the bytes behind it.
new_tag-crc :
    (udf_rev ident serial crc_length location : ℕ) (body : List ℕ)
    → u16 crc_length ≡ length body
    → let t = new_tag udf_rev ident serial (crc_of body 0) crc_length location in
      (t.desc_crc_length ≤ length body) × (t.desc_crc ≡ crc_of (take t.desc_crc_length body) 0)
unfolding new_tag
new_tag-crc udf_rev ident serial crc_length location body size =
    let kept : u16 (crc_of body 0) ≡ crc_of body 0 =
      omega (arith, crc_of-lt body 0 (omega arith)) in
    (
      omega arith,
      kept ∙ ap (λ (t : List ℕ). crc_of t 0) (sym (ap (λ n. take n body) size ∙ take-whole body)),
    )

-- `query_tag` returns for a descriptor whose items hold the bytes that they say, and whose length is
-- their sum, at most 65535 bytes behind the tag. The tag agrees with these bytes and says where the
-- descriptor is: from the start of the partition in a partition, else from the start of the disc.
pub query_tag-Sealed :
    (udf_rev : ℕ) (ext : Extent) (desc : Desc) (serial : ℕ) (p : Payload) (r : List Payload)
    → desc.payload ≡ p ∷ r
    → Whole (p ∷ r)
    → 16 ≤ p.length
    → desc.length ≡ total (p ∷ r)
    → desc.length < 65552
    → Returns (query_tag udf_rev ext desc serial) (λ t.
      Sealed t (drop 16 (contents (p ∷ r)))
      × (t.tag_ident ≡ u16 desc.ident)
      × (t.tag_serial_num ≡ u16 serial)
      × (t.desc_crc_length ≡ desc.length - 16)
      × (t.tag_location
          ≡ u32
              (if has_type ext SpaceType.pspace then desc.offset else add32 ext.start desc.offset)))
unfolding query_tag
query_tag-Sealed udf_rev ext desc serial p r items whole large sum small =
    let body = drop 16 (contents (p ∷ r)) in
    let location =
      if has_type ext SpaceType.pspace then desc.offset else add32 ext.start desc.offset in
    let least : 16 ≤ desc.length = unfold total in omega arith in
    let size : u16 (desc.length + 2 ^ 64 - 16) ≡ length body =
      omega (arith, length-drop {0} 16 (contents (p ∷ r)), length-contents (p ∷ r) whole) in
    let crc =
      new_tag-crc udf_rev desc.ident serial (desc.length + 2 ^ 64 - 16) location body size in
    let fits =
      new_tag-Fits udf_rev desc.ident serial (crc_of body 0) (desc.length + 2 ^ 64 - 16) location in
    rw items (
      rw (crc_items-behind_tag p r whole large) (
        with_checksum-Sealed
            (new_tag udf_rev desc.ident serial (crc_of body 0) (desc.length + 2 ^ 64 - 16) location)
            body fits crc.0 crc.1,
        refl,
        refl,
        omega arith,
        refl,
      ))

crc_part-end : (skip offset crc : ℕ) (l : List Payload) → crc_part skip offset 0 crc l ≡ ok crc
unfolding crc_part
crc_part-end skip offset crc [] = refl
crc_part-end skip offset crc (p ∷ r) = refl

-- `udf_query_tag` returns for a descriptor of 16 to 65551 bytes that lies in the first item, from
-- `skip` on, and the tag agrees with the bytes of the descriptor behind the tag.
pub udf_query_tag-Sealed :
    (udf_rev ident serial location skip length' : ℕ) (p : Payload) (r : List Payload)
    → Whole (p ∷ r)
    → skip + length' ≤ p.length
    → 16 ≤ length'
    → length' < 65552
    → Returns (udf_query_tag udf_rev ident serial location (p ∷ r) skip length') (λ t.
      Sealed t (take (length' - 16) (drop (skip + 16) (bytes_in p)))
      × (t.tag_ident ≡ u16 ident)
      × (t.tag_location ≡ u32 location)
      × (t.desc_crc_length ≡ length' - 16))
unfolding udf_query_tag crc_part Whole
udf_query_tag-Sealed udf_rev ident serial location skip length' p r whole inside large small =
    let behind = drop (skip + 16) (bytes_in p) in
    let body = take (length' - 16) behind in
    let more : (length' == 0) ≡ false = ground arith in
    let clength : (if ltb length' (u32 p.length) then length' else u32 p.length) ≡ length' =
      ground (arith, whole) in
    let room = length-drop {0} (skip + 16) (bytes_in p) in
    let long : length body ≡ length' - 16 =
      length-take (length' - 16) behind (omega (arith, whole)) in
    let count : sub32 length' 16 ≡ length body = omega arith in
    let none_left : sub32 length' length' ≡ 0 = omega arith in
    let size : u16 (length' + 2 ^ 64 - 16) ≡ length body = omega arith in
    let crc : udf_crc behind (length body) 0 ≡ ok (crc_of body 0) =
      ap (λ t. udf_crc t (length body) 0) (sym (take-append-drop (length' - 16) behind))
      ∙ udf_crc-front body (drop (length' - 16) behind) 0 in
    let same = new_tag-crc udf_rev ident serial (length' + 2 ^ 64 - 16) location body size in
    let fits = new_tag-Fits udf_rev ident serial (crc_of body 0) (length' + 2 ^ 64 - 16) location in
    rw more (
      rw clength (
        rw count (
          rw crc (
            rw none_left (
              rw (crc_part-end 0 0 (crc_of body 0) r) (
                with_checksum-Sealed
                    (new_tag udf_rev ident serial (crc_of body 0) (length' + 2 ^ 64 - 16) location)
                    body fits same.0 same.1,
                refl,
                refl,
                omega arith,
              ))))))

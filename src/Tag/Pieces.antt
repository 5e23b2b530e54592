-- ===== src/Tag/Pieces.antt =====
-- The CRC of a descriptor whose bytes are spread over several data items.
use udftools.Base.{
  ℕ, ◌+◌, ◌-◌, ◌^◌, ◌≤◌, ◌<◌, ◌≡◌, refl, sym, ap, ◌∙◌, List, [], ◌∷◌, ◌++◌, arith, length, drop, ok,
  u32, length-append, length-drop, drop-append,
}
use udftools.Extent.{Payload}
use udftools.Crc.Whole.{crc_of, crc_of-append, udf_crc-whole}
use udftools.Tag.{bytes_in, crc_items}
use udftools.Descs.Amount.{total}

-- The bytes of a descriptor, one item behind the other.
unfoldable pub contents : List Payload → List ℕ
unfolding bytes_in
contents [] = []
contents (p ∷ r) = bytes_in p ++ contents r

-- Every item points to as many bytes as it says, fewer than 2 ^ 32.
unfoldable pub Whole : List Payload → Type 0
Whole [] = Unit {0}
Whole (p ∷ r) = (p.length ≡ length (bytes_in p)) × (p.length < 2 ^ 32) × Whole r

pub crc_items-contents :
    (crc : ℕ) (l : List Payload) → Whole l → crc_items 0 crc l ≡ ok (crc_of (contents l) crc)
unfolding crc_items contents Whole crc_of
crc_items-contents crc [] whole = refl
crc_items-contents crc (p ∷ r) whole =
    let size : u32 (p.length + 2 ^ 64 - 0) ≡ length (bytes_in p) =
      omega (arith, whole.0, whole.1) in
    rw size (
      rw (udf_crc-whole (bytes_in p) crc) (
        crc_items-contents (crc_of (bytes_in p) crc) r whole.2
        ∙ ap ok (sym (crc_of-append (bytes_in p) (contents r) crc))))

pub length-contents : (l : List Payload) → Whole l → length (contents l) ≡ total l
unfolding contents Whole total
length-contents [] whole = refl
length-contents (p ∷ r) whole =
    omega (arith, length-append {0} (bytes_in p) (contents r), length-contents r whole.2)

-- The CRC of all bytes behind the tag, where the tag lies in the first item.
pub crc_items-behind_tag :
    (p : Payload) (r : List Payload)
    → Whole (p ∷ r)
    → 16 ≤ p.length
    → crc_items 16 0 (p ∷ r) ≡ ok (crc_of (drop 16 (contents (p ∷ r))) 0)
unfolding crc_items contents Whole
crc_items-behind_tag p r whole large =
    let bytes = bytes_in p in
    let size : u32 (p.length + 2 ^ 64 - 16) ≡ length (drop 16 bytes) =
      omega (arith, whole.0, whole.1, length-drop {0} 16 bytes) in
    rw size (
      rw (udf_crc-whole (drop 16 bytes) 0) (
        crc_items-contents (crc_of (drop 16 bytes) 0) r whole.2
        ∙ ap ok (sym (crc_of-append (drop 16 bytes) (contents r) 0))
        ∙ ap (λ (t : List ℕ). ok (crc_of t 0))
            (sym (drop-append 16 bytes (contents r) (omega arith)))))

-- ===== src/Crc/Detect.antt =====
-- What the CRC of crc.c detects: the steps are injective, so a change of one byte shows.
use udftools.Base.{
  ℕ, suc, ◌+◌, ◌*◌, ◌/◌, ◌%◌, ◌<◌, ◌≡◌, ◌≢◌, refl, sym, ap, ◌∙◌, arith, bit_xor, ◌==◌, List, [],
  ◌∷◌, ◌++◌, get_or, length, All, holds_below, true, holds_below-at, ==_iff,
}
use udftools.Base.Bits.{bit_and_mask, bit_xor_fields, bit_xor_cancel, bit_xor_comm, bit_xor-lt}
use udftools.Crc.{crc_table, crc_step, udf_crc}
use udftools.Crc.Generate.{crc_table-lt}
use udftools.Crc.Serial.{bit_xor-zero, u16-bit_xor, crc_step-lt}

-- The low bytes of the table's entries are all different: this is where each one stands.
low_index : List ℕ
low_index =
    0x00 ∷ 0x23 ∷ 0x46 ∷ 0x65 ∷ 0x8c ∷ 0xaf ∷ 0xca ∷ 0xe9 ∷ 0x08 ∷ 0x2b ∷ 0x4e ∷ 0x6d ∷ 0x84 ∷ 0xa7
    ∷ 0xc2 ∷ 0xe1 ∷ 0x11 ∷ 0x32 ∷ 0x57 ∷ 0x74 ∷ 0x9d ∷ 0xbe ∷ 0xdb ∷ 0xf8 ∷ 0x19 ∷ 0x3a ∷ 0x5f
    ∷ 0x7c ∷ 0x95 ∷ 0xb6 ∷ 0xd3 ∷ 0xf0 ∷ 0x22 ∷ 0x01 ∷ 0x64 ∷ 0x47 ∷ 0xae ∷ 0x8d ∷ 0xe8 ∷ 0xcb
    ∷ 0x2a ∷ 0x09 ∷ 0x6c ∷ 0x4f ∷ 0xa6 ∷ 0x85 ∷ 0xe0 ∷ 0xc3 ∷ 0x33 ∷ 0x10 ∷ 0x75 ∷ 0x56 ∷ 0xbf
    ∷ 0x9c ∷ 0xf9 ∷ 0xda ∷ 0x3b ∷ 0x18 ∷ 0x7d ∷ 0x5e ∷ 0xb7 ∷ 0x94 ∷ 0xf1 ∷ 0xd2 ∷ 0x44 ∷ 0x67
    ∷ 0x02 ∷ 0x21 ∷ 0xc8 ∷ 0xeb ∷ 0x8e ∷ 0xad ∷ 0x4c ∷ 0x6f ∷ 0x0a ∷ 0x29 ∷ 0xc0 ∷ 0xe3 ∷ 0x86
    ∷ 0xa5 ∷ 0x55 ∷ 0x76 ∷ 0x13 ∷ 0x30 ∷ 0xd9 ∷ 0xfa ∷ 0x9f ∷ 0xbc ∷ 0x5d ∷ 0x7e ∷ 0x1b ∷ 0x38
    ∷ 0xd1 ∷ 0xf2 ∷ 0x97 ∷ 0xb4 ∷ 0x66 ∷ 0x45 ∷ 0x20 ∷ 0x03 ∷ 0xea ∷ 0xc9 ∷ 0xac ∷ 0x8f ∷ 0x6e
    ∷ 0x4d ∷ 0x28 ∷ 0x0b ∷ 0xe2 ∷ 0xc1 ∷ 0xa4 ∷ 0x87 ∷ 0x77 ∷ 0x54 ∷ 0x31 ∷ 0x12 ∷ 0xfb ∷ 0xd8
    ∷ 0xbd ∷ 0x9e ∷ 0x7f ∷ 0x5c ∷ 0x39 ∷ 0x1a ∷ 0xf3 ∷ 0xd0 ∷ 0xb5 ∷ 0x96 ∷ 0x88 ∷ 0xab ∷ 0xce
    ∷ 0xed ∷ 0x04 ∷ 0x27 ∷ 0x42 ∷ 0x61 ∷ 0x80 ∷ 0xa3 ∷ 0xc6 ∷ 0xe5 ∷ 0x0c ∷ 0x2f ∷ 0x4a ∷ 0x69
    ∷ 0x99 ∷ 0xba ∷ 0xdf ∷ 0xfc ∷ 0x15 ∷ 0x36 ∷ 0x53 ∷ 0x70 ∷ 0x91 ∷ 0xb2 ∷ 0xd7 ∷ 0xf4 ∷ 0x1d
    ∷ 0x3e ∷ 0x5b ∷ 0x78 ∷ 0xaa ∷ 0x89 ∷ 0xec ∷ 0xcf ∷ 0x26 ∷ 0x05 ∷ 0x60 ∷ 0x43 ∷ 0xa2 ∷ 0x81
    ∷ 0xe4 ∷ 0xc7 ∷ 0x2e ∷ 0x0d ∷ 0x68 ∷ 0x4b ∷ 0xbb ∷ 0x98 ∷ 0xfd ∷ 0xde ∷ 0x37 ∷ 0x14 ∷ 0x71
    ∷ 0x52 ∷ 0xb3 ∷ 0x90 ∷ 0xf5 ∷ 0xd6 ∷ 0x3f ∷ 0x1c ∷ 0x79 ∷ 0x5a ∷ 0xcc ∷ 0xef ∷ 0x8a ∷ 0xa9
    ∷ 0x40 ∷ 0x63 ∷ 0x06 ∷ 0x25 ∷ 0xc4 ∷ 0xe7 ∷ 0x82 ∷ 0xa1 ∷ 0x48 ∷ 0x6b ∷ 0x0e ∷ 0x2d ∷ 0xdd
    ∷ 0xfe ∷ 0x9b ∷ 0xb8 ∷ 0x51 ∷ 0x72 ∷ 0x17 ∷ 0x34 ∷ 0xd5 ∷ 0xf6 ∷ 0x93 ∷ 0xb0 ∷ 0x59 ∷ 0x7a
    ∷ 0x1f ∷ 0x3c ∷ 0xee ∷ 0xcd ∷ 0xa8 ∷ 0x8b ∷ 0x62 ∷ 0x41 ∷ 0x24 ∷ 0x07 ∷ 0xe6 ∷ 0xc5 ∷ 0xa0
    ∷ 0x83 ∷ 0x6a ∷ 0x49 ∷ 0x2c ∷ 0x0f ∷ 0xff ∷ 0xdc ∷ 0xb9 ∷ 0x9a ∷ 0x73 ∷ 0x50 ∷ 0x35 ∷ 0x16
    ∷ 0xf7 ∷ 0xd4 ∷ 0xb1 ∷ 0x92 ∷ 0x7b ∷ 0x58 ∷ 0x3d ∷ 0x1e ∷ []

entry : ℕ → ℕ
entry n = get_or crc_table n 0

low_index_checked : holds_below (λ n. get_or low_index (entry n % 256) 0 == n) 256 ≡ true
unfolding holds_below crc_table low_index entry
low_index_checked = refl

entry-injective : (m n : ℕ) → m < 256 → n < 256 → entry m % 256 ≡ entry n % 256 → m ≡ n
entry-injective m n p q e = sym (at m p) ∙ ap (λ (t : ℕ). get_or low_index t 0) e ∙ at n q
  where
    at : (k : ℕ) → k < 256 → get_or low_index (entry k % 256) 0 ≡ k
    at k h =
        (==_iff _ _).0
          (holds_below-at (λ n. get_or low_index (entry n % 256) 0 == n) 256 k h low_index_checked)

bit_xor-injective : (a b c : ℕ) → bit_xor a b ≡ bit_xor a c → b ≡ c
bit_xor-injective a b c e = sym (bit_xor_cancel a b) ∙ ap (bit_xor a) e ∙ bit_xor_cancel a c

bit_xor-injective_left : (a b c : ℕ) → bit_xor b a ≡ bit_xor c a → b ≡ c
bit_xor-injective_left a b c e = bit_xor-injective a b c (bit_xor_comm a b ∙ e ∙ bit_xor_comm c a)

-- The two bytes of a step's result.
crc_step_bytes :
    (crc byte : ℕ)
    → crc < 65536
    → byte < 256
    → let e = entry (bit_xor (crc / 256) byte) in
      crc_step crc byte ≡ bit_xor (e / 256) (crc % 256) * 256 + e % 256
unfolding crc_step entry
crc_step_bytes crc byte p h =
    let t = bit_xor (crc / 256) byte in
    let t_small : t < 256 = bit_xor-lt 8 (crc / 256) byte (omega arith) h in
    let e = get_or crc_table t 0 in
    ground (
      arith,
      bit_and_mask 8 t,
      crc_table-lt t t_small,
      bit_xor_comm e (crc * 256),
      u16-bit_xor (crc * 256) e (crc_table-lt t t_small),
      bit_xor_comm (crc % 256 * 256) e,
      bit_xor_fields 8 (e / 256) (crc % 256) (e % 256) 0,
      bit_xor-zero (e % 256),
    )

-- Steps from two remainders on two bytes agree only if both parts agree.
crc_step-parts :
    (crc crc' byte byte' : ℕ)
    → crc < 65536
    → crc' < 65536
    → byte < 256
    → byte' < 256
    → crc_step crc byte ≡ crc_step crc' byte'
    → (bit_xor (crc / 256) byte ≡ bit_xor (crc' / 256) byte') × (crc % 256 ≡ crc' % 256)
unfolding entry
crc_step-parts crc crc' byte byte' p p' h h' e =
    let t = bit_xor (crc / 256) byte in
    let t' = bit_xor (crc' / 256) byte' in
    let t_small : t < 256 = bit_xor-lt 8 (crc / 256) byte (omega arith) h in
    let t'_small : t' < 256 = bit_xor-lt 8 (crc' / 256) byte' (omega arith) h' in
    let same = sym (crc_step_bytes crc byte p h) ∙ e ∙ crc_step_bytes crc' byte' p' h' in
    let index : t ≡ t' = entry-injective t t' t_small t'_small (omega arith) in
    let top : bit_xor (entry t / 256) (crc % 256) ≡ bit_xor (entry t' / 256) (crc' % 256) =
      omega arith in
    (
      index,
      bit_xor-injective (entry t / 256) (crc % 256) (crc' % 256)
          (top ∙ ap (λ (k : ℕ). bit_xor (entry k / 256) (crc' % 256)) (sym index)),
    )

crc_step-ne_byte :
    (crc byte byte' : ℕ)
    → crc < 65536
    → byte < 256
    → byte' < 256
    → byte ≢ byte'
    → crc_step crc byte ≢ crc_step crc byte'
crc_step-ne_byte crc byte byte' p h h' ne e =
    ne (bit_xor-injective (crc / 256) byte byte' (crc_step-parts crc crc byte byte' p p h h' e).0)

crc_step-ne_crc :
    (crc crc' byte : ℕ)
    → crc < 65536
    → crc' < 65536
    → byte < 256
    → crc ≢ crc'
    → crc_step crc byte ≢ crc_step crc' byte
crc_step-ne_crc crc crc' byte p p' h ne e =
    let parts = crc_step-parts crc crc' byte byte p p' h h e in
    let high : crc / 256 ≡ crc' / 256 =
      bit_xor-injective_left byte (crc / 256) (crc' / 256) parts.0 in
    ne (omega arith)

udf_crc-ne_crc :
    (bytes : List ℕ) (crc crc' : ℕ)
    → All (λ b. b < 256) bytes
    → crc < 65536
    → crc' < 65536
    → crc ≢ crc'
    → udf_crc bytes (length bytes) crc ≢ udf_crc bytes (length bytes) crc'
unfolding udf_crc
udf_crc-ne_crc [] crc crc' small p p' ne = λ e. ne (cc)
udf_crc-ne_crc (byte ∷ bytes) crc crc' small p p' ne =
    udf_crc-ne_crc bytes (crc_step crc byte) (crc_step crc' byte) small.1 (crc_step-lt crc byte)
      (crc_step-lt crc' byte) (crc_step-ne_crc crc crc' byte p p' small.0 ne)

-- Two blocks of bytes that differ in exactly one byte have different CRCs, from any start value.
pub udf_crc-detects_byte :
    (before after : List ℕ) (byte byte' crc : ℕ)
    → All (λ b. b < 256) before
    → All (λ b. b < 256) after
    → byte < 256
    → byte' < 256
    → crc < 65536
    → byte ≢ byte'
    → udf_crc (before ++ byte ∷ after) (length before + suc (length after)) crc
      ≢ udf_crc (before ++ byte' ∷ after) (length before + suc (length after)) crc
unfolding udf_crc
udf_crc-detects_byte [] after byte byte' crc small small' h h' p ne =
    let size : 0 + suc (length after) ≡ suc (length after) = omega arith in
    rw size (
      udf_crc-ne_crc after (crc_step crc byte) (crc_step crc byte') small' (crc_step-lt crc byte)
        (crc_step-lt crc byte') (crc_step-ne_byte crc byte byte' p h h' ne))
udf_crc-detects_byte (x ∷ before) after byte byte' crc small small' h h' p ne =
    let size : suc (length before) + suc (length after) ≡ suc (length before + suc (length after)) =
      omega arith in
    rw size (
      udf_crc-detects_byte before after byte byte' (crc_step crc x) small.1 small' h h'
        (crc_step-lt crc x) ne)

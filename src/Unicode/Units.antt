-- ===== src/Unicode/Units.antt =====
-- The loop of `decode_utf8` at the bytes that `encode_utf8` writes for a character.
use udftools.Base.{
  ℕ, suc, ◌+◌, ◌-◌, ◌/◌, ◌%◌, ◌≤◌, ◌<◌, ◌≡◌, refl, ap, ◌∙◌, ◌⊎◌, inl, Bool, true, false, ◌&&◌,
  Option, none, List, [], ◌∷◌, ◌++◌, arith, leb, ◌==◌, if◌then◌else◌, bit_and, bit_or, ◌<<<◌, ◌>>>◌,
  u8, Run, ok, length,
}
use udftools.Base.Bits.{bit_and_mask, bit_or_fields}
use udftools.Unicode.{
  take_unit, take_char, utf8_of, written, decode_loop, high_surrogate, low_surrogate, pair_bytes,
}

-- A character: neither 0 nor a surrogate.
abbrev pub Scalar : ℕ → Type 0
Scalar c = (0 < c) × (c < 0x110000) × ((c < 0xD800) ⊎ (0xDFFF < c))

take_char-single : (c : ℕ) (r : List ℕ) → (c < 0xD800) ⊎ (0xDBFF < c) → take_char c r ≡ (c, r)
unfolding take_char
take_char-single c [] h = refl
take_char-single c (b ∷ []) h = refl
take_char-single c (b ∷ low ∷ r) h =
    let next = bit_or (b <<< 8) low in
    let single : (leb 0xD800 c && leb c 0xDBFF && leb 0xDC00 next && leb next 0xDFFF) ≡ false =
      ground arith in
    rw single refl

-- Two bytes as a unit.
unit_of : (c : ℕ) → c < 0x10000 → bit_or (u8 (c >>> 8) <<< 8) (bit_and c 0xFF) ≡ c
unit_of c h =
    let low : bit_and c 0xFF ≡ c % 256 = bit_and_mask 8 c in
    let high : u8 (c >>> 8) ≡ c / 256 = omega arith in
    rw low (rw high (bit_or_fields (c / 256) 8 (c % 256) (omega arith) ∙ omega arith))

unit_of_masked : (c : ℕ) → c < 0x10000 → bit_or (bit_and (c >>> 8) 0xFF <<< 8) (bit_and c 0xFF) ≡ c
unit_of_masked c h =
    let same : bit_and (c >>> 8) 0xFF ≡ u8 (c >>> 8) = bit_and_mask 8 (c >>> 8) in
    rw same (unit_of c h)

take_char-pair :
    (c b low : ℕ) (r : List ℕ)
    → 0x10000 ≤ c
    → c < 0x110000
    → bit_or (b <<< 8) low ≡ low_surrogate c
    → take_char (high_surrogate c) (b ∷ low ∷ r) ≡ (c, r)
unfolding take_char
take_char-pair c b low r h h' joined =
    let rest : bit_and (c - 0x10000) 0x3FF ≡ (c - 0x10000) % 1024 = bit_and_mask 10 (c - 0x10000) in
    let pair : (leb 0xD800 (high_surrogate c)
          && leb (high_surrogate c) 0xDBFF
          && leb 0xDC00 (low_surrogate c)
          && leb (low_surrogate c) 0xDFFF)
        ≡ true =
      ground arith in
    rw joined (rw pair (ap (λ x. (x, r)) (ground arith)))

module _ (fuel n len : ℕ) where
  -- The rest of the loop behind a character.
  abbrev pub behind_char : Bool → ℕ → List ℕ → Run (Option (List ℕ))
  behind_char wide c q =
      if leb n (len + length (utf8_of c))
      then ok none
      else written (utf8_of c) (decode_loop fuel wide n (len + length (utf8_of c)) q)

  pub step_narrow :
      (c : ℕ) (q : List ℕ)
      → 0 < c
      → c ≤ 0xFF
      → decode_loop (suc fuel) false n len (bit_and c 0xFF ∷ q) ≡ behind_char false c q
  unfolding decode_loop take_unit
  step_narrow c q pos h =
      let same : bit_and c 0xFF ≡ c = bit_and_mask 8 c ∙ omega arith in
      let more : (c == 0) ≡ false = ground arith in
      rw same (rw (take_char-single c q (inl (omega arith))) (rw more refl))

  pub step_wide :
      (c : ℕ) (q : List ℕ)
      → 0 < c
      → c < 0x10000
      → (c < 0xD800) ⊎ (0xDFFF < c)
      → decode_loop (suc fuel) true n len (u8 (c >>> 8) ∷ bit_and c 0xFF ∷ q) ≡ behind_char true c q
  unfolding decode_loop take_unit
  step_wide c q pos h single =
      let more : (c == 0) ≡ false = ground arith in
      rw (unit_of c h) (rw (take_char-single c q (ground arith)) (rw more refl))

  pub step_pair :
      (c : ℕ) (q : List ℕ)
      → 0x10000 ≤ c
      → c < 0x110000
      → decode_loop (suc fuel) true n len (pair_bytes c ++ bit_and (low_surrogate c) 0xFF ∷ q)
        ≡ behind_char true c q
  unfolding decode_loop take_unit
  step_pair c q h h' =
      let bound : bit_and (c - 0x10000) 0x3FF < 1024 =
        ground (arith, bit_and_mask 10 (c - 0x10000)) in
      let more : (high_surrogate c == 0) ≡ false = ground arith in
      rw (unit_of_masked (high_surrogate c) (omega arith)) (
        rw
          (take_char-pair c (u8 (low_surrogate c >>> 8)) (bit_and (low_surrogate c) 0xFF) q h h'
            (unit_of (low_surrogate c) (omega arith)))
          (rw more refl))

-- ===== src/Unicode/Chars.antt =====
-- The loop of `encode_utf8` at a whole character of UTF-8.
use udftools.Base.{
  ℕ, ◌+◌, ◌*◌, ◌/◌, ◌%◌, ◌≤◌, ◌<◌, ◌≡◌, refl, ap, ◌∙◌, inl, inr, true, false, List, [], ◌∷◌, ◌++◌,
  arith, ltb, ◌>>>◌, length, Bool-cases,
}
use udftools.Unicode.{
  Step, more, char, bad, Pass, invalid, then_pass, take_byte, utf8_of, put_char, encode_pass,
}
use udftools.Unicode.Bytes.{
  next_byte, first_of_two, first_of_three, first_of_four, take_ascii, take_two, take_three,
  take_four, take_last, take_next,
}

-- What is written for a character, by ranges.
utf8_of-one : (c : ℕ) → c < 0x80 → utf8_of c ≡ c ∷ []
unfolding utf8_of
utf8_of-one c h =
    let low : ltb c 0x80 ≡ true = ground arith in rw low (ap (λ x. x ∷ []) (omega arith))

utf8_of-two : (c : ℕ) → 0x80 ≤ c → c < 0x800 → utf8_of c ≡ (0xc0 + c / 64) ∷ (0x80 + c % 64) ∷ []
unfolding utf8_of
utf8_of-two c h h' =
    let one : ltb c 0x80 ≡ false = ground arith in
    let two : ltb c 0x800 ≡ true = ground arith in
    rw one (rw two (rw (first_of_two (c >>> 6) (omega arith)) (rw (next_byte c) refl)))

utf8_of-three :
    (c : ℕ)
    → 0x800 ≤ c
    → c < 0x10000
    → utf8_of c ≡ (0xe0 + c / 4096) ∷ (0x80 + c / 64 % 64) ∷ (0x80 + c % 64) ∷ []
unfolding utf8_of
utf8_of-three c h h' =
    let one : ltb c 0x80 ≡ false = ground arith in
    let two : ltb c 0x800 ≡ false = ground arith in
    let three : ltb c 0x10000 ≡ true = ground arith in
    rw one (
      rw two (
        rw three (
          rw (first_of_three (c >>> 12) (omega arith))
            (rw (next_byte (c >>> 6)) (rw (next_byte c) refl)))))

utf8_of-four :
    (c : ℕ)
    → 0x10000 ≤ c
    → c < 0x110000
    → utf8_of c
      ≡ (0xf0 + c / 262144) ∷ (0x80 + c / 4096 % 64) ∷ (0x80 + c / 64 % 64) ∷ (0x80 + c % 64) ∷ []
unfolding utf8_of
utf8_of-four c h h' =
    let one : ltb c 0x80 ≡ false = ground arith in
    let two : ltb c 0x800 ≡ false = ground arith in
    let three : ltb c 0x10000 ≡ false = ground arith in
    rw one (
      rw two (
        rw three (
          rw (first_of_four (c >>> 18) (omega arith))
            (rw (next_byte (c >>> 12)) (rw (next_byte (c >>> 6)) (rw (next_byte c) refl))))))

module _ (outlen limit len : ℕ) where
  -- The pass behind a complete character.
  abbrev pub after_char : ℕ → List ℕ → Pass
  after_char c r =
      then_pass (put_char outlen limit len c)
        (λ bytes. encode_pass outlen limit 0 c (len + length bytes) r)

  -- What the loop does after a byte.
  abbrev on_step : List ℕ → Step → Pass
  on_step r (more k v) = encode_pass outlen limit k v len r
  on_step r (char v) = after_char v r
  on_step r bad = invalid

  pass-on_step :
      (cnt u x : ℕ) (r : List ℕ)
      → encode_pass outlen limit cnt u len (x ∷ r) ≡ on_step r (take_byte cnt u x)
  unfolding encode_pass
  pass-on_step cnt u x r =
      elim (take_byte cnt u x)
        as (λ s.
          (elim s [
            | more k v ↦ encode_pass outlen limit k v len r
            | char v ↦ after_char v r
            | bad ↦ invalid
          ])
          ≡ on_step r s) [ more k v ↦ refl | char v ↦ refl | bad ↦ refl ]

  pass_more :
      (cnt u x k v : ℕ) (r : List ℕ)
      → take_byte cnt u x ≡ more k v
      → encode_pass outlen limit cnt u len (x ∷ r) ≡ encode_pass outlen limit k v len r
  pass_more cnt u x k v r h = pass-on_step cnt u x r ∙ ap (on_step r) h

  pass_char :
      (cnt u x c : ℕ) (r : List ℕ)
      → take_byte cnt u x ≡ char c
      → encode_pass outlen limit cnt u len (x ∷ r) ≡ after_char c r
  pass_char cnt u x c r h = pass-on_step cnt u x r ∙ ap (on_step r) h

  pass_two :
      (u a b : ℕ) (r : List ℕ)
      → a < 32
      → b < 64
      → encode_pass outlen limit 0 u len ((0xc0 + a) ∷ (0x80 + b) ∷ r) ≡ after_char (a * 64 + b) r
  pass_two u a b r h h' =
      pass_more 0 u (0xc0 + a) 1 a ((0x80 + b) ∷ r) (take_two u a h)
      ∙ pass_char 1 a (0x80 + b) (a * 64 + b) r (take_last a b (omega arith) h')

  pass_three :
      (u a b c : ℕ) (r : List ℕ)
      → a < 16
      → b < 64
      → c < 64
      → encode_pass outlen limit 0 u len ((0xe0 + a) ∷ (0x80 + b) ∷ (0x80 + c) ∷ r)
        ≡ after_char ((a * 64 + b) * 64 + c) r
  pass_three u a b c r h h' h'' =
      pass_more 0 u (0xe0 + a) 2 a ((0x80 + b) ∷ (0x80 + c) ∷ r) (take_three u a h)
      ∙ pass_more 2 a (0x80 + b) 1 (a * 64 + b) ((0x80 + c) ∷ r) (take_next 0 a b (omega arith) h')
      ∙ pass_char 1 (a * 64 + b) (0x80 + c) ((a * 64 + b) * 64 + c) r
          (take_last (a * 64 + b) c (omega arith) h'')

  pass_four :
      (u a b c d : ℕ) (r : List ℕ)
      → a < 8
      → b < 64
      → c < 64
      → d < 64
      → encode_pass outlen limit 0 u len ((0xf0 + a) ∷ (0x80 + b) ∷ (0x80 + c) ∷ (0x80 + d) ∷ r)
        ≡ after_char (((a * 64 + b) * 64 + c) * 64 + d) r
  pass_four u a b c d r h h' h'' h3 =
      pass_more 0 u (0xf0 + a) 3 a ((0x80 + b) ∷ (0x80 + c) ∷ (0x80 + d) ∷ r) (take_four u a h)
      ∙ pass_more 3 a (0x80 + b) 2 (a * 64 + b) ((0x80 + c) ∷ (0x80 + d) ∷ r)
          (take_next 1 a b (omega arith) h')
      ∙ pass_more 2 (a * 64 + b) (0x80 + c) 1 ((a * 64 + b) * 64 + c) ((0x80 + d) ∷ r)
          (take_next 0 (a * 64 + b) c (omega arith) h'')
      ∙ pass_char 1 ((a * 64 + b) * 64 + c) (0x80 + d) (((a * 64 + b) * 64 + c) * 64 + d) r
          (take_last ((a * 64 + b) * 64 + c) d (omega arith) h3)

  -- A character in UTF-8 is read back.
  pub pass-utf8_of :
      (u c : ℕ) (r : List ℕ)
      → c < 0x110000
      → encode_pass outlen limit 0 u len (utf8_of c ++ r) ≡ after_char c r
  pass-utf8_of u c r h = elim (Bool-cases (ltb c 0x80)) [
    | inl one ↦
        rw (utf8_of-one c (ground arith)) (pass_char 0 u c c r (take_ascii u c (ground arith)))
    | inr longer ↦ elim (Bool-cases (ltb c 0x800)) [
      | inl two ↦ rw (utf8_of-two c (ground arith) (ground arith)) (
          pass_two u (c / 64) (c % 64) r (ground arith) (omega arith)
          ∙ ap (λ x. after_char x r) (omega arith))
      | inr longer ↦ elim (Bool-cases (ltb c 0x10000)) [
        | inl three ↦ rw (utf8_of-three c (ground arith) (ground arith)) (
            pass_three u (c / 4096) (c / 64 % 64) (c % 64) r (ground arith) (omega arith)
              (omega arith)
            ∙ ap (λ x. after_char x r) (omega arith))
        | inr four ↦ rw (utf8_of-four c (ground arith) h) (
            pass_four u (c / 262144) (c / 4096 % 64) (c / 64 % 64) (c % 64) r (omega arith)
              (omega arith) (omega arith) (omega arith)
            ∙ ap (λ x. after_char x r) (omega arith))
      ]
    ]
  ]

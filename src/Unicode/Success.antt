-- ===== src/Unicode/Success.antt =====
-- `encode_utf8` succeeds where there is room for the longest form, and so the round trip does.
use udftools.Base.{
  ℕ, zero, suc, ◌+◌, ◌≤◌, ◌<◌, ◌^◌, ◌≡◌, refl, ◌⊎◌, inl, inr, true, false, Option, none, some, List,
  [], ◌∷◌, arith, ltb, ◌==◌, bit_and, ◌>>>◌, u8, Run, ok, exit_failure, fault, out_of_fuel, Returns,
  length, length-append, Bool-cases, All,
}
use udftools.Unicode.{
  Pass, done, again, failed, invalid, overrun, behind, then_pass, put_low, put_char, encode_pass,
  mark_of, encode_from, encode_utf8, decode_utf8, low_surrogate, pair_bytes,
}
use udftools.Unicode.Chars.{pass-utf8_of}
use udftools.Unicode.Units.{Scalar}
use udftools.Unicode.RoundTrip.{text_of, Back, encode_utf8-Back}

-- A pass goes on, with at most `most` bytes, or it starts again for the wider units.
abbrev Going : ℕ → ℕ → Pass → Type 0
Going most limit (done p) = length p ≤ most
Going most limit (again l) = (limit ≡ 0x7F) × (l ≡ 0x10FFFF)
Going most limit failed = ⊥
Going most limit invalid = ⊥
Going most limit overrun = ⊥

module _ (outlen limit len : ℕ) (first : (limit ≡ 0x7F) ⊎ (limit ≡ 0x10FFFF)) where
  put_low-Going :
      (b : List ℕ) (u : ℕ)
      → length b ≤ 3
      → len + length b + 1 ≤ outlen
      → Going 4 limit (put_low outlen len b u)
  unfolding put_low
  put_low-Going b u h room =
      let fits : ltb outlen (len + length b + 1) ≡ false = ground arith in
      let inside : ltb outlen (len + length b) ≡ false = ground arith in
      rw (inside, fits) (omega (arith, length-append b (bit_and u 0xFF ∷ [])))

  put_char-Going :
      (c : ℕ) → c < 0x110000 → len + 4 ≤ outlen → Going 4 limit (put_char outlen limit len c)
  unfolding put_char
  put_char-Going c h room =
      let two : ltb outlen (len + 2) ≡ false = ground arith in
      let four : ltb outlen (len + 4) ≡ false = ground arith in
      elim (Bool-cases (ltb limit c)) [
        | inl much ↦ rw much (
            let small : limit ≡ 0x7F = ground arith in
            let low : (limit == 0x7F) ≡ true = ground arith in rw low (small, refl))
        | inr little ↦ rw little (elim (Bool-cases (limit == 0x10FFFF)) [
          | inr narrow ↦ rw narrow (put_low-Going [] c (omega arith) (omega arith))
          | inl wide ↦ rw wide (
              rw two (elim (Bool-cases (ltb 0xFFFF c)) [
                | inr one ↦ rw one (put_low-Going (u8 (c >>> 8) ∷ []) c (omega arith) (omega arith))
                | inl pair ↦ rw pair (
                    rw four
                      (put_low-Going (pair_bytes c) (low_surrogate c) (omega arith) (omega arith)))
              ]))
        ])
      ]

behind-Going :
    (most limit : ℕ) (p : List ℕ) (q : Pass)
    → length p ≤ 4
    → Going most limit q
    → Going (4 + most) limit (behind p q)
behind-Going most limit p (done b) h h' = omega (arith, length-append p b)
behind-Going most limit p (again l) h h' = h'
behind-Going most limit p failed h h' = h'
behind-Going most limit p invalid h h' = h'
behind-Going most limit p overrun h h' = h'

then_pass-Going :
    (most limit : ℕ) (p : Pass) (next : List ℕ → Pass)
    → Going 4 limit p
    → ((b : List ℕ) → length b ≤ 4 → Going most limit (next b))
    → Going (4 + most) limit (then_pass p next)
then_pass-Going most limit (done p) next h rest = behind-Going most limit p (next p) h (rest p h)
then_pass-Going most limit (again l) next h rest = h
then_pass-Going most limit failed next h rest = h
then_pass-Going most limit invalid next h rest = h
then_pass-Going most limit overrun next h rest = h

-- Four bytes for each character.
abbrev quadruple : List ℕ → ℕ
quadruple [] = 0
quadruple (c ∷ cs) = 4 + quadruple cs

encode_pass-Going :
    (outlen limit u len : ℕ) (cs : List ℕ)
    → (limit ≡ 0x7F) ⊎ (limit ≡ 0x10FFFF)
    → All Scalar cs
    → len + quadruple cs ≤ outlen
    → Going (quadruple cs) limit (encode_pass outlen limit 0 u len (text_of cs))
unfolding text_of encode_pass
encode_pass-Going outlen limit u len [] first scalars room = omega arith
encode_pass-Going outlen limit u len (c ∷ cs) first scalars room =
    rw (pass-utf8_of outlen limit len u c (text_of cs) scalars.0.1) (
      then_pass-Going (quadruple cs) limit (put_char outlen limit len c) _
        (put_char-Going outlen limit len first c scalars.0.1 (omega arith))
        λ b h. encode_pass-Going outlen limit c (len + length b) cs first scalars.1 (omega arith))

abbrev IsSome : Option (List ℕ) → Type 0
IsSome none = ⊥
IsSome (some out) = Unit

module _ (outlen : ℕ) (cs : List ℕ) (scalars : All Scalar cs)
    (room : 1 + quadruple cs ≤ outlen) where
  from-IsSome :
      (fuel limit : ℕ)
      → (limit ≡ 0x7F) × (1 < fuel) ⊎ (limit ≡ 0x10FFFF) × (0 < fuel)
      → Returns (encode_from fuel outlen limit (text_of cs)) IsSome
  unfolding encode_from
  from-IsSome zero limit left = absurd (ground arith)
  from-IsSome (suc fuel) limit left =
      go (λ l h. from-IsSome fuel l h) (encode_pass outlen limit 0 0 1 (text_of cs))
        (encode_pass-Going outlen limit 0 1 cs (ground arith) scalars room)
    where
      go :
          ((l : ℕ)
            → (l ≡ 0x7F) × (1 < fuel) ⊎ (l ≡ 0x10FFFF) × (0 < fuel)
            → Returns (encode_from fuel outlen l (text_of cs)) IsSome)
          → (p : Pass) → Going (quadruple cs) limit p
          → Returns
              (elim p [
                | done bytes ↦ ok (some (mark_of limit ∷ bytes))
                | again limit' ↦ encode_from fuel outlen limit' (text_of cs)
                | failed ↦ ok none
                | invalid ↦ exit_failure
                | overrun ↦ fault
              ])
              IsSome
      go next (done bytes) h = tt
      go next (again l) h = next l (ground arith)
      go next failed h = absurd h
      go next invalid h = absurd h
      go next overrun h = absurd h

-- A result that is there, and is read back as the text.
abbrev pub ReadBack : ℕ → List ℕ → Option (List ℕ) → Type 0
ReadBack n cs none = ⊥
ReadBack n cs (some out) = decode_utf8 out (length out) n ≡ ok (some (text_of cs))

both :
    (n : ℕ) (cs : List ℕ) (m : Run (Option (List ℕ)))
    → Returns m IsSome
    → Returns m (Back n cs)
    → Returns m (ReadBack n cs)
both n cs (ok none) h back = h
both n cs (ok (some out)) h back = back
both n cs exit_failure h back = back
both n cs fault h back = back
both n cs out_of_fuel h back = back

-- On a text in UTF-8 of characters that are neither 0 nor surrogates, and with a buffer of at least
-- four bytes for each character and one for the mark, `encode_utf8` succeeds; in a buffer that has
-- room for the text, `decode_utf8` takes the result back to it.
pub encode_utf8-ReadBack :
    (cs : List ℕ) (outlen n : ℕ)
    → All Scalar cs
    → 1 + quadruple cs ≤ outlen
    → outlen < 2 ^ 64
    → length (text_of cs) < n
    → Returns (encode_utf8 (text_of cs) outlen) (ReadBack n cs)
encode_utf8-ReadBack cs outlen n scalars room small text_room =
    both n cs (encode_utf8 (text_of cs) outlen)
      (let some_room : (outlen == 0) ≡ false = ground arith in
        unfold encode_utf8 in
        rw some_room (from-IsSome outlen cs scalars room 3 0x7F (inl (refl, omega arith))))
      (encode_utf8-Back cs outlen n scalars (omega arith) small text_room)

-- ===== src/Unicode/RoundTrip.antt =====
-- `decode_utf8` takes back what `encode_utf8` does to valid UTF-8.
use udftools.Base.{
  ℕ, zero, suc, ◌+◌, ◌-◌, ◌%◌, ◌^◌, ◌≤◌, ◌<◌, ◌≡◌, refl, ap, ◌∙◌, ◌⊎◌, inl, inr, Bool, false, not,
  ◌&&◌, Option, none, some, List, [], ◌∷◌, ◌++◌, arith, ltb, leb, ◌==◌, bit_and, ◌>>>◌, u8, Run, ok,
  exit_failure, fault, out_of_fuel, Returns, length, length-append, take, Bool-cases, All,
}
use udftools.Unicode.{
  Pass, done, again, failed, invalid, overrun, behind, then_pass, put_low, put_char, encode_pass,
  mark_of, encode_from, encode_utf8, utf8_of, written, decode_loop, decode_utf8, low_surrogate,
  pair_bytes,
}
use udftools.Unicode.Formed.{well_formed}
use udftools.Unicode.Encode.{Left, Good, Encodes, encode_pass-Good, encode_utf8-Encodes}
use udftools.Unicode.Chars.{pass-utf8_of}
use udftools.Unicode.Units.{Scalar, behind_char, step_narrow, step_wide, step_pair}

-- The text of a list of characters, in UTF-8.
unfoldable pub text_of : List ℕ → List ℕ
text_of [] = []
text_of (c ∷ cs) = utf8_of c ++ text_of cs

-- The three limits of the passes.
abbrev Limit : ℕ → Type 0
Limit limit = (limit ≡ 0x7F) ⊎ (limit ≡ 0x10FFFF) ⊎ (limit ≡ 0xFF)

abbrev wide_at : ℕ → Bool
wide_at limit = limit == 0x10FFFF

-- Bytes for units of the width that the limit stands for.
abbrev Whole : ℕ → List ℕ → Type 0
Whole limit bytes = (limit ≡ 0x10FFFF → length bytes % 2 ≡ 0)

-- The bytes that are written for a character are read back as it.
abbrev Written : ℕ → ℕ → Pass → Type 0
Written limit c (done p) =
    ((fuel n len : ℕ) (q : List ℕ)
      → decode_loop (suc fuel) (wide_at limit) n len (p ++ q)
        ≡ behind_char fuel n len (wide_at limit) c q)
    × (0 < length p)
    × Whole limit p
Written limit c (again l) = Limit l
Written limit c failed = Unit
Written limit c invalid = ⊥
Written limit c overrun = Unit

module _ (outlen len c : ℕ) (scalar : Scalar c) where
  put_low-Written :
      (limit : ℕ) (first : List ℕ) (u : ℕ)
      → Written limit c (done (first ++ bit_and u 0xFF ∷ []))
      → Written limit c (put_low outlen len first u)
  unfolding put_low
  put_low-Written limit first u h = elim (Bool-cases (ltb outlen (len + length first))) [
    | inl over ↦ rw over tt
    | inr inside ↦ rw inside (elim (Bool-cases (ltb outlen (len + length first + 1))) [
      | inl full ↦ rw full tt
      | inr fits ↦ rw fits h
    ])
  ]

  narrow-Written :
      (limit : ℕ) → c ≤ limit → limit ≤ 0xFF → Written limit c (put_low outlen len [] c)
  narrow-Written limit h small =
      let narrow : wide_at limit ≡ false = ground arith in
      put_low-Written limit [] c (
        λ fuel n l q. rw narrow (step_narrow fuel n l c q scalar.0 (omega arith)),
        omega arith,
        λ wide. absurd (omega arith),
      )

  put_char-Written : (limit : ℕ) → Limit limit → Written limit c (put_char outlen limit len c)
  unfolding put_char
  put_char-Written limit l = elim (Bool-cases (ltb limit c)) [
    | inl much ↦ rw much (elim (Bool-cases (limit == 0x7F)) [
      | inl first ↦ rw first (inr (inl refl))
      | inr later ↦ rw later tt
    ])
    | inr little ↦ rw little (elim (Bool-cases (limit == 0x10FFFF)) [
      | inr narrow ↦ rw narrow (narrow-Written limit (ground arith) (ground arith))
      | inl wide ↦ rw wide (elim (Bool-cases (ltb outlen (len + 2))) [
        | inl full ↦ rw full (inr (inr refl))
        | inr room ↦ rw room (elim (Bool-cases (ltb 0xFFFF c)) [
          | inr one ↦ rw one (
              put_low-Written limit (u8 (c >>> 8) ∷ []) c (
                λ fuel n l q. rw wide (step_wide fuel n l c q scalar.0 (ground arith) scalar.2),
                omega arith,
                λ w. omega arith,
              ))
          | inl two ↦ rw two (elim (Bool-cases (ltb outlen (len + 4))) [
            | inl full ↦ rw full tt
            | inr room ↦ rw room (
                put_low-Written limit (pair_bytes c) (low_surrogate c) (
                  λ fuel n l q. rw wide (step_pair fuel n l c q (ground arith) scalar.1),
                  omega arith,
                  λ w. omega arith,
                ))
          ])
        ])
      ])
    ])
  ]

-- The bytes of a pass are read back as the text.
abbrev Read : ℕ → List ℕ → Pass → Type 0
Read limit cs (done bytes) =
    ((fuel n len : ℕ)
      → length bytes < fuel
      → len + length (text_of cs) < n
      → decode_loop fuel (wide_at limit) n len bytes ≡ ok (some (text_of cs)))
    × Whole limit bytes
Read limit cs (again l) = Limit l
Read limit cs failed = Unit
Read limit cs invalid = ⊥
Read limit cs overrun = Unit

module _ (limit c : ℕ) (cs : List ℕ) where
  append-Read :
      (p b : List ℕ) (fuel n len : ℕ)
      → Written limit c (done p)
      → Read limit cs (done b)
      → length (p ++ b) < fuel
      → len + length (text_of (c ∷ cs)) < n
      → decode_loop fuel (wide_at limit) n len (p ++ b) ≡ ok (some (text_of (c ∷ cs)))
  unfolding text_of
  append-Read p b zero n len w r enough room = absurd (omega arith)
  append-Read p b (suc fuel) n len w r enough room =
      let u = utf8_of c in
      let long = length-append u (text_of cs) in
      let sum = length-append p b in
      let fits : leb n (len + length u) ≡ false = ground arith in
      w.0 fuel n len b
      ∙ rw fits (ap (written u) (r.0 fuel n (len + length u) (omega (arith, w.1)) (omega arith)))

  behind-Read :
      (p : List ℕ) (q : Pass)
      → Written limit c (done p)
      → Read limit cs q
      → Read limit (c ∷ cs) (behind p q)
  behind-Read p (done b) w r = (
    λ fuel n len enough room. append-Read p b fuel n len w r enough room,
    λ wide. omega (arith, w.2 wide, r.1 wide, length-append p b),
  )
  behind-Read p (again l) w r = r
  behind-Read p failed w r = tt
  behind-Read p invalid w r = r
  behind-Read p overrun w r = tt

  then_pass-Read :
      (p : Pass) (next : List ℕ → Pass)
      → Written limit c p
      → ((bytes : List ℕ) → Read limit cs (next bytes))
      → Read limit (c ∷ cs) (then_pass p next)
  then_pass-Read (done p) next w r = behind-Read p (next p) w (r p)
  then_pass-Read (again l) next w r = w
  then_pass-Read failed next w r = tt
  then_pass-Read invalid next w r = w
  then_pass-Read overrun next w r = tt

decode_nil :
    (fuel : ℕ) (wide : Bool) (n len : ℕ) → 0 < fuel → decode_loop fuel wide n len [] ≡ ok (some [])
unfolding decode_loop
decode_nil zero wide n len h = absurd (omega arith)
decode_nil (suc fuel) wide n len h = refl

encode_pass-Read :
    (outlen limit u len : ℕ) (cs : List ℕ)
    → Limit limit
    → All Scalar cs
    → Read limit cs (encode_pass outlen limit 0 u len (text_of cs))
unfolding text_of encode_pass
encode_pass-Read outlen limit u len [] l scalars =
    (λ fuel n k enough room. decode_nil fuel (wide_at limit) n k enough, λ wide. refl)
encode_pass-Read outlen limit u len (c ∷ cs) l scalars =
    rw (pass-utf8_of outlen limit len u c (text_of cs) scalars.0.1) (
      then_pass-Read limit c cs (put_char outlen limit len c) _
        (put_char-Written outlen len c scalars.0 limit l)
        λ bytes. encode_pass-Read outlen limit c (len + length bytes) cs l scalars.1)

-- What `encode_utf8` returned is read back as the text.
abbrev pub Back : ℕ → List ℕ → Option (List ℕ) → Type 0
Back n cs none = Unit
Back n cs (some out) = decode_utf8 out (length out) n ≡ ok (some (text_of cs))

take-length : (l : List ℕ) → take (length l) l ≡ l
take-length [] = refl
take-length (x ∷ l) = ap (λ r. x ∷ r) (take-length l)

even_bytes :
    (limit : ℕ) (bytes : List ℕ)
    → suc (length bytes) < 2 ^ 64
    → Whole limit bytes
    → (wide_at limit && not ((suc (length bytes) + (2 ^ 64 - 1)) % 2 ^ 64 % 2 == 0)) ≡ false
even_bytes limit bytes small whole = elim (Bool-cases (wide_at limit)) [
  | inl wide ↦ rw wide (let even = whole (ground arith) in ground arith)
  | inr narrow ↦ rw narrow refl
]

-- The length of a result fits into 64 bits.
abbrev Short : Option (List ℕ) → Type 0
Short none = Unit
Short (some out) = length out < 2 ^ 64

module _ (cs : List ℕ) (scalars : All Scalar cs) (n : ℕ) (room : length (text_of cs) < n) where
  -- The marks 8 and 16 tell the width.
  mark_back :
      (limit : ℕ) (bytes : List ℕ)
      → Limit limit
      → Read limit cs (done bytes)
      → suc (length bytes) < 2 ^ 64
      → decode_utf8 (mark_of limit ∷ bytes) (suc (length bytes)) n ≡ ok (some (text_of cs))
  unfolding decode_utf8
  mark_back limit bytes l r small =
      let mark = mark_of limit in
      let some_room : (n == 0) ≡ false = ground arith in
      let known : (not (mark == 8) && not (mark == 16)) ≡ false = unfold mark_of in ground arith in
      let wide : (mark == 16) ≡ wide_at limit = unfold mark_of in ground arith in
      let even : (wide_at limit && not ((suc (length bytes) + (2 ^ 64 - 1)) % 2 ^ 64 % 2 == 0))
          ≡ false =
        even_bytes limit bytes small r.1 in
      let enough : ltb (length bytes) (suc (length bytes) - 1) ≡ false = ground arith in
      let all : suc (length bytes) - 1 ≡ length bytes = omega arith in
      rw some_room (
        rw known (
          rw wide (
            rw even (
              rw enough (
                rw all (
                  rw (take-length bytes)
                    (r.0 (suc (suc (length bytes))) n 0 (omega arith) (omega arith))))))))

  from-Back :
      (fuel outlen limit : ℕ)
      → 0 < outlen
      → Left fuel limit
      → Returns (encode_from fuel outlen limit (text_of cs)) (λ o. Short o → Back n cs o)
  unfolding encode_from
  from-Back zero outlen limit pos left = absurd (ground arith)
  from-Back (suc fuel) outlen limit pos left =
      go (λ l h. from-Back fuel outlen l pos h) (encode_pass outlen limit 0 0 1 (text_of cs))
        (encode_pass-Good outlen limit 0 0 1 (text_of cs) (omega arith))
        (encode_pass-Read outlen limit 0 1 cs (ground arith) scalars)
    where
      go :
          ((l : ℕ)
            → Left fuel l
            → Returns (encode_from fuel outlen l (text_of cs)) (λ o. Short o → Back n cs o))
          → (p : Pass) → Good outlen limit (well_formed 0 (text_of cs)) 1 p
          → Read limit cs p
          → Returns
              (elim p [
                | done bytes ↦ ok (some (mark_of limit ∷ bytes))
                | again limit' ↦ encode_from fuel outlen limit' (text_of cs)
                | failed ↦ ok none
                | invalid ↦ exit_failure
                | overrun ↦ fault
              ])
              (λ o. Short o → Back n cs o)
      go next (done bytes) h r = λ small. mark_back limit bytes (ground arith) r small
      go next (again l) h r = next l (ground arith)
      go next failed h r = λ small. tt
      go next invalid h r = absurd r
      go next overrun h r = absurd h

-- A result that fits and is read back.
both :
    (outlen n : ℕ) (cs : List ℕ) (m : Run (Option (List ℕ)))
    → outlen < 2 ^ 64
    → Encodes outlen (text_of cs) m
    → Returns m (λ o. Short o → Back n cs o)
    → Returns m (Back n cs)
unfolding Encodes
both outlen n cs (ok none) small fits back = tt
both outlen n cs (ok (some out)) small fits back = back (omega arith)
both outlen n cs exit_failure small fits back = back
both outlen n cs fault small fits back = back
both outlen n cs out_of_fuel small fits back = back

-- On a text in UTF-8 of characters that are neither 0 nor surrogates, `encode_utf8` returns. If the
-- text fits into its buffer, then `decode_utf8` takes the result back to the same text, in a buffer
-- that has room for it.
pub encode_utf8-Back :
    (cs : List ℕ) (outlen n : ℕ)
    → All Scalar cs
    → 0 < outlen
    → outlen < 2 ^ 64
    → length (text_of cs) < n
    → Returns (encode_utf8 (text_of cs) outlen) (Back n cs)
unfolding encode_utf8
encode_utf8-Back cs outlen n scalars pos small room =
    both outlen n cs (encode_utf8 (text_of cs) outlen) small
      (encode_utf8-Encodes (text_of cs) outlen pos)
      (let some_room : (outlen == 0) ≡ false = ground arith in
        rw some_room (from-Back cs scalars n room 3 outlen 0x7F pos (inl (refl, omega arith))))

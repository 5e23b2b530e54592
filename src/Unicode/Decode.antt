-- ===== src/Unicode/Decode.antt =====
-- `decode_utf8` stays within its buffers.
use udftools.Base.{
  ℕ, zero, suc, ◌+◌, ◌-◌, ◌%◌, ◌≤◌, ◌<◌, ◌^◌, ◌≡◌, inl, inr, Bool, true, false, not, ◌&&◌, Option,
  none, some, List, [], ◌∷◌, arith, Run, ok, exit_failure, fault, out_of_fuel, bit_or, ◌<<<◌,
  Returns, Returns->>=, ltb, leb, ◌==◌, length, length-append, length-take, take, Bool-cases,
}
use udftools.Unicode.{take_unit, take_char, utf8_of, written, decode_loop, decode_utf8}

-- Room for the bytes and for the zero behind them, with `len` bytes in front.
abbrev pub Room : ℕ → ℕ → Option (List ℕ) → Type 0
Room outlen len none = Unit
Room outlen len (some bytes) = len + length bytes < outlen

-- A unit of two bytes takes an even number of them.
abbrev Even : Bool → List ℕ → Type 0
Even true l = length l % 2 ≡ 0
Even false l = Unit

-- What is left behind a unit, and behind a character.
abbrev Rest : Bool → ℕ → List ℕ → Type 0
Rest wide n r = (length r ≤ n) × Even wide r

Even-drop : (wide : Bool) (b c : ℕ) (r : List ℕ) → Even wide (b ∷ c ∷ r) → Even wide r
Even-drop true b c r h = omega arith
Even-drop false b c r h = tt

units-Even :
    (mark inlen : ℕ) (l : List ℕ)
    → 0 < inlen
    → inlen < 2 ^ 64
    → length l ≡ inlen - 1
    → (mark == 16 && not ((inlen + (2 ^ 64 - 1)) % 2 ^ 64 % 2 == 0)) ≡ false
    → Even (mark == 16) l
units-Even mark inlen l some_bytes small size even = elim (Bool-cases (mark == 16)) [
  | inl wide ↦ rw wide (ground arith)
  | inr narrow ↦ rw narrow tt
]

take_unit-Rest :
    (wide : Bool) (b : ℕ) (r : List ℕ)
    → Even wide (b ∷ r)
    → Returns (take_unit wide b r) (λ u. Rest wide (length r) u.1)
unfolding take_unit
take_unit-Rest false b r even = (omega arith, tt)
take_unit-Rest true b [] even = omega arith
take_unit-Rest true b (low ∷ r) even = (omega arith, omega arith)

take_char-Rest :
    (wide : Bool) (c : ℕ) (r : List ℕ) → Even wide r → Rest wide (length r) (take_char c r).1
unfolding take_char
take_char-Rest wide c [] even = (omega arith, even)
take_char-Rest wide c (b ∷ []) even = (omega arith, even)
take_char-Rest wide c (b ∷ low ∷ r) even =
    let next = bit_or (b <<< 8) low in
    elim (Bool-cases (leb 0xD800 c && leb c 0xDBFF && leb 0xDC00 next && leb next 0xDFFF)) [
      | inl pair ↦ rw pair (omega arith, Even-drop wide b low r even)
      | inr single ↦ rw single (omega arith, even)
    ]

written-Room :
    (outlen len : ℕ) (bytes : List ℕ) (run : Run (Option (List ℕ)))
    → Returns run (Room outlen (len + length bytes))
    → Returns (written bytes run) (Room outlen len)
written-Room outlen len bytes (ok none) h = tt
written-Room outlen len bytes (ok (some rest)) h = omega (arith, h, length-append bytes rest)
written-Room outlen len bytes exit_failure h = h
written-Room outlen len bytes fault h = h
written-Room outlen len bytes out_of_fuel h = h

decode_loop-Room :
    (fuel : ℕ) (wide : Bool) (outlen len : ℕ) (input : List ℕ)
    → length input < fuel
    → Even wide input
    → len < outlen
    → Returns (decode_loop fuel wide outlen len input) (Room outlen len)
unfolding decode_loop
decode_loop-Room zero wide outlen len input enough even room = absurd (omega arith)
decode_loop-Room (suc fuel) wide outlen len [] enough even room = omega arith
decode_loop-Room (suc fuel) wide outlen len (b ∷ r) enough even room =
    Returns->>= (take_unit wide b r) _ (λ u. Rest wide (length r) u.1) (Room outlen len)
      (take_unit-Rest wide b r even)
      λ u rest.
        let char = take_char u.0 u.1 in
        let left = take_char-Rest wide u.0 u.1 rest.1 in
        let bytes = utf8_of char.0 in
        elim (Bool-cases (u.0 == 0)) [
          | inl end ↦ rw end (omega arith)
          | inr more ↦ rw more (elim (Bool-cases (leb outlen (len + length bytes))) [
            | inl full ↦ rw full tt
            | inr fits ↦ rw fits (
                written-Room outlen len bytes _ (
                  decode_loop-Room fuel wide outlen (len + length bytes) char.1
                    (omega (arith, rest.0, left.0)) left.1 (ground arith)))
          ])
        ]

-- On a buffer of at least `inlen` bytes, of which there is one, `decode_utf8` returns, without a read
-- behind them; what it writes, with a zero at the end, fits into `outlen` bytes.
pub decode_utf8-Room :
    (mark : ℕ) (input : List ℕ) (inlen outlen : ℕ)
    → 0 < inlen
    → inlen ≤ suc (length input)
    → inlen < 2 ^ 64
    → Returns (decode_utf8 (mark ∷ input) inlen outlen) (Room outlen 0)
unfolding decode_utf8
decode_utf8-Room mark input inlen outlen some_bytes owned small = elim (Bool-cases (outlen == 0)) [
  | inl nowhere ↦ rw nowhere tt
  | inr room ↦ rw room (elim (Bool-cases (not (mark == 8) && not (mark == 16))) [
    | inl unknown ↦ rw unknown tt
    | inr known ↦
        rw known (elim (Bool-cases (mark == 16 && not ((inlen + (2 ^ 64 - 1)) % 2 ^ 64 % 2 == 0))) [
          | inl odd ↦ rw odd tt
          | inr even ↦ rw even (
              let enough : ltb (length input) (inlen - 1) ≡ false = ground arith in
              let size = length-take (inlen - 1) input (omega arith) in
              rw enough (
                decode_loop-Room (suc inlen) (mark == 16) outlen 0 (take (inlen - 1) input)
                  (omega (arith, size))
                  (units-Even mark inlen (take (inlen - 1) input) some_bytes small size even)
                  (ground arith)))
        ])
  ])
]

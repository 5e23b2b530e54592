-- ===== src/Unicode/Encode.antt =====
-- `encode_utf8` ends and stays within its buffer.
use udftools.Base.{
  ℕ, zero, suc, ◌+◌, ◌≤◌, ◌<◌, ◌≡◌, refl, ◌⊎◌, inl, inr, Option, none, some, List, [], ◌∷◌, arith,
  ok, exit_failure, fault, out_of_fuel, Run, Bool, false, sym, subst, bit_and, u8, ◌>>>◌, ltb, ◌==◌,
  length, length-append, Bool-cases,
}
use udftools.Unicode.Formed.{well_formed, open-end, Follows, take_byte-Follows}
use udftools.Unicode.{
  Step, more, char, bad, Pass, done, again, failed, invalid, overrun, then_pass, behind, pair_bytes,
  low_surrogate, mark_of, take_byte, put_low, put_char, encode_pass, encode_from, encode_utf8,
}

-- The bytes of a pass fit behind the `len` bytes in front of them, a pass starts again only from
-- 0x7F to 0x10FFFF, or from there to 0xFF, and it leaves only if the text is not well-formed.
abbrev pub Good : ℕ → ℕ → Bool → ℕ → Pass → Type 0
Good outlen limit formed len (done bytes) = len + length bytes ≤ outlen
Good outlen limit formed len (again limit') =
    (limit ≡ 0x7F) × (limit' ≡ 0x10FFFF) ⊎ (limit ≡ 0x10FFFF) × (limit' ≡ 0xFF)
Good outlen limit formed len failed = Unit
Good outlen limit formed len invalid = formed ≡ false
Good outlen limit formed len overrun = ⊥

module _ (outlen limit : ℕ) (formed : Bool) (len : ℕ) where
  put_low-Good :
      (first : List ℕ) (u : ℕ)
      → len + length first ≤ outlen
      → Good outlen limit formed len (put_low outlen len first u)
  unfolding put_low
  put_low-Good first u room =
      let inside : ltb outlen (len + length first) ≡ false = ground arith in
      rw inside (elim (Bool-cases (ltb outlen (len + length first + 1))) [
        | inl full ↦ rw full tt
        | inr fits ↦ rw fits (ground (arith, length-append first (bit_and u 0xFF ∷ [])))
      ])

  put_char-Good :
      (u : ℕ) → len ≤ outlen → Good outlen limit formed len (put_char outlen limit len u)
  unfolding put_char
  put_char-Good u inside = elim (Bool-cases (ltb limit u)) [
    | inl much ↦ rw much (elim (Bool-cases (limit == 0x7F)) [
      | inl first ↦ rw first (inl (ground arith, refl))
      | inr later ↦ rw later tt
    ])
    | inr little ↦ rw little (elim (Bool-cases (limit == 0x10FFFF)) [
      | inr narrow ↦ rw narrow (put_low-Good [] u (omega arith))
      | inl wide ↦ rw wide (elim (Bool-cases (ltb outlen (len + 2))) [
        | inl full ↦ rw full (inr (ground arith, refl))
        | inr room ↦ rw room (elim (Bool-cases (ltb 0xFFFF u)) [
          | inr one ↦ rw one (put_low-Good (u8 (u >>> 8) ∷ []) u (ground arith))
          | inl two ↦ rw two (elim (Bool-cases (ltb outlen (len + 4))) [
            | inl full ↦ rw full tt
            | inr room ↦ rw room (put_low-Good (pair_bytes u) (low_surrogate u) (ground arith))
          ])
        ])
      ])
    ])
  ]

  behind-Good :
      (bytes : List ℕ) (p : Pass)
      → Good outlen limit formed (len + length bytes) p
      → Good outlen limit formed len (behind bytes p)
  behind-Good bytes (done rest) h = omega (arith, length-append bytes rest)
  behind-Good bytes (again l) h = h
  behind-Good bytes failed h = h
  behind-Good bytes invalid h = h
  behind-Good bytes overrun h = h

  then_pass-Good :
      (p : Pass) (next : List ℕ → Pass)
      → Good outlen limit formed len p
      → ((bytes : List ℕ)
          → len + length bytes ≤ outlen
          → Good outlen limit formed (len + length bytes) (next bytes))
      → Good outlen limit formed len (then_pass p next)
  then_pass-Good (done bytes) next h rest = behind-Good bytes (next bytes) (rest bytes h)
  then_pass-Good (again l) next h rest = h
  then_pass-Good failed next h rest = h
  then_pass-Good invalid next h rest = h
  then_pass-Good overrun next h rest = h

pub encode_pass-Good :
    (outlen limit cnt u len : ℕ) (input : List ℕ)
    → len ≤ outlen
    → Good outlen limit (well_formed cnt input) len (encode_pass outlen limit cnt u len input)
unfolding encode_pass
encode_pass-Good outlen limit cnt u len [] room = elim (Bool-cases (cnt == 0)) [
  | inl end ↦ rw end (omega arith)
  | inr open_char ↦ rw open_char (open-end cnt open_char)
]
encode_pass-Good outlen limit cnt u len (c ∷ r) room =
    go (λ k v n fits. encode_pass-Good outlen limit k v n r fits) (take_byte cnt u c)
      (take_byte-Follows cnt u c r)
  where
    go :
        ((k v n : ℕ)
          → n ≤ outlen
          → Good outlen limit (well_formed k r) n (encode_pass outlen limit k v n r))
        → (s : Step) → Follows cnt c r s
        → Good outlen limit (well_formed cnt (c ∷ r)) len (elim s [
          | more cnt' v ↦ encode_pass outlen limit cnt' v len r
          | char v ↦
              then_pass
                (put_char outlen limit len v)
                (λ bytes. encode_pass outlen limit 0 v (len + length bytes) r)
          | bad ↦ invalid
        ])
    go rest (more k v) f =
        subst (λ b. Good outlen limit b len (encode_pass outlen limit k v len r)) (sym f)
          (rest k v len room)
    go rest (char v) f =
        subst
          (λ b. Good outlen limit b len (
            then_pass (put_char outlen limit len v)
              (λ bytes. encode_pass outlen limit 0 v (len + length bytes) r)))
          (sym f)
          (then_pass-Good outlen limit (well_formed 0 r) len (put_char outlen limit len v) _
            (put_char-Good outlen limit (well_formed 0 r) len v room)
            λ bytes fits. rest 0 v (len + length bytes) fits)
    go rest bad f = f

-- 0xFF ends the passes, 0x10FFFF can have one behind it and 0x7F two.
abbrev pub Left : ℕ → ℕ → Type 0
Left fuel limit =
    (limit ≡ 0x7F) × (2 < fuel) ⊎ (limit ≡ 0x10FFFF) × (1 < fuel) ⊎ (limit ≡ 0xFF) × (0 < fuel)

-- A result that fits.
abbrev pub FitsIn : ℕ → Option (List ℕ) → Type 0
FitsIn outlen none = Unit
FitsIn outlen (some out) = length out ≤ outlen

-- The outcome for an input: the result fits, or the program leaves as the input is not well-formed.
unfoldable pub Encodes : ℕ → List ℕ → Run (Option (List ℕ)) → Type 0
Encodes outlen input (ok out) = FitsIn outlen out
Encodes outlen input exit_failure = well_formed 0 input ≡ false
Encodes outlen input fault = ⊥
Encodes outlen input out_of_fuel = ⊥

encode_from-Encodes :
    (fuel outlen limit : ℕ) (input : List ℕ)
    → 0 < outlen
    → Left fuel limit
    → Encodes outlen input (encode_from fuel outlen limit input)
unfolding encode_from Encodes
encode_from-Encodes zero outlen limit input room left = absurd (ground arith)
encode_from-Encodes (suc fuel) outlen limit input room left =
    go (λ l h. encode_from-Encodes fuel outlen l input room h)
      (encode_pass outlen limit 0 0 1 input)
      (encode_pass-Good outlen limit 0 0 1 input (omega arith))
  where
    go :
        ((l : ℕ) → Left fuel l → Encodes outlen input (encode_from fuel outlen l input))
        → (p : Pass) → Good outlen limit (well_formed 0 input) 1 p
        → Encodes outlen input (elim p [
          | done bytes ↦ ok (some (mark_of limit ∷ bytes))
          | again limit' ↦ encode_from fuel outlen limit' input
          | failed ↦ ok none
          | invalid ↦ exit_failure
          | overrun ↦ fault
        ])
    go next (done bytes) h = omega arith
    go next (again l) h = next l (ground arith)
    go next failed h = tt
    go next invalid h = h
    go next overrun h = h

-- `encode_utf8` with a buffer of at least one byte returns after at most three passes, or leaves, and
-- this only if the bytes of the input do not follow each other as their leading bits say. No pass
-- writes behind the buffer, also none that is given up, and the result fits into the buffer.
pub encode_utf8-Encodes :
    (input : List ℕ) (outlen : ℕ) → 0 < outlen → Encodes outlen input (encode_utf8 input outlen)
unfolding encode_utf8
encode_utf8-Encodes input outlen room =
    let some_room : (outlen == 0) ≡ false = ground arith in
    rw some_room (encode_from-Encodes 3 outlen 0x7F input room (inl (refl, omega arith)))

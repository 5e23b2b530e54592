-- ===== src/Unicode/Formed.antt =====
-- The form of UTF-8 in the leading bits of its bytes, and the steps of `encode_utf8` (libudffs/unicode.c)
-- along it.
use udftools.Base.{
  ℕ, ◌-◌, zero, suc, ◌≡◌, refl, ap, ◌∙◌, inl, inr, Option, none, some, List, [], ◌∷◌, arith, Bool,
  true, false, ◌&&◌, bit_and, ◌==◌, if◌then◌else◌, Bool-cases,
}
use udftools.Unicode.{Step, more, char, bad, take_byte}

-- The number of bytes that follow the first byte of a character, by its leading bits.
abbrev pub followers : ℕ → Option ℕ
followers c =
    if bit_and c 0x80 == 0
    then some 0
    else if bit_and c 0xE0 == 0xC0
    then some 1
    else if bit_and c 0xF0 == 0xE0
    then some 2
    else if bit_and c 0xF8 == 0xF0
    then some 3
    else none

-- Each first byte has its bytes behind it, with the leading bits of such bytes; a number of them is
-- still open in front of the list.
unfoldable pub well_formed : ℕ → List ℕ → Bool
well_formed zero [] = true
well_formed (suc n) [] = false
well_formed zero (c ∷ r) = elim (followers c) [ none ↦ false | some n ↦ well_formed n r ]
well_formed (suc n) (c ∷ r) = bit_and c 0xC0 == 0x80 && well_formed n r

pub open-end : (cnt : ℕ) → (cnt == 0) ≡ false → well_formed cnt [] ≡ false
unfolding well_formed
open-end zero h = absurd (ground (arith, h))
open-end (suc n) h = refl

-- What a step of the loop leaves to be well-formed.
abbrev pub Follows : ℕ → ℕ → List ℕ → Step → Type 0
Follows cnt c r (more k v) = well_formed cnt (c ∷ r) ≡ well_formed k r
Follows cnt c r (char v) = well_formed cnt (c ∷ r) ≡ well_formed 0 r
Follows cnt c r bad = well_formed cnt (c ∷ r) ≡ false

formed-lead :
    (c : ℕ) (r : List ℕ) (n : ℕ) → followers c ≡ some n → well_formed 0 (c ∷ r) ≡ well_formed n r
unfolding well_formed
formed-lead c r n h = ap (λ (o : Option ℕ). elim o [ none ↦ false | some k ↦ well_formed k r ]) h

formed-none : (c : ℕ) (r : List ℕ) → followers c ≡ none → well_formed 0 (c ∷ r) ≡ false
unfolding well_formed
formed-none c r h = ap (λ (o : Option ℕ). elim o [ none ↦ false | some k ↦ well_formed k r ]) h

formed-next :
    (n c : ℕ) (r : List ℕ) (b : Bool)
    → (bit_and c 0xC0 == 0x80) ≡ b
    → well_formed (suc n) (c ∷ r) ≡ (b && well_formed n r)
unfolding well_formed
formed-next n c r b h = ap (λ t. t && well_formed n r) h

pub take_byte-Follows : (cnt u c : ℕ) (r : List ℕ) → Follows cnt c r (take_byte cnt u c)
unfolding take_byte
take_byte-Follows zero u c r = elim (Bool-cases (bit_and c 0x80 == 0)) [
  | inl one ↦ rw one (formed-lead c r 0 (ground (arith, one)))
  | inr wide ↦ rw wide (elim (Bool-cases (bit_and c 0xE0 == 0xC0)) [
    | inl two ↦ rw two (formed-lead c r 1 (ground (arith, wide, two)))
    | inr wide' ↦ rw wide' (elim (Bool-cases (bit_and c 0xF0 == 0xE0)) [
      | inl three ↦ rw three (formed-lead c r 2 (ground (arith, wide, wide', three)))
      | inr wide'' ↦ rw wide'' (elim (Bool-cases (bit_and c 0xF8 == 0xF0)) [
        | inl four ↦ rw four (formed-lead c r 3 (ground (arith, wide, wide', wide'', four)))
        | inr other ↦ rw other (formed-none c r (ground (arith, wide, wide', wide'', other)))
      ])
    ])
  ])
]
take_byte-Follows (suc n) u c r =
    let inside : (suc n == 0) ≡ false = ground arith in
    rw inside (elim (Bool-cases (bit_and c 0xC0 == 0x80)) [
      | inr other ↦ rw other (formed-next n c r false other)
      | inl next ↦
          let left : n ≡ suc n - 1 = omega arith in
          let formed = formed-next n c r true next in
          rw next (elim (Bool-cases (suc n - 1 == 0)) [
            | inl last ↦
                let ended : n ≡ 0 = ground (arith, last) in
                rw last (formed ∙ ap (λ k. well_formed k r) ended)
            | inr open_char ↦ rw open_char (formed ∙ ap (λ k. well_formed k r) left)
          ])
    ])

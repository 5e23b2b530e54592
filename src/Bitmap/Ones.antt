-- ===== src/Bitmap/Ones.antt =====
-- The search for a set bit, from the start of a word on.
use native.Mathlib.Nat.{mod-eq_of_lt}
use udftools.Base.{
  ℕ, zero, suc, ◌+◌, ◌-◌, ◌*◌, ◌^◌, ◌≤◌, ◌<◌, ◌≡◌, sym, ap, ◌∙◌, arith, bit_and, bit_or, List, [],
  ◌∷◌, ◌++◌, length, take, number_of, All, ◌==◌, ltb, take-append_long, ok, u32, true, false, inl,
  inr, Bool-cases, ◌<<<◌, ◌>>>◌,
}
use udftools.Base.Bits.{bit_and_mask}
use udftools.Bitmap.{all_ones, one_middle, one_first, one_last, one_words}
use udftools.Bitmap.Digits.{
  bits, bits_of, first_one, first_one-or, first_one-lt, first_one-zero, first_zero-complement,
  length-bits,
}
use udftools.Bitmap.Masks.{Byte, bits-mod, bits-number_of, number_of-lt, ffz-first_zero, masks}
use udftools.Bitmap.Search.{
  first_one-append_found, first_one-append_none, bits_of-append, part_word-bits,
}

pub one_middle-first_one :
    (result t : ℕ) → t < 2 ^ 32 → one_middle result t ≡ ok (result + first_one (bits 32 t))
unfolding one_middle
one_middle-first_one result t small =
    rw (ffz-first_zero 32 (2 ^ 32 - 1 - t) (omega arith) (omega arith))
      (ap (λ (k : ℕ). ok (result + k)) (first_zero-complement 32 t small))

-- The search in the last bits: bits behind them do not count.
pub one_first-first_one :
    (result size w : ℕ)
    → size < 32
    → w < 2 ^ 32
    → one_first result size w ≡ ok (result + first_one (take size (bits 32 w)))
unfolding one_first
one_first-first_one result size w short small =
    let mask = masks size short in
    let kept : u32 (bit_and w (all_ones >>> (32 - size))) ≡ w =
      ap (λ (m : ℕ). u32 (bit_and w m)) mask.0
      ∙ ap u32 (
          bit_and_mask (32 + size) w
          ∙ mod-eq_of_lt (let h : w < 2 ^ (32 + size) = omega (arith, mask.2) in h))
      ∙ omega arith in
    let one : 1 <<< size ≡ 2 ^ size = omega arith in
    rw (kept, one)
      (one_middle-first_one result (u32 (bit_or w (2 ^ size))) (omega arith)
        ∙ ap (λ (k : ℕ). ok (result + k))
            (ap first_one (bits-mod 32 32 (bit_or w (2 ^ size)) (omega arith))
              ∙ first_one-or 32 size w short))

one_last-first_one :
    (p : List ℕ) (size result : ℕ)
    → All Byte p
    → size ≤ 8 * length p
    → size < 32
    → one_last p size result ≡ ok (result + first_one (take size (bits_of p)))
unfolding one_last
one_last-first_one p zero result small inside short =
    unfold first_one in ap ok (let e : result ≡ result + 0 = omega arith in e)
one_last-first_one p (suc n) result small inside short =
    let more : (suc n == 0) ≡ false = ground arith in
    let part = part_word-bits p (suc n) small inside short in
    rw more (
      rw part.1 (
        one_first-first_one result (suc n) part.0 short part.2
        ∙ ap (λ (l : List ℕ). ok (result + first_one l)) (part.3 32 (omega arith))))

-- A word that is read whole.
pub word-bits :
    (a b c d : ℕ) (p : List ℕ)
    → All Byte (a ∷ b ∷ c ∷ d ∷ [])
    → bits_of (a ∷ b ∷ c ∷ d ∷ p) ≡ bits 32 (number_of (a ∷ b ∷ c ∷ d ∷ [])) ++ bits_of p
word-bits a b c d p small =
    bits_of-append (a ∷ b ∷ c ∷ d ∷ []) p
    ∙ ap (λ l. l ++ bits_of p) (sym (bits-number_of (a ∷ b ∷ c ∷ d ∷ []) small))

pub take-word :
    (size t : ℕ) (m : List ℕ)
    → 32 ≤ size
    → take size (bits 32 t ++ m) ≡ bits 32 t ++ take (size - 32) m
take-word size t m h =
    let count = length-bits 32 t in
    take-append_long size (bits 32 t) m (omega arith)
    ∙ ap (λ (k : ℕ). bits 32 t ++ take (size - k) m) count

pub one_words-first_one :
    (p : List ℕ) (size result : ℕ)
    → All Byte p
    → size ≤ 8 * length p
    → result + size < 2 ^ 32
    → one_words p size result ≡ ok (result + first_one (take size (bits_of p)))
unfolding one_words
one_words-first_one [] size result small inside fits =
    let short : ltb size 32 ≡ true = ground arith in
    rw short (one_last-first_one [] size result small inside (omega arith))
one_words-first_one (a ∷ []) size result small inside fits =
    let short : ltb size 32 ≡ true = ground arith in
    rw short (one_last-first_one (a ∷ []) size result small inside (omega arith))
one_words-first_one (a ∷ b ∷ []) size result small inside fits =
    let short : ltb size 32 ≡ true = ground arith in
    rw short (one_last-first_one (a ∷ b ∷ []) size result small inside (omega arith))
one_words-first_one (a ∷ b ∷ c ∷ []) size result small inside fits =
    let short : ltb size 32 ≡ true = ground arith in
    rw short (one_last-first_one (a ∷ b ∷ c ∷ []) size result small inside (omega arith))
one_words-first_one (a ∷ b ∷ c ∷ d ∷ p) size result small inside fits =
    let four : All Byte (a ∷ b ∷ c ∷ d ∷ []) =
      (small.0, (small.1.0, (small.1.1.0, (small.1.1.1.0, tt)))) in
    let t = number_of (a ∷ b ∷ c ∷ d ∷ []) in
    let large = number_of-lt 4 (a ∷ b ∷ c ∷ d ∷ []) four (omega arith) in
    elim (Bool-cases (ltb size 32)) [
      | inl short ↦
          rw short (one_last-first_one (a ∷ b ∷ c ∷ d ∷ p) size result small inside (ground arith))
      | inr long ↦
          let enough : 32 ≤ size = ground arith in
          let spread : take size (bits_of (a ∷ b ∷ c ∷ d ∷ p))
              ≡ bits 32 t ++ take (size - 32) (bits_of p) =
            ap (take size) (word-bits a b c d p four) ∙ take-word size t (bits_of p) enough in
          rw long (elim (Bool-cases (t == 0)) [
            | inl empty ↦
                let e : t ≡ 0 = ground arith in
                let next : u32 (result + 32) ≡ result + 32 = omega arith in
                let none : first_one (bits 32 t) ≡ length (bits 32 t) =
                  ap (λ (k : ℕ). first_one (bits 32 k)) e
                  ∙ first_one-zero 32
                  ∙ sym (length-bits 32 t) in
                let skip : result + 32 + first_one (take (size - 32) (bits_of p))
                    ≡ result + first_one (bits 32 t ++ take (size - 32) (bits_of p)) =
                  omega (
                    arith,
                    first_one-append_none (bits 32 t) (take (size - 32) (bits_of p)) none,
                    length-bits 32 t,
                  ) in
                rw empty (
                  rw next (
                    one_words-first_one p (size - 32) (result + 32) small.1.1.1.1 (omega arith)
                      (omega arith)
                    ∙ ap ok (skip ∙ ap (λ (l : List ℕ). result + first_one l) (sym spread))))
            | inr some_bit ↦ rw some_bit (
                one_middle-first_one result t large
                ∙ ap ok (
                    ap (λ (k : ℕ). result + k)
                      (sym (
                          first_one-append_found (bits 32 t) (take (size - 32) (bits_of p)) (
                            omega
                              (arith, first_one-lt 32 t large (ground arith), length-bits 32 t)))
                        ∙ ap first_one (sym spread))))
          ])
    ]

-- ===== src/Bitmap/FindOne.antt =====
-- `udf_find_next_one_bit` finds the first bit that is set.
use udftools.Base.{
  ℕ, ◌+◌, ◌-◌, ◌*◌, ◌/◌, ◌%◌, ◌^◌, ◌≤◌, ◌<◌, ◌≡◌, refl, sym, ap, ◌∙◌, arith, bit_and, List, [], ◌∷◌,
  ◌++◌, length, take, drop, replicate, number_of, All, ◌==◌, ltb, leb, drop-take, drop-drop,
  take-append_short, ◌⊎◌, length-drop, drop-append, ok, u32, inl, inr, Bool-cases, ◌<<<◌,
}
use mathlib.Core.List.{append_assoc}
use udftools.Bitmap.{all_ones, one_inside, word, udf_find_next_one_bit}
use udftools.Bitmap.Digits.{
  bits, bits_of, first_one, first_one-lt, first_one-zero, length-bits, bits-mask_low,
}
use udftools.Bitmap.Masks.{Byte, bits-mod, masks}
use udftools.Bitmap.Ones.{
  one_middle-first_one, one_first-first_one, one_words-first_one, word-bits, take-word,
}
use udftools.Bitmap.Search.{
  next_one, first_one-append_found, first_one-append_none, first_one-masked, take-masked,
  bits_of-drop, All-drop,
}

-- A search that starts inside a word.
one_inside-first_one :
    (p : List ℕ) (size o result : ℕ)
    → All Byte p
    → size ≤ 8 * length p
    → 4 ≤ length p
    → result + size < 2 ^ 32
    → o < 32
    → o < size
    → one_inside p size o result ≡ ok (result + o + first_one (drop o (take size (bits_of p))))
unfolding one_inside word
one_inside-first_one [] size o result small inside whole fits low before = absurd (omega arith)
one_inside-first_one (a ∷ []) size o result small inside whole fits low before =
    absurd (omega arith)
one_inside-first_one (a ∷ b ∷ []) size o result small inside whole fits low before =
    absurd (omega arith)
one_inside-first_one (a ∷ b ∷ c ∷ []) size o result small inside whole fits low before =
    absurd (omega arith)
one_inside-first_one (a ∷ b ∷ c ∷ d ∷ p) size o result small inside whole fits low before =
    let four : All Byte (a ∷ b ∷ c ∷ d ∷ []) =
      (small.0, (small.1.0, (small.1.1.0, (small.1.1.1.0, tt)))) in
    let t = number_of (a ∷ b ∷ c ∷ d ∷ []) in
    let x = u32 (bit_and t ((all_ones <<< o) % 2 ^ 64)) in
    let small_x : x < 2 ^ 32 = omega arith in
    let masked : bits 32 x ≡ replicate o 0 ++ drop o (bits 32 t) =
      ap (λ (m : ℕ). bits 32 (u32 (bit_and t m))) (masks o low).1
      ∙ bits-mod 32 32 (bit_and t (2 ^ 64 - 2 ^ o)) (omega arith)
      ∙ bits-mask_low 64 32 o t (omega arith) (omega arith) in
    let count = length-bits 32 t in
    let count_x = length-bits 32 x in
    elim (Bool-cases (ltb size 32)) [
      | inl short ↦
          let shown : take size (bits 32 x)
              ≡ replicate o 0 ++ drop o (take size (bits_of (a ∷ b ∷ c ∷ d ∷ p))) =
            ap (take size) masked
            ∙ take-masked o size (bits 32 t) (omega arith) (ground arith)
            ∙ ap (λ l. replicate o 0 ++ drop o l)
                (sym (
                  ap (take size) (word-bits a b c d p four)
                  ∙ take-append_short size (bits 32 t) (bits_of p) (ground arith))) in
          rw short (
            one_first-first_one result size x (ground arith) small_x
            ∙ ap (λ (l : List ℕ). ok (result + first_one l)) shown
            ∙ ap ok (
                let rest = drop o (take size (bits_of (a ∷ b ∷ c ∷ d ∷ p))) in
                let e : result + first_one (replicate o 0 ++ rest) ≡ result + o + first_one rest =
                  omega (arith, first_one-masked o rest) in
                e))
      | inr long ↦
          let behind = take (size - 32) (bits_of p) in
          let spread : drop o (take size (bits_of (a ∷ b ∷ c ∷ d ∷ p)))
              ≡ drop o (bits 32 t) ++ behind =
            ap (λ l. drop o (take size l)) (word-bits a b c d p four)
            ∙ ap (drop o) (take-word size t (bits_of p) (ground arith))
            ∙ drop-append o (bits 32 t) behind (omega arith) in
          let joined : o + first_one (drop o (bits 32 t) ++ behind)
              ≡ first_one (bits 32 x ++ behind) =
            sym (first_one-masked o (drop o (bits 32 t) ++ behind))
            ∙ ap first_one (
                sym (append_assoc (replicate o 0) (drop o (bits 32 t)) behind)
                ∙ ap (λ l. l ++ behind) (sym masked)) in
          let goal : result + o + first_one (drop o (take size (bits_of (a ∷ b ∷ c ∷ d ∷ p))))
              ≡ result + first_one (bits 32 x ++ behind) =
            omega (arith, ap first_one spread, joined) in
          rw long (elim (Bool-cases (x == 0)) [
            | inl empty ↦
                let e : x ≡ 0 = ground arith in
                let next : u32 (result + 32) ≡ result + 32 = ground arith in
                let nothing : first_one (bits 32 x) ≡ length (bits 32 x) =
                  ap (λ (k : ℕ). first_one (bits 32 k)) e ∙ first_one-zero 32 ∙ sym count_x in
                let skip : result + 32 + first_one behind
                    ≡ result + first_one (bits 32 x ++ behind) =
                  omega (arith, first_one-append_none (bits 32 x) behind nothing) in
                rw empty (
                  rw next (
                    one_words-first_one p (size - 32) (result + 32) small.1.1.1.1 (ground arith)
                      (ground arith)
                    ∙ ap ok (skip ∙ sym goal)))
            | inr some_bit ↦ rw some_bit (
                one_middle-first_one result x small_x
                ∙ ap ok (
                    ap (λ (k : ℕ). result + k)
                      (sym (
                        first_one-append_found (bits 32 x) behind
                          (omega (arith, first_one-lt 32 x small_x (ground arith)))))
                    ∙ sym goal))
          ])
    ]

-- The bits behind a word of the bitmap.
pub bits-behind :
    (addr : List ℕ) (size q o : ℕ)
    → drop o (take (size - 32 * q) (bits_of (drop (4 * q) addr)))
      ≡ drop (32 * q + o) (take size (bits_of addr))
bits-behind addr size q o =
    let e : 8 * (4 * q) ≡ 32 * q = omega arith in
    ap (λ l. drop o (take (size - 32 * q) l))
      (bits_of-drop (4 * q) addr ∙ ap (λ k. drop k (bits_of addr)) e)
    ∙ ap (drop o) (sym (drop-take (32 * q) size (bits_of addr)))
    ∙ drop-drop (32 * q) o (take size (bits_of addr))

-- The search for a set bit returns the first one from the offset on that is set among the first
-- `size` bits, and `size` where there is none. The bitmap must hold `size` bits, and where the offset
-- is inside a word of 32 bits, all four bytes of that word.
pub udf_find_next_one_bit-next_one :
    (addr : List ℕ) (size offset : ℕ)
    → All Byte addr
    → size ≤ 8 * length addr
    → size < 2 ^ 32
    → (offset % 32 ≡ 0) ⊎ (4 * (offset / 32) + 4 ≤ length addr)
    → udf_find_next_one_bit addr size offset ≡ ok (next_one (bits_of addr) size offset)
unfolding udf_find_next_one_bit next_one
udf_find_next_one_bit-next_one addr size offset small inside fits whole =
    let q = offset / 32 in
    let o = offset % 32 in
    let p = drop (4 * q) addr in
    elim (Bool-cases (leb size offset)) [
      | inl past ↦ rw past refl
      | inr before ↦
          let h : offset < size = ground arith in
          let result : u32 (q * 32) ≡ 32 * q = omega arith in
          let there : size - 32 * q ≤ 8 * length p = omega (arith, length-drop {0} (4 * q) addr) in
          let small_p = All-drop (4 * q) addr small in
          let whole_offset : 32 * q + o ≡ offset = omega arith in
          let tail : drop o (take (size - 32 * q) (bits_of p))
              ≡ drop offset (take size (bits_of addr)) =
            bits-behind addr size q o ∙ ap (λ k. drop k (take size (bits_of addr))) whole_offset in
          rw before (
            rw result (elim (Bool-cases (o == 0)) [
              | inl aligned ↦
                  let z : o ≡ 0 = ground arith in
                  let start : 32 * q ≡ offset = omega arith in
                  let tail' : take (size - 32 * q) (bits_of p)
                      ≡ drop offset (take size (bits_of addr)) =
                    ap (λ k. drop k (take (size - 32 * q) (bits_of p))) (sym z) ∙ tail in
                  rw aligned (
                    one_words-first_one p (size - 32 * q) (32 * q) small_p there (omega arith)
                    ∙ ap (λ (l : List ℕ). ok (32 * q + first_one l)) tail'
                    ∙ ap (λ (k : ℕ). ok (k + first_one (drop offset (take size (bits_of addr)))))
                        start)
              | inr unaligned ↦
                  let room : 4 ≤ length p = ground (arith, length-drop {0} (4 * q) addr) in
                  rw unaligned (
                    one_inside-first_one p (size - 32 * q) o (32 * q) small_p there room
                      (omega arith) (omega arith) (omega arith)
                    ∙ ap (λ (l : List ℕ). ok (32 * q + o + first_one l)) tail
                    ∙ ap (λ (k : ℕ). ok (k + first_one (drop offset (take size (bits_of addr)))))
                        whole_offset)
            ]))
    ]

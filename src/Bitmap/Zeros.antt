-- ===== src/Bitmap/Zeros.antt =====
-- The search for a clear bit, from the start of a word on and from inside one.
use native.Mathlib.Nat.{pow-suc, one-le-pow}
use udftools.Base.{
  ℕ, zero, suc, ◌+◌, ◌-◌, ◌*◌, ◌/◌, ◌%◌, ◌^◌, ◌≤◌, ◌<◌, ◌≡◌, refl, sym, ap, ◌∙◌, arith, bit_or,
  List, [], ◌∷◌, ◌++◌, length, take, drop, replicate, number_of, All, ◌==◌, ltb, if◌then◌else◌,
  length-take, ok, u32, true, false, inl, inr, Bool-cases, ◌<<<◌, ◌>>>◌,
}
use udftools.Bitmap.{all_ones, zero_middle, zero_first, zero_last, zero_words, zero_inside, word}
use udftools.Bitmap.Digits.{bits, bits_of, first_zero, first_zero-ones, first_zero-lt, length-bits}
use udftools.Bitmap.Masks.{
  Byte, bits-mod, bits-mask_high, bit_or-ones, number_of-lt, ffz-first_zero, masks,
}
use udftools.Bitmap.Search.{
  first_zero-append_found, first_zero-append_none, first_zero-le, take-bits, part_word-bits,
}
use udftools.Bitmap.Ones.{word-bits, take-word}

ones_replicated : (k : ℕ) → first_zero (replicate k 1) ≡ k
unfolding first_zero
ones_replicated zero = refl
ones_replicated (suc k) = ap suc (ones_replicated k)

ones_part : (s n : ℕ) → s ≤ n → first_zero (bits s (2 ^ n - 1)) ≡ s
unfolding first_zero bits
ones_part zero n h = refl
ones_part (suc s) zero h = absurd (omega arith)
ones_part (suc s) (suc n) h =
    let one : (2 ^ suc n - 1) % 2 ≡ 1 = omega (arith, pow-suc 2 n, one-le-pow n 2) in
    let half : (2 ^ suc n - 1) / 2 ≡ 2 ^ n - 1 = omega (arith, pow-suc 2 n, one-le-pow n 2) in
    rw (one, half) (ap suc (ones_part s n (omega arith)))

zero_middle-first_zero :
    (result t : ℕ) → t < 2 ^ 32 → zero_middle result t ≡ ok (result + first_zero (bits 32 t))
unfolding zero_middle
zero_middle-first_zero result t small = rw (ffz-first_zero 32 t small (omega arith)) refl

-- Digits filled with ones behind those that count.
filled_first :
    (l : List ℕ) (k : ℕ)
    → (first_zero (l ++ replicate k 1) < length l + k
        → first_zero (l ++ replicate k 1) ≡ first_zero l)
      × (first_zero (l ++ replicate k 1) ≡ length l + k → first_zero l ≡ length l)
filled_first l k =
    let found = first_zero-append_found l (replicate k 1) in
    let none = first_zero-append_none l (replicate k 1) in
    (
      ground (arith, found, none, first_zero-le l, ones_replicated k),
      ground (arith, found, none, first_zero-le l, ones_replicated k),
    )

zero_first-first_zero :
    (result size w : ℕ)
    → size < 32
    → w < 2 ^ 32
    → zero_first result size w ≡ ok (result + first_zero (take size (bits 32 w)))
unfolding zero_first
zero_first-first_zero result size w short small =
    let x = u32 (bit_or w ((all_ones <<< size) % 2 ^ 64)) in
    let l = take size (bits 32 w) in
    let small_x : x < 2 ^ 32 = omega arith in
    let shown : bits 32 x ≡ l ++ replicate (32 - size) 1 =
      ap (λ (m : ℕ). bits 32 (u32 (bit_or w m))) (masks size short).1
      ∙ bits-mod 32 32 (bit_or w (2 ^ 64 - 2 ^ size)) (omega arith)
      ∙ bits-mask_high 64 32 size w (omega arith) (omega arith) in
    let long : length l ≡ size = length-take size (bits 32 w) (omega (arith, length-bits 32 w)) in
    let cases = filled_first l (32 - size) in
    elim (Bool-cases (x == 2 ^ 32 - 1)) [
      | inl full ↦
          let e : x ≡ 2 ^ 32 - 1 = ground arith in
          let all : first_zero (l ++ replicate (32 - size) 1) ≡ 32 =
            ap first_zero (sym shown)
            ∙ ap (λ (k : ℕ). first_zero (bits 32 k)) e
            ∙ first_zero-ones 32 in
          rw full (ap ok (ap (λ (k : ℕ). result + k) (sym (cases.1 (omega arith) ∙ long))))
      | inr some_zero ↦
          let less : first_zero (l ++ replicate (32 - size) 1) < length l + (32 - size) =
            let h = first_zero-lt 32 x small_x (ground arith) in
            omega (arith, ap first_zero shown) in
          rw some_zero (
            zero_middle-first_zero result x small_x
            ∙ ap (λ (k : ℕ). ok (result + k)) (ap first_zero shown ∙ cases.0 less))
    ]

zero_last-first_zero :
    (p : List ℕ) (size result : ℕ)
    → All Byte p
    → size ≤ 8 * length p
    → size < 32
    → zero_last p size result ≡ ok (result + first_zero (take size (bits_of p)))
unfolding zero_last
zero_last-first_zero p zero result small inside short =
    unfold first_zero in ap ok (let e : result ≡ result + 0 = omega arith in e)
zero_last-first_zero p (suc n) result small inside short =
    let more : (suc n == 0) ≡ false = ground arith in
    let part = part_word-bits p (suc n) small inside short in
    rw more (
      rw part.1 (
        zero_first-first_zero result (suc n) part.0 short part.2
        ∙ ap (λ (l : List ℕ). ok (result + first_zero l)) (part.3 32 (omega arith))))

pub zero_words-first_zero :
    (p : List ℕ) (size result : ℕ)
    → All Byte p
    → size ≤ 8 * length p
    → result + size < 2 ^ 32
    → zero_words p size result ≡ ok (result + first_zero (take size (bits_of p)))
unfolding zero_words
zero_words-first_zero [] size result small inside fits =
    let short : ltb size 32 ≡ true = ground arith in
    rw short (zero_last-first_zero [] size result small inside (omega arith))
zero_words-first_zero (a ∷ []) size result small inside fits =
    let short : ltb size 32 ≡ true = ground arith in
    rw short (zero_last-first_zero (a ∷ []) size result small inside (omega arith))
zero_words-first_zero (a ∷ b ∷ []) size result small inside fits =
    let short : ltb size 32 ≡ true = ground arith in
    rw short (zero_last-first_zero (a ∷ b ∷ []) size result small inside (omega arith))
zero_words-first_zero (a ∷ b ∷ c ∷ []) size result small inside fits =
    let short : ltb size 32 ≡ true = ground arith in
    rw short (zero_last-first_zero (a ∷ b ∷ c ∷ []) size result small inside (omega arith))
zero_words-first_zero (a ∷ b ∷ c ∷ d ∷ p) size result small inside fits =
    let four : All Byte (a ∷ b ∷ c ∷ d ∷ []) =
      (small.0, (small.1.0, (small.1.1.0, (small.1.1.1.0, tt)))) in
    let t = number_of (a ∷ b ∷ c ∷ d ∷ []) in
    let large = number_of-lt 4 (a ∷ b ∷ c ∷ d ∷ []) four (omega arith) in
    let count = length-bits 32 t in
    elim (Bool-cases (ltb size 32)) [
      | inl short ↦
          rw short
            (zero_last-first_zero (a ∷ b ∷ c ∷ d ∷ p) size result small inside (ground arith))
      | inr long ↦
          let behind = take (size - 32) (bits_of p) in
          let spread : take size (bits_of (a ∷ b ∷ c ∷ d ∷ p)) ≡ bits 32 t ++ behind =
            ap (take size) (word-bits a b c d p four)
            ∙ take-word size t (bits_of p) (ground arith) in
          rw long (elim (Bool-cases (t == 2 ^ 32 - 1)) [
            | inl full ↦
                let e : t ≡ 2 ^ 32 - 1 = ground arith in
                let next : u32 (result + 32) ≡ result + 32 = ground arith in
                let nothing : first_zero (bits 32 t) ≡ length (bits 32 t) =
                  ap (λ (k : ℕ). first_zero (bits 32 k)) e ∙ first_zero-ones 32 ∙ sym count in
                let skip : result + 32 + first_zero behind
                    ≡ result + first_zero (bits 32 t ++ behind) =
                  omega (arith, first_zero-append_none (bits 32 t) behind nothing) in
                rw full (
                  rw next (
                    zero_words-first_zero p (size - 32) (result + 32) small.1.1.1.1 (ground arith)
                      (ground arith)
                    ∙ ap ok (skip ∙ ap (λ (l : List ℕ). result + first_zero l) (sym spread))))
            | inr some_zero ↦ rw some_zero (
                zero_middle-first_zero result t large
                ∙ ap ok (
                    ap (λ (k : ℕ). result + k)
                      (sym (
                          first_zero-append_found (bits 32 t) behind
                            (omega (arith, first_zero-lt 32 t large (ground arith))))
                        ∙ ap first_zero (sym spread))))
          ])
    ]

-- A search that starts inside a word goes on behind it, as if the word were full of ones.
pub zero_inside-skips :
    (p : List ℕ) (size o result : ℕ)
    → All Byte p
    → size ≤ 8 * length p
    → 4 ≤ length p
    → result + size < 2 ^ 32
    → 0 < o
    → o < 32
    → zero_inside p size o result
      ≡ ok (
          if ltb size 32
          then result + size
          else result + 32 + first_zero (take (size - 32) (bits_of (drop 4 p))))
unfolding zero_inside word
zero_inside-skips [] size o result small inside whole fits some_bits low = absurd (omega arith)
zero_inside-skips (a ∷ []) size o result small inside whole fits some_bits low =
    absurd (omega arith)
zero_inside-skips (a ∷ b ∷ []) size o result small inside whole fits some_bits low =
    absurd (omega arith)
zero_inside-skips (a ∷ b ∷ c ∷ []) size o result small inside whole fits some_bits low =
    absurd (omega arith)
zero_inside-skips (a ∷ b ∷ c ∷ d ∷ p) size o result small inside whole fits some_bits low =
    let four : All Byte (a ∷ b ∷ c ∷ d ∷ []) =
      (small.0, (small.1.0, (small.1.1.0, (small.1.1.1.0, tt)))) in
    let t = number_of (a ∷ b ∷ c ∷ d ∷ []) in
    let large = number_of-lt 4 (a ∷ b ∷ c ∷ d ∷ []) four (omega arith) in
    let mask = masks o low in
    let full : u32 (bit_or t (all_ones >>> (32 - o))) ≡ 2 ^ 32 - 1 =
      ap (λ (m : ℕ). u32 (bit_or t m)) mask.0
      ∙ ap u32 (bit_or-ones (32 + o) t (let h : t < 2 ^ (32 + o) = omega (arith, mask.2) in h))
      ∙ mask.3 in
    rw full (elim (Bool-cases (ltb size 32)) [
      | inl short ↦ rw short (
          zero_first-first_zero result size (2 ^ 32 - 1) (ground arith) (omega arith)
          ∙ ap (λ (k : ℕ). ok (result + k))
              (ap first_zero (take-bits size 32 (2 ^ 32 - 1) (ground arith))
                ∙ ones_part size 32 (ground arith)))
      | inr long ↦
          let next : u32 (result + 32) ≡ result + 32 = ground arith in
          rw long (
            rw next (
              zero_words-first_zero p (size - 32) (result + 32) small.1.1.1.1 (ground arith)
                (ground arith)))
    ])

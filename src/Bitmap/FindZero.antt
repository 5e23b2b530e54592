-- ===== src/Bitmap/FindZero.antt =====
-- `udf_find_next_zero_bit` finds the first clear bit from the next word on.
use udftools.Base.{
  ℕ, suc, ◌+◌, ◌-◌, ◌*◌, ◌/◌, ◌%◌, ◌^◌, ◌≤◌, ◌<◌, ◌≡◌, ◌⊎◌, refl, ap, ◌∙◌, arith, List, length,
  take, drop, All, ◌==◌, ltb, leb, length-drop, drop-drop, ok, u32, true, false, inl, inr,
  Bool-cases,
}
use udftools.Bitmap.{udf_find_next_zero_bit}
use udftools.Bitmap.Digits.{bits_of, first_zero}
use udftools.Bitmap.Masks.{Byte}
use udftools.Bitmap.Search.{next_zero, All-drop}
use udftools.Bitmap.FindOne.{bits-behind}
use udftools.Bitmap.Zeros.{zero_words-first_zero, zero_inside-skips}

-- What is found from the next word on.
skipped :
    (addr : List ℕ) (size q : ℕ)
    → 32 * suc q ≤ size
    → ok (
        32 * q + 32 + first_zero (take (size - 32 * q - 32) (bits_of (drop 4 (drop (4 * q) addr)))))
      ≡ ok (next_zero (bits_of addr) size (32 * suc q + 0))
unfolding next_zero
skipped addr size q h =
    let l = take size (bits_of addr) in
    let words : 4 * q + 4 ≡ 4 * suc q = omega arith in
    let left : size - 32 * q - 32 ≡ size - 32 * suc q = omega arith in
    let tail : first_zero (take (size - 32 * q - 32) (bits_of (drop 4 (drop (4 * q) addr))))
        ≡ first_zero (drop (32 * suc q + 0) l) =
      ap (λ b. first_zero (take (size - 32 * q - 32) (bits_of b))) (drop-drop (4 * q) 4 addr)
      ∙ ap (λ k. first_zero (take (size - 32 * q - 32) (bits_of (drop k addr)))) words
      ∙ ap (λ k. first_zero (take k (bits_of (drop (4 * suc q) addr)))) left
      ∙ ap first_zero (bits-behind addr size (suc q) 0) in
    elim (Bool-cases (leb size (32 * suc q + 0))) [
      | inl end ↦
          let e : size ≡ 32 * suc q = ground arith in
          let none : first_zero (take (size - 32 * q - 32) (bits_of (drop 4 (drop (4 * q) addr))))
              ≡ 0 =
            let z : size - 32 * q - 32 ≡ 0 = omega arith in unfold first_zero in rw z refl in
          rw end (
            ap ok (
              let e : 32 * q
                    + 32
                    + first_zero (take (size - 32 * q - 32) (bits_of (drop 4 (drop (4 * q) addr))))
                  ≡ size =
                omega arith in
              e))
      | inr more ↦ rw more (
          ap ok (
            let e : 32 * q
                  + 32
                  + first_zero (take (size - 32 * q - 32) (bits_of (drop 4 (drop (4 * q) addr))))
                ≡ 32 * suc q + 0 + first_zero (drop (32 * suc q + 0) l) =
              omega (arith, tail) in
            e))
    ]

-- The search for a clear bit returns the first one that is clear from the next multiple of 32 on, and
-- `size` where there is none: at an offset inside a word of 32 bits the rest of the word is not
-- searched. The bitmap must hold `size` bits, and where the offset is inside a word, all four bytes of
-- that word.
pub udf_find_next_zero_bit-next_zero :
    (addr : List ℕ) (size offset : ℕ)
    → All Byte addr
    → size ≤ 8 * length addr
    → size < 2 ^ 32
    → (offset % 32 ≡ 0) ⊎ (4 * (offset / 32) + 4 ≤ length addr)
    → udf_find_next_zero_bit addr size offset
      ≡ ok (next_zero (bits_of addr) size ((offset + 31) / 32 * 32))
unfolding udf_find_next_zero_bit next_zero
udf_find_next_zero_bit-next_zero addr size offset small inside fits whole =
    let q = offset / 32 in
    let o = offset % 32 in
    let up = (offset + 31) / 32 * 32 in
    let p = drop (4 * q) addr in
    let l = take size (bits_of addr) in
    elim (Bool-cases (leb size offset)) [
      | inl past ↦ let past' : leb size up ≡ true = ground arith in rw (past, past') refl
      | inr before ↦
          let h : offset < size = ground arith in
          let result : u32 (q * 32) ≡ 32 * q = omega arith in
          let there : size - 32 * q ≤ 8 * length p = omega (arith, length-drop {0} (4 * q) addr) in
          let small_p = All-drop (4 * q) addr small in
          rw before (
            rw result (elim (Bool-cases (o == 0)) [
              | inl aligned ↦
                  let z : up ≡ 32 * q + 0 = ground arith in
                  let before' : leb size (32 * q + 0) ≡ false = ground arith in
                  let tail : first_zero (take (size - 32 * q) (bits_of p))
                      ≡ first_zero (drop (32 * q + 0) l) =
                    ap first_zero (bits-behind addr size q 0) in
                  rw aligned (
                    rw z (
                      rw before' (
                        zero_words-first_zero p (size - 32 * q) (32 * q) small_p there (omega arith)
                        ∙ ap ok (
                            let e : 32 * q + first_zero (take (size - 32 * q) (bits_of p))
                                ≡ 32 * q + 0 + first_zero (drop (32 * q + 0) l) =
                              omega (arith, tail) in
                            e))))
              | inr unaligned ↦
                  let room : 4 ≤ length p = ground (arith, length-drop {0} (4 * q) addr) in
                  let z : up ≡ 32 * suc q + 0 = ground arith in
                  let skips =
                    zero_inside-skips p (size - 32 * q) o (32 * q) small_p there room (omega arith)
                      (ground arith) (omega arith) in
                  rw unaligned (
                    rw z (
                      rw skips (elim (Bool-cases (ltb (size - 32 * q) 32)) [
                        | inl short ↦
                            let past' : leb size (32 * suc q + 0) ≡ true = ground arith in
                            rw (short, past')
                              (ap ok (let e : 32 * q + (size - 32 * q) ≡ size = omega arith in e))
                        | inr long ↦ rw long (skipped addr size q (ground arith))
                      ])))
            ]))
    ]

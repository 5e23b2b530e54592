-- ===== src/Bitmap/Free.antt =====
-- The allocation of one block in a space bitmap finds the first free block that is aligned.
use native.Mathlib.Nat.{one-le-pow}
use native.Mathlib.Decide.{dec_le}
use udftools.Base.{
  ℕ, zero, suc, ◌+◌, ◌-◌, ◌*◌, ◌/◌, ◌%◌, ◌^◌, ◌≤◌, ◌<◌, ◌≡◌, ◌≢◌, ◌⊎◌, refl, ap, ◌∙◌, arith,
  bit_and, length, All, ◌==◌, ltb, get_or, ok, Run, fault, exit_failure, out_of_fuel, sub32, add32,
  ◌<<<◌, false, inl, inr, Bool-cases,
}
use udftools.Bitmap.Alloc.{SpaceBitmapDesc, free_run, find_blocks}
use udftools.Bitmap.Digits.{bits_of}
use udftools.Bitmap.Masks.{Byte}
use udftools.Bitmap.Search.{next_one, next_zero, length-bits_of}
use udftools.Bitmap.FindOne.{udf_find_next_one_bit-next_one}
use udftools.Bitmap.FindZero.{udf_find_next_zero_bit-next_zero}
use udftools.Bitmap.Find.{next_one-behind, next_zero-behind, bit_test, align_up-least}

-- The bits of a bitmap descriptor and the memory that holds them: whole words of 32 bits.
unfoldable pub Holds : SpaceBitmapDesc → Type 0
Holds sbd = All Byte sbd.bitmap × (4 * ((sbd.num_of_bits + 31) / 32) ≤ length sbd.bitmap)

-- A block that is free.
unfoldable pub Free : SpaceBitmapDesc → ℕ → Type 0
Free sbd j = get_or (bits_of sbd.bitmap) j 0 ≢ 0

-- Of the aligned blocks from `start` on the first free one; the program leaves only where none is
-- free.
unfoldable pub First : SpaceBitmapDesc → ℕ → ℕ → Run ℕ → Type 0
unfolding Free
First sbd alignment start (ok s) =
    (start ≤ s)
    × (s < sbd.num_of_bits)
    × (s % alignment ≡ 0)
    × Free sbd s
    × ((j : ℕ) → start ≤ j → j < s → j % alignment ≡ 0 → get_or (bits_of sbd.bitmap) j 0 ≡ 0)
First sbd alignment start exit_failure =
    (j : ℕ)
    → start ≤ j
    → j < sbd.num_of_bits
    → j % alignment ≡ 0
    → get_or (bits_of sbd.bitmap) j 0 ≡ 0
First sbd alignment start fault = ⊥
First sbd alignment start out_of_fuel = ⊥

module _ (sbd : SpaceBitmapDesc) (alignment : ℕ) (pos : 0 < alignment) (held : Holds sbd)
    (fits : sbd.num_of_bits + alignment < 2 ^ 32) where
  -- Blocks that are passed over hold no free aligned one.
  First-earlier :
      (start later : ℕ) (r : Run ℕ)
      → start ≤ later
      → ((j : ℕ) → start ≤ j → j < later → j % alignment ≡ 0 → get_or (bits_of sbd.bitmap) j 0 ≡ 0)
      → First sbd alignment later r
      → First sbd alignment start r
  unfolding First
  First-earlier start later (ok s) h passed first = (
    omega (arith, first.0),
    first.1,
    first.2,
    first.3,
    λ j low high aligned. elim (dec_le later j) [
      | yes le ↦ first.4 j le high aligned
      | no gt ↦ passed j low (omega arith) aligned
    ],
  )
  First-earlier start later exit_failure h passed first = λ j low high aligned.
      elim (dec_le later j) [
        | yes le ↦ first j le high aligned
        | no gt ↦ passed j low (omega arith) aligned
      ]
  First-earlier start later fault h passed first = first
  First-earlier start later out_of_fuel h passed first = first

  -- One round at an aligned block inside the bitmap.
  free_run-cases :
      (r : ℕ)
      → r < sbd.num_of_bits
      → ((o : ℕ) × (free_run sbd r ≡ ok (o, o))
          × (r < o)
          × (o ≤ sbd.num_of_bits)
          × ((j : ℕ) → r ≤ j → j < o → get_or (bits_of sbd.bitmap) j 0 ≡ 0))
        ⊎ (let end = next_zero (bits_of sbd.bitmap) sbd.num_of_bits ((r + 31) / 32 * 32) in
            (free_run sbd r ≡ ok (r, end)) × (r < end) × (end ≤ sbd.num_of_bits) × Free sbd r)
  unfolding free_run Holds Free
  free_run-cases r inside =
      let size = sbd.num_of_bits in
      let l = bits_of sbd.bitmap in
      let room : size ≤ 8 * length sbd.bitmap = omega (arith, held.1) in
      let room' : size ≤ length l = omega (arith, length-bits_of sbd.bitmap) in
      let words : 4 * (r / 32) + 4 ≤ length sbd.bitmap = omega (arith, held.1) in
      let test = bit_test sbd.bitmap (r / 8) (r % 8) (omega arith) (omega arith) in
      let whole : 8 * (r / 8) + r % 8 ≡ r = omega arith in
      let read : bit_and test.0 (1 <<< (r % 8)) ≡ get_or l r 0 * 2 ^ (r % 8) =
        ap (bit_and test.0) (let e : 1 <<< (r % 8) ≡ 2 ^ (r % 8) = omega arith in e)
        ∙ test.2
        ∙ ap (λ (k : ℕ). get_or l k 0 * 2 ^ (r % 8)) whole in
      let power = one-le-pow (r % 8) 2 (omega arith) in
      elim (Bool-cases (bit_and test.0 (1 <<< (r % 8)) == 0)) [
        | inl zero_bit ↦
            let clear : get_or l r 0 ≡ 0 =
              product_zero (get_or l r 0) (2 ^ (r % 8)) power (ground (arith, read)) in
            let found = next_one-behind l size r room' inside clear in
            let search =
              udf_find_next_one_bit-next_one sbd.bitmap size r held.0 room (omega arith)
                (inr words) in
            inl (
              next_one l size r,
              rw test.1 (rw zero_bit (rw search refl)),
              found.0,
              found.1,
              found.2,
            )
        | inr one_bit ↦
            let set : get_or l r 0 ≢ 0 = λ z.
              let e : get_or l r 0 * 2 ^ (r % 8) ≡ 0 =
                ap (λ (x : ℕ). x * 2 ^ (r % 8)) z ∙ omega arith in
              let f : bit_and test.0 (1 <<< (r % 8)) ≡ 0 = read ∙ e in absurd (ground arith) in
            let found = next_zero-behind l size r room' inside set in
            let search =
              udf_find_next_zero_bit-next_zero sbd.bitmap size r held.0 room (omega arith)
                (inr words) in
            inr (rw test.1 (rw one_bit (rw search refl)), found.0, found.1, set)
      ]
    where
      product_zero : (a p : ℕ) → 1 ≤ p → a * p ≡ 0 → a ≡ 0
      product_zero zero p h e = refl
      product_zero (suc a) p h e = absurd (grind arith)

  -- One round at a free block.
  pub free_run-set :
      (r : ℕ)
      → r < sbd.num_of_bits
      → Free sbd r
      → let end = next_zero (bits_of sbd.bitmap) sbd.num_of_bits ((r + 31) / 32 * 32) in
        (free_run sbd r ≡ ok (r, end)) × (r < end) × (end ≤ sbd.num_of_bits)
  free_run-set r inside free = elim (free_run-cases r inside) [
    | inl clear ↦ absurd (unfold Free in free (clear.4 r (omega arith) clear.2))
    | inr set ↦ (set.0, set.1, set.2)
  ]

  -- A search for one block ends, with more fuel than there are blocks to pass.
  pub find_blocks-First :
      (fuel start : ℕ)
      → start ≤ sbd.num_of_bits
      → sbd.num_of_bits - start < fuel
      → First sbd alignment start (find_blocks fuel sbd alignment start 1)
  unfolding find_blocks
  find_blocks-First zero start inside enough = absurd (omega arith)
  find_blocks-First (suc fuel) start inside enough =
      let size = sbd.num_of_bits in
      let up = align_up-least start alignment pos (omega arith) in
      let r = up.0 in
      let next : add32 r 1 ≡ r + 1 = omega (arith, up.3) in
      rw up.1 (
        rw next (elim (Bool-cases (ltb size (r + 1))) [
          | inl full ↦ rw full (
              unfold First in
              λ j low high aligned. let least = up.5 j low aligned in absurd (ground (arith, full)))
          | inr room ↦
              let inside' : r < size = ground arith in
              rw room (elim (free_run-cases r inside') [
                | inl clear ↦
                    let o = clear.0 in
                    let none : sub32 o o ≡ 0 = omega (arith, clear.3) in
                    rw clear.1 (
                      rw none (
                        First-earlier start o (find_blocks fuel sbd alignment o 1)
                          (omega (arith, clear.2, up.2))
                          (λ j low high aligned. clear.4 j (up.5 j low aligned) high)
                          (find_blocks-First fuel o clear.3 (omega (arith, clear.2, up.2)))))
                | inr free ↦
                    let some_blocks : ltb
                          (sub32 (next_zero (bits_of sbd.bitmap) size ((r + 31) / 32 * 32)) r) 1
                        ≡ false =
                      ground (arith, free.1, free.2) in
                    rw free.0 (
                      rw some_blocks (
                        unfold First in
                        (
                          up.2,
                          inside',
                          up.4,
                          free.3,
                          λ j low high aligned.
                              let least = up.5 j low aligned in absurd (omega arith),
                        )))
              ])
        ]))

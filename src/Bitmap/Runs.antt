-- ===== src/Bitmap/Runs.antt =====
-- The allocation of several blocks in a space bitmap.
use udftools.Base.{
  ℕ, zero, suc, ◌+◌, ◌-◌, ◌*◌, ◌/◌, ◌%◌, ◌^◌, ◌≤◌, ◌<◌, ◌≡◌, refl, ap, ◌∙◌, arith, ltb,
  if◌then◌else◌, ok, out_of_fuel, sub32, add32, true, false, inl, inr,
}
use udftools.Bitmap.Alloc.{SpaceBitmapDesc, find_blocks}
use udftools.Bitmap.Digits.{bits_of}
use udftools.Bitmap.Search.{next_zero}
use udftools.Bitmap.Find.{align_up-least, next_zero-late}
use udftools.Bitmap.Free.{Holds, Free, free_run-set}

module _ (sbd : SpaceBitmapDesc) (alignment r blocks : ℕ) (pos : 0 < alignment) (held : Holds sbd)
    (fits : sbd.num_of_bits + alignment < 2 ^ 32) (aligned : r % alignment ≡ 0)
    (inside : r + blocks ≤ sbd.num_of_bits) (some_blocks : 0 < blocks) (free : Free sbd r) where
  abbrev end : ℕ
  end = next_zero (bits_of sbd.bitmap) sbd.num_of_bits ((r + 31) / 32 * 32)

  -- A round at an aligned free block.
  round :
      (fuel : ℕ)
      → find_blocks (suc fuel) sbd alignment r blocks
        ≡ (if ltb (end - r) blocks then find_blocks fuel sbd alignment r blocks else ok r)
  unfolding find_blocks
  round fuel =
      let up = align_up-least r alignment pos (omega arith) in
      let same : up.0 ≡ r = omega (arith, up.2, up.5 r (omega arith) aligned) in
      let start = up.1 ∙ ap ok same in
      let room : ltb sbd.num_of_bits (add32 r blocks) ≡ false = ground arith in
      let found = free_run-set sbd alignment pos held fits r (omega arith) free in
      let apart : sub32 end r ≡ end - r = omega (arith, found.1, found.2) in
      rw start (rw room (rw found.0 (rw apart refl)))

  -- From an aligned free block on, where the next clear bit that is searched from the next word on is
  -- too near, the loop of `udf_alloc_bitmap_blocks` never ends: each round searches from the same
  -- block again, so that no fuel is enough.
  pub find_blocks-Stuck :
      (fuel : ℕ) → end < r + blocks → find_blocks fuel sbd alignment r blocks ≡ out_of_fuel
  find_blocks-Stuck zero near = unfold find_blocks in refl
  find_blocks-Stuck (suc fuel) near =
      let again : ltb (end - r) blocks ≡ true =
        let found = free_run-set sbd alignment pos held fits r (omega arith) free in
        ground (arith, found.1) in
      round fuel ∙ (rw again (find_blocks-Stuck fuel near))

  -- From an aligned free block inside a word of the bitmap, the loop returns that block for any number
  -- of blocks that end in the word, also where a block behind it is not free.
  pub find_blocks-Overlap :
      (fuel : ℕ)
      → 0 < fuel
      → 0 < r % 32
      → r % 32 + blocks ≤ 32
      → find_blocks fuel sbd alignment r blocks ≡ ok r
  find_blocks-Overlap zero some_fuel unaligned word = absurd (omega arith)
  find_blocks-Overlap (suc fuel) some_fuel unaligned word =
      let far : ltb (end - r) blocks ≡ false = ends_late in round fuel ∙ (rw far refl)
    where
      ends_late : ltb (end - r) blocks ≡ false
      ends_late =
          let up = (r + 31) / 32 * 32 in
          elim (next_zero-late (bits_of sbd.bitmap) sbd.num_of_bits up) [
            | inl all ↦ ground arith
            | inr word_end ↦ ground arith
          ]

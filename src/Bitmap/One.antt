-- ===== src/Bitmap/One.antt =====
-- The allocation of one block, with the bitmap that it leaves.
use udftools.Base.{
  ℕ, ◌+◌, ◌-◌, ◌*◌, ◌^◌, ◌≤◌, ◌<◌, ◌≡◌, refl, ◌∙◌, arith, length, All, ◌==◌, ltb, leb, ◌&&◌,
  if◌then◌else◌, get_or, ok, Run, fault, exit_failure, out_of_fuel, ◌>>=◌, Returns, List,
}
use udftools.Bitmap.{clear_bits}
use udftools.Bitmap.Alloc.{SpaceBitmapDesc, find_blocks, udf_alloc_bitmap_blocks}
use udftools.Bitmap.Digits.{bits_of}
use udftools.Bitmap.Masks.{Byte}
use udftools.Bitmap.Clear.{clear_bits-range}
use udftools.Bitmap.Free.{Holds, First, find_blocks-First}

-- The block is the first free one that is aligned, and it alone is taken; the program leaves only
-- where there is none.
unfoldable pub TakesOne : SpaceBitmapDesc → ℕ → ℕ → Run (ℕ × SpaceBitmapDesc) → Type 0
TakesOne sbd alignment start (ok p) =
    First sbd alignment start (ok p.0)
    × Holds p.1
    × (p.1.num_of_bits ≡ sbd.num_of_bits)
    × (length p.1.bitmap ≡ length sbd.bitmap)
    × ((j : ℕ)
        → get_or (bits_of p.1.bitmap) j 0
          ≡ (if j == p.0 then 0 else get_or (bits_of sbd.bitmap) j 0))
TakesOne sbd alignment start exit_failure = First sbd alignment start exit_failure
TakesOne sbd alignment start fault = ⊥
TakesOne sbd alignment start out_of_fuel = ⊥

at_one : (j s x : ℕ) → (if leb s j && ltb j (s + 1) then 0 else x) ≡ (if j == s then 0 else x)
at_one j s x = ground arith

module _ (sbd : SpaceBitmapDesc) (held : Holds sbd) (alignment start : ℕ) where
  take_found :
      (r : Run ℕ)
      → First sbd alignment start r
      → TakesOne sbd alignment start (
          r >>= λ block.
          clear_bits sbd.bitmap block 1 >>= λ cleared. ok (block, record sbd { bitmap = cleared }))
  unfolding TakesOne First
  take_found (ok s) first =
      let room : s + 1 ≤ 8 * length sbd.bitmap =
        unfold First Holds in omega (arith, held.1, first.1) in
      cleared (clear_bits sbd.bitmap s 1)
        (clear_bits-range sbd.bitmap s 1 (unfold Holds in held.0) room)
    where
      cleared :
          (c : Run (List ℕ))
          → Returns c (λ m.
            (length m ≡ length sbd.bitmap)
            × All Byte m
            × ((j : ℕ)
                → get_or (bits_of m) j 0
                  ≡ (if leb s j && ltb j (s + 1) then 0 else get_or (bits_of sbd.bitmap) j 0)))
          → TakesOne sbd alignment start (c >>= λ m. ok (s, record sbd { bitmap = m }))
      cleared (ok m) kept = (
        first,
        unfold Holds in (kept.1, omega (arith, held.1, kept.0)),
        refl,
        kept.0,
        λ j. kept.2 j ∙ at_one j s (get_or (bits_of sbd.bitmap) j 0),
      )
      cleared exit_failure kept = absurd kept
      cleared fault kept = kept
      cleared out_of_fuel kept = kept
  take_found exit_failure first = first
  take_found fault first = first
  take_found out_of_fuel first = first

  -- `udf_alloc_bitmap_blocks` ends for one block, from a start in the partition: it takes the first
  -- aligned block from there on that is free in the bitmap, clears its bit and no other, and exits only
  -- if no aligned block from there on is free. The memory of the bitmap holds whole words of 32 bits,
  -- and the blocks and the alignment fit 32 bits together.
  pub udf_alloc_bitmap_blocks-TakesOne :
      (fuel : ℕ)
      → 0 < alignment
      → sbd.num_of_bits + alignment < 2 ^ 32
      → start ≤ sbd.num_of_bits
      → sbd.num_of_bits - start < fuel
      → TakesOne sbd alignment start (udf_alloc_bitmap_blocks fuel sbd alignment start 1)
  unfolding udf_alloc_bitmap_blocks
  udf_alloc_bitmap_blocks-TakesOne fuel pos fits inside enough =
      take_found (find_blocks fuel sbd alignment start 1)
        (find_blocks-First sbd alignment pos held fits fuel start inside enough)

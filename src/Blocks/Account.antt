-- ===== src/Blocks/Account.antt =====
-- The number of free blocks in the integrity descriptor is that of the space bitmap.
use udftools.Base.{
  ℕ, zero, suc, ◌+◌, ◌-◌, ◌/◌, ◌^◌, ◌≤◌, ◌<◌, ◌≡◌, ◌≢◌, refl, arith, List, [], ◌∷◌, ◌++◌, length,
  some, ok, Run, exit_failure, fault, out_of_fuel, ◌>>=◌, ◌==◌, if◌then◌else◌, get_or, sub32, true,
  false, All,
}
use udftools.Bitmap.Alloc.{SpaceBitmapDesc, udf_alloc_bitmap_blocks}
use udftools.Bitmap.Digits.{bits, bits_of}
use udftools.Bitmap.Search.{length-bits_of}
use udftools.Bitmap.Free.{Holds, Free, First}
use udftools.Bitmap.One.{TakesOne, udf_alloc_bitmap_blocks-TakesOne}
use udftools.Blocks.{
  Partition, has, alloc_by, udf_alloc_blocks, flag_freed_bitmap, flag_freed_table,
  flag_unalloc_bitmap,
}

-- The number of ones.
unfoldable pub ones : List ℕ → ℕ
ones [] = 0
ones (d ∷ l) = d + ones l

Bit : ℕ → Type 0
Bit d = d < 2

bits-Bit : (n t : ℕ) → All Bit (bits n t)
unfolding bits Bit
bits-Bit zero t = tt
bits-Bit (suc n) t = (omega arith, bits-Bit n (t / 2))

append-Bit : (l m : List ℕ) → All Bit l → All Bit m → All Bit (l ++ m)
append-Bit [] m h k = k
append-Bit (x ∷ l) m h k = (h.0, append-Bit l m h.1 k)

bits_of-Bit : (l : List ℕ) → All Bit (bits_of l)
unfolding bits_of
bits_of-Bit [] = tt
bits_of-Bit (b ∷ l) = append-Bit (bits 8 b) (bits_of l) (bits-Bit 8 b) (bits_of-Bit l)

get_or-Bit : (l : List ℕ) (j : ℕ) → All Bit l → get_or l j 0 < 2
unfolding Bit
get_or-Bit [] j h = omega arith
get_or-Bit (x ∷ l) zero h = h.0
get_or-Bit (x ∷ l) (suc j) h = get_or-Bit l j h.1

-- Two lists of one length that are equal but at one place, where the second has a 0.
ones-cleared :
    (l m : List ℕ) (s : ℕ)
    → length m ≡ length l
    → ((j : ℕ) → get_or m j 0 ≡ (if j == s then 0 else get_or l j 0))
    → ones l ≡ ones m + get_or l s 0
unfolding ones
ones-cleared [] [] s size same = omega arith
ones-cleared [] (y ∷ m) s size same = absurd (omega arith)
ones-cleared (x ∷ l) [] s size same = absurd (omega arith)
ones-cleared (x ∷ l) (y ∷ m) zero size same =
    let rest = equal l m (omega arith) λ j. ground (arith, same (suc j)) in ground (arith, same 0)
  where
    equal :
        (l m : List ℕ)
        → length m ≡ length l
        → ((j : ℕ) → get_or m j 0 ≡ get_or l j 0)
        → ones l ≡ ones m
    equal [] [] size same = refl
    equal [] (y ∷ m) size same = absurd (omega arith)
    equal (x ∷ l) [] size same = absurd (omega arith)
    equal (x ∷ l) (y ∷ m) size same =
        omega (arith, same 0, equal l m (omega arith) λ j. same (suc j))
ones-cleared (x ∷ l) (y ∷ m) (suc s) size same =
    let rest = ones-cleared l m s (omega arith) λ j. ground (arith, same (suc j)) in
    ground (arith, same 0)

-- One block less is free in the bitmap.
ones-TakesOne :
    (sbd new : SpaceBitmapDesc) (alignment start s : ℕ)
    → TakesOne sbd alignment start (ok (s, new))
    → ones (bits_of sbd.bitmap) ≡ suc (ones (bits_of new.bitmap))
unfolding TakesOne First
ones-TakesOne sbd new alignment start s takes =
    let set : get_or (bits_of sbd.bitmap) s 0 ≢ 0 = unfold Free in takes.0.3 in
    let small = get_or-Bit (bits_of sbd.bitmap) s (bits_of-Bit sbd.bitmap) in
    omega (
      arith,
      set,
      small,
      ones-cleared (bits_of sbd.bitmap) (bits_of new.bitmap) s
          (omega (arith, takes.3, length-bits_of sbd.bitmap, length-bits_of new.bitmap)) takes.4,
    )

-- The free blocks of a partition with a bitmap of unallocated space are accounted for.
unfoldable pub Accounts : Partition → SpaceBitmapDesc → Type 0
Accounts p sbd =
    (p.unalloc_bitmap ≡ some sbd)
    × Holds sbd
    × (p.free_blocks ≡ ones (bits_of sbd.bitmap))
    × (p.free_blocks < 2 ^ 32)

-- One block of the bitmap is taken and accounted for; the program leaves only where none is there to
-- take.
unfoldable pub TakesAccounted : SpaceBitmapDesc → ℕ → ℕ → Run (ℕ × Partition) → Type 0
TakesAccounted sbd alignment start (ok t) =
    (new : SpaceBitmapDesc) × Accounts t.1 new × TakesOne sbd alignment start (ok (t.0, new))
TakesAccounted sbd alignment start exit_failure = TakesOne sbd alignment start exit_failure
TakesAccounted sbd alignment start fault = ⊥
TakesAccounted sbd alignment start out_of_fuel = ⊥

module _ (p : Partition) (sbd : SpaceBitmapDesc) (accounts : Accounts p sbd) (start : ℕ) where
  counted :
      (r : Run (ℕ × SpaceBitmapDesc))
      → TakesOne sbd p.alignment start r
      → TakesAccounted sbd p.alignment start (
          r >>= λ t.
          ok (t.0, record p { free_blocks = sub32 p.free_blocks 1; unalloc_bitmap = some t.1 }))
  unfolding Accounts TakesAccounted
  counted (ok t) takes =
      let less = ones-TakesOne sbd t.1 p.alignment start t.0 takes in
      (
        t.1,
        (
          refl,
          (unfold TakesOne in takes.1),
          omega (arith, accounts.2, accounts.3),
          omega (arith, accounts.2, accounts.3),
        ),
        takes,
      )
  counted exit_failure takes = takes
  counted fault takes = absurd (unfold TakesOne in takes)
  counted out_of_fuel takes = absurd (unfold TakesOne in takes)

  -- On a partition with a bitmap of unallocated space, whose free blocks are accounted for,
  -- `udf_alloc_blocks` ends for one block, from a start in the partition: it takes the first free
  -- aligned block from there on, and exits only where none is free from there on. The number of free
  -- blocks in the integrity descriptor is the number of bits that are set in the bitmap, before and
  -- after. The blocks and the alignment fit 32 bits together.
  pub udf_alloc_blocks-Accounts :
      (fuel : ℕ)
      → has p flag_freed_bitmap ≡ false
      → has p flag_freed_table ≡ false
      → has p flag_unalloc_bitmap ≡ true
      → 0 < p.alignment
      → sbd.num_of_bits + p.alignment < 2 ^ 32
      → start ≤ sbd.num_of_bits
      → sbd.num_of_bits - start < fuel
      → TakesAccounted sbd p.alignment start (udf_alloc_blocks fuel p start 1)
  unfolding udf_alloc_blocks alloc_by has
  udf_alloc_blocks-Accounts fuel no_bitmap no_table bitmap pos fits inside enough =
      let there : p.unalloc_bitmap ≡ some sbd = unfold Accounts in accounts.0 in
      rw no_bitmap (
        rw no_table (
          rw bitmap (
            rw there (
              counted (udf_alloc_bitmap_blocks fuel sbd p.alignment start 1) (
                udf_alloc_bitmap_blocks-TakesOne sbd (unfold Accounts in accounts.1) p.alignment
                  start fuel pos fits inside enough)))))

-- ===== src/Blocks/Vat.antt =====
-- The allocation behind the last descriptor, with a virtual allocation table.
use udftools.Base.{
  ℕ, ◌+◌, ◌-◌, ◌/◌, ◌%◌, ◌^◌, ◌≤◌, ◌<◌, ◌≡◌, refl, ap, arith, ◌++◌, Option, none, some, ok, ◌==◌,
  ltb, leb, if◌then◌else◌, sub32, add32, u32, true, false, Run, exit_failure, fault, out_of_fuel,
  inl, inr, Bool-cases,
}
use udftools.Space.{divide, flag_vat}
use udftools.Blocks.{
  Partition, has, alloc_by, alloc_vat, behind_tail, numbers, udf_alloc_blocks, flag_freed_bitmap,
  flag_freed_table, flag_unalloc_bitmap, flag_unalloc_table,
}

-- The blocks that the last descriptor ends in front of.
unfoldable pub tail_end : ℕ → Option (ℕ × ℕ) → ℕ
tail_end blocksize none = 0
tail_end blocksize (some (offset, length)) = offset + (length + blocksize - 1) / blocksize

-- The length of the last descriptor, rounded up, fits 64 bits.
unfoldable pub TailOk : ℕ → Option (ℕ × ℕ) → Type 0
TailOk blocksize none = Unit {0}
TailOk blocksize (some (offset, length)) = length + blocksize < 2 ^ 64

behind_tail-end :
    (blocksize : ℕ) (t : Option (ℕ × ℕ))
    → 0 < blocksize
    → TailOk blocksize t
    → tail_end blocksize t < 2 ^ 32
    → behind_tail blocksize t ≡ ok (tail_end blocksize t)
unfolding behind_tail divide tail_end TailOk
behind_tail-end blocksize none pos long fits = refl
behind_tail-end blocksize (some (offset, length)) pos long fits =
    let divides : (blocksize == 0) ≡ false = ground arith in
    let sum : (length + blocksize + 2 ^ 64 - 1) % 2 ^ 64 ≡ length + blocksize - 1 = omega arith in
    let n = (length + blocksize - 1) / blocksize in
    let small : add32 offset (u32 n) ≡ offset + n = omega arith in
    rw (divides, sum) (ap (λ (k : ℕ). ok k) small)

-- The later of two blocks.
abbrev pub later : ℕ → ℕ → ℕ
later a b = if leb a b then b else a

-- The run of blocks that begins at `from`, in a partition that keeps its blocks behind each other;
-- the program leaves exactly where its first block is not in the partition.
unfoldable pub RunFrom : Partition → ℕ → ℕ → Run (ℕ × Partition) → Type 0
RunFrom p from blocks (ok r) =
    (from < p.blocks)
    × (r.0 ≡ from)
    × (r.1.vat ≡ p.vat ++ numbers from blocks)
    × (r.1.free_blocks ≡ sub32 p.free_blocks blocks)
RunFrom p from blocks exit_failure = p.blocks ≤ from
RunFrom p from blocks fault = ⊥
RunFrom p from blocks out_of_fuel = ⊥

module _ (p : Partition) (start blocks fuel : ℕ) where
  pub udf_alloc_blocks-Behind :
      has p flag_freed_bitmap ≡ false
      → has p flag_freed_table ≡ false
      → has p flag_unalloc_bitmap ≡ false
      → has p flag_unalloc_table ≡ false
      → has p flag_vat ≡ true
      → 0 < p.blocksize
      → TailOk p.blocksize p.tail
      → tail_end p.blocksize p.tail < 2 ^ 32
      → RunFrom p
          (later start (tail_end p.blocksize p.tail))
          blocks
          (udf_alloc_blocks fuel p start blocks)
  unfolding udf_alloc_blocks alloc_by alloc_vat has RunFrom
  udf_alloc_blocks-Behind no_bitmap no_table no_bitmap' no_table' vat pos long fits =
      let next = tail_end p.blocksize p.tail in
      let from : ℕ = if ltb start next then next else start in
      let same : from ≡ later start next = ground arith in
      rw (no_bitmap, no_table, no_bitmap', no_table', vat)
        (rw (behind_tail-end p.blocksize p.tail pos long fits) (
          rw same (elim (Bool-cases (leb p.blocks (later start next))) [
            | inl full ↦ rw full (ground arith)
            | inr room ↦ rw room (ground arith, refl, refl, refl)
          ])))

-- ===== src/Blocks.antt =====
-- `udf_alloc_blocks` of mkudffs/file.c: the way in which the partition keeps its free blocks.
--
-- The space descriptors are those that `find_desc` returns for the positions in the partition header:
-- one that is not there is `none`, and its use a fault.
pub mod Account
pub mod Vat
pub mod Setup
mod Tests
use udftools.Base.{
  ℕ, zero, suc, ◌+◌, ◌-◌, ◌*◌, ◌/◌, ◌%◌, ◌^◌, bit_and, List, [], ◌∷◌, ◌++◌, Option, none, some, Run,
  ok, fault, exit_failure, ◌>>=◌, deref, Bool, not, ltb, leb, ◌==◌, if◌then◌else◌, add32, sub32,
  u32,
}
use udftools.Space.{divide, flag_vat}
use udftools.Bitmap.Alloc.{SpaceBitmapDesc, udf_alloc_bitmap_blocks}
use udftools.Table.{UnallocSpaceEntry, udf_alloc_table_blocks}

abbrev pub flag_freed_bitmap : ℕ
flag_freed_bitmap = 0x00000001

abbrev pub flag_freed_table : ℕ
flag_freed_table = 0x00000002

abbrev pub flag_unalloc_bitmap : ℕ
flag_unalloc_bitmap = 0x00000004

abbrev pub flag_unalloc_table : ℕ
flag_unalloc_table = 0x00000008

-- A space table descriptor: its block and its contents.
pub record TableDesc : Type 0 where
  pub offset : ℕ
  pub entry : UnallocSpaceEntry

-- What the allocation reads and writes of the disc and of the partition: `free_blocks` is the first
-- word behind the logical volume integrity descriptor, `tail` the offset and the length of the last
-- descriptor of the partition.
pub record Partition : Type 0 where
  pub flags : ℕ
  pub udf_rev : ℕ
  pub alignment : ℕ
  pub blocksize : ℕ
  pub blocks : ℕ
  pub free_blocks : ℕ
  pub freed_bitmap : Option SpaceBitmapDesc
  pub freed_table : Option TableDesc
  pub unalloc_bitmap : Option SpaceBitmapDesc
  pub unalloc_table : Option TableDesc
  pub tail : Option (ℕ × ℕ)
  pub vat : List ℕ

unfoldable pub has : Partition → ℕ → Bool
has p flag = not (bit_and p.flags flag == 0)

unfoldable pub alloc_table : Partition → TableDesc → ℕ → ℕ → Run (ℕ × TableDesc)
alloc_table p t start blocks =
    udf_alloc_table_blocks p.udf_rev p.alignment p.blocksize t.offset t.entry start blocks >>= λ r.
    ok (r.0, record t { entry = r.1 })

-- The block behind the last descriptor, as the code computes it.
unfoldable pub behind_tail : ℕ → Option (ℕ × ℕ) → Run ℕ
unfolding divide
behind_tail blocksize none = ok 0
behind_tail blocksize (some (offset, length)) =
    divide ((length + blocksize + 2 ^ 64 - 1) % 2 ^ 64) blocksize >>= λ n. ok (add32 offset (u32 n))

-- The numbers of new blocks, in the order in which they are put behind the table of a VAT.
unfoldable pub numbers : ℕ → ℕ → List ℕ
numbers start zero = []
numbers start (suc n) = u32 start ∷ numbers (start + 1) n

unfoldable pub alloc_vat : Partition → ℕ → ℕ → Run (ℕ × Partition)
unfolding behind_tail numbers
alloc_vat p start blocks = behind_tail p.blocksize p.tail >>= λ next.
    let from = if ltb start next then next else start in
    if leb p.blocks from
    then exit_failure
    else ok (from, record p { vat = p.vat ++ numbers from blocks })

-- The choice between the ways, once the number of free blocks is down.
unfoldable pub alloc_by : ℕ → Partition → ℕ → ℕ → Run (ℕ × Partition)
unfolding has alloc_table alloc_vat
alloc_by fuel p start blocks =
    if has p flag_freed_bitmap
    then (deref p.freed_bitmap >>= λ sbd.
        udf_alloc_bitmap_blocks fuel sbd p.alignment start blocks >>= λ r.
        ok (r.0, record p { freed_bitmap = some r.1 }))
    else if has p flag_freed_table
    then (deref p.freed_table >>= λ t.
        alloc_table p t start blocks >>= λ r. ok (r.0, record p { freed_table = some r.1 }))
    else if has p flag_unalloc_bitmap
    then (deref p.unalloc_bitmap >>= λ sbd.
        udf_alloc_bitmap_blocks fuel sbd p.alignment start blocks >>= λ r.
        ok (r.0, record p { unalloc_bitmap = some r.1 }))
    else if has p flag_unalloc_table
    then (deref p.unalloc_table >>= λ t.
        alloc_table p t start blocks >>= λ r. ok (r.0, record p { unalloc_table = some r.1 }))
    else if has p flag_vat
    then alloc_vat p start blocks
    else ok (0, p)

-- The fuel is that of the loop over a bitmap.
unfoldable pub udf_alloc_blocks : ℕ → Partition → ℕ → ℕ → Run (ℕ × Partition)
unfolding alloc_by
udf_alloc_blocks fuel p start blocks =
    alloc_by fuel (record p { free_blocks = sub32 p.free_blocks blocks }) start blocks

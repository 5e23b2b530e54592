-- ===== src/Files.antt =====
-- File entries of mkudffs/file.c: `insert_data`, and the structures that it writes
-- (include/ecma_167.h) by the widths of their fields.
pub mod Data
mod Tests
use udftools.Base.{
  ℕ, zero, suc, ◌+◌, ◌-◌, ◌*◌, ◌%◌, ◌^◌, bit_and, Option, none, some, List, [], ◌∷◌, ◌++◌, Run, ok,
  fault, exit_failure, ◌>>=◌, Bool, true, false, ◌==◌, if◌then◌else◌, u32,
}
use udftools.Extent.{Extent, Desc, Payload}
use udftools.Descs.{append_data}
use udftools.Tag.{Tag, tag_bytes, query_tag, bytes_in}
use udftools.Memory.{get, put, patch}
use udftools.Swap.{u64}

-- The offset of the field with a number, counted from 0, in a packed structure.
abbrev pub offset_of : List ℕ → ℕ → ℕ
offset_of [] n = 0
offset_of (width ∷ widths) zero = 0
offset_of (width ∷ widths) (suc n) = width + offset_of widths n

abbrev pub icbtag : List ℕ
icbtag = 4 ∷ 2 ∷ 2 ∷ 2 ∷ 1 ∷ 1 ∷ 6 ∷ 2 ∷ []

abbrev pub file_entry : List ℕ
file_entry =
    16 ∷ 20 ∷ 4 ∷ 4 ∷ 4 ∷ 2 ∷ 1 ∷ 1 ∷ 4 ∷ 8 ∷ 8 ∷ 12 ∷ 12 ∷ 12 ∷ 4 ∷ 16 ∷ 32 ∷ 8 ∷ 4 ∷ 4 ∷ []

abbrev pub extended_file_entry : List ℕ
extended_file_entry =
    16 ∷ 20 ∷ 4 ∷ 4 ∷ 4 ∷ 2 ∷ 1 ∷ 1 ∷ 4 ∷ 8 ∷ 8 ∷ 8 ∷ 12 ∷ 12 ∷ 12 ∷ 12 ∷ 4 ∷ 4 ∷ 16 ∷ 16 ∷ 32 ∷ 8
    ∷ 4 ∷ 4 ∷ []

-- The offsets of `icbTag.flags`, `informationLength`, `objectSize` and `lengthAllocDescs`, and the
-- size of the entry, of an extended entry and of another.
abbrev pub icb_flags : ℕ
icb_flags = offset_of file_entry 1 + offset_of icbtag 7

abbrev pub information_length : Bool → ℕ
information_length true = offset_of extended_file_entry 9
information_length false = offset_of file_entry 9

abbrev pub object_size : ℕ
object_size = offset_of extended_file_entry 10

abbrev pub length_alloc_descs : Bool → ℕ
length_alloc_descs true = offset_of extended_file_entry 23
length_alloc_descs false = offset_of file_entry 19

abbrev pub entry_size : Bool → ℕ
entry_size true = offset_of extended_file_entry 24
entry_size false = offset_of file_entry 20

-- Something added to a field of four and of eight bytes.
unfoldable pub add_field32 : ℕ → ℕ → List ℕ → Run (List ℕ)
add_field32 off n entry = get 4 off entry >>= λ v. put 4 off (u32 (v + n)) entry

unfoldable pub add_field64 : ℕ → ℕ → List ℕ → Run (List ℕ)
add_field64 off n entry = get 8 off entry >>= λ v. put 8 off (u64 (v + n)) entry

-- The lengths of an entry that `insert_data` changes. The flag FLAG_EFE is given as a Boolean.
unfoldable pub grow : Bool → ℕ → List ℕ → Run (List ℕ)
unfolding add_field32 add_field64
grow efe n entry = add_field32 (length_alloc_descs efe) n entry >>= λ e.
    add_field64 (information_length efe) n e >>= λ e'.
    if efe then add_field64 object_size n e' else ok e'

-- A descriptor with other bytes in its first item.
unfoldable pub set_first : Desc → List ℕ → Desc
set_first d bytes = elim d.payload [
  | [] ↦ d
  | p ∷ r ↦ record d { payload = (record p { buffer = some bytes }) ∷ r }
]

-- `*(tag *)desc->data->buffer = query_tag(...)`
unfoldable pub retag : ℕ → Extent → Desc → List ℕ → Run Desc
unfolding set_first
retag udf_rev ext d entry = query_tag udf_rev ext (set_first d entry) 1 >>= λ t.
    ok (set_first d (patch 0 (tag_bytes t) entry))

-- Items put behind those of a descriptor whose entry says that its contents stand in it.
unfoldable pub insert_items : Bool → ℕ → Extent → Desc → List ℕ → List Payload → Run Desc
unfolding grow retag
insert_items efe udf_rev ext desc entry [] = fault
insert_items efe udf_rev ext desc entry (q ∷ items) = append_data desc (q ∷ items) >>= λ d.
    grow efe q.length entry >>= λ grown. retag udf_rev ext d grown

unfoldable pub insert_into : Bool → ℕ → Extent → Desc → List ℕ → List Payload → Run Desc
unfolding insert_items
insert_into efe udf_rev ext desc entry items = get 2 icb_flags entry >>= λ flags.
    if bit_and flags 0x0007 == 0x0003
    then insert_items efe udf_rev ext desc entry items
    else exit_failure

-- The first item of the descriptor holds the entry.
unfoldable pub insert_data : Bool → ℕ → Extent → Desc → List Payload → Run Desc
unfolding insert_into bytes_in
insert_data efe udf_rev ext desc items = elim desc.payload [
  | [] ↦ fault
  | p ∷ r ↦ insert_into efe udf_rev ext desc (bytes_in p) items
]

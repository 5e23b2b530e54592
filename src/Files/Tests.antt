-- ===== src/Files/Tests.antt =====
-- The structures of file entries, and the theorem about `insert_data` at a concrete file.
use udftools.Base.{
  ℕ, ◌≡◌, refl, arith, List, [], ◌∷◌, ◌++◌, some, exit_failure, Returns, replicate, true, false,
}
use udftools.Extent.{Extent, Desc, Payload}
use udftools.Extent.SpaceType
use udftools.Descs.Amount.{total}
use udftools.Tag.{bytes_in}
use udftools.Tag.Pieces.{Whole}
use udftools.Memory.{get, field}
use udftools.Files.{
  entry_size, length_alloc_descs, information_length, object_size, icb_flags, insert_data,
  insert_into,
}
use udftools.Files.Data.{Inserted, insert_data-Inserted}

sizes :
    (entry_size false ≡ 176)
    × (entry_size true ≡ 216)
    × (length_alloc_descs false ≡ 172)
    × (length_alloc_descs true ≡ 212)
    × (information_length true ≡ 56)
    × (object_size ≡ 64)
    × (icb_flags ≡ 34)
sizes = (refl, refl, refl, refl, refl, refl, refl)

abbrev entry : ℕ → List ℕ
entry flags = replicate 34 0 ++ (flags ∷ 0 ∷ replicate 140 0)

abbrev head : ℕ → Payload
head flags = record { length = 176; buffer = some (entry flags) }

abbrev file : ℕ → Desc
file flags = record { ident = 261; offset = 3; length = 176; payload = head flags ∷ [] }

abbrev item : Payload
item = record { length = 2; buffer = some (7 ∷ 8 ∷ []) }

abbrev partition : Extent
partition = record { space_type = SpaceType.pspace; start = 300; blocks = 100; descs = [] }

outside_run : insert_data false 0x0201 partition (file 0) (item ∷ []) ≡ exit_failure
unfolding insert_data insert_into get field bytes_in
outside_run = refl

insert_data-Inserted_example :
    Returns
      (insert_data false 0x0201 partition (file 3) (item ∷ []))
      (Inserted false (file 3) (head 3) [] (entry 3) item)
insert_data-Inserted_example =
    insert_data-Inserted false 0x0201 partition (file 3) (head 3) [] (entry 3) item refl refl
      (unfold Whole bytes_in in (refl, omega arith, tt))
      (unfold Whole bytes_in in (refl, omega arith, tt)) (omega arith) (unfold total in refl)
      (omega arith) (unfold field in refl) (unfold field in omega arith)
      (unfold field in omega arith)

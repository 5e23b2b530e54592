-- ===== src/Tag/Tests.antt =====
-- Runs of the functions that make tags, and the theorems about them at concrete descriptors.
use udftools.Base.{
  ◌+◌, ◌-◌, ◌≡◌, refl, [], ◌∷◌, ◌++◌, some, arith, fault, Returns, u16, u32, take, drop, replicate,
  if◌then◌else◌, add32,
}
use udftools.Extent.{Extent, Desc, Payload, has_type}
use udftools.Extent.SpaceType
use udftools.Descs.Amount.{total}
use udftools.Tag.{tag_of, query_tag, udf_query_tag, bytes_in}
use udftools.Tag.Pieces.{contents, Whole}
use udftools.Tag.Sealed.{Sealed}
use udftools.Tag.Query.{query_tag-Sealed, udf_query_tag-Sealed}

abbrev head : Payload
head = record { length = 18; buffer = some (replicate 16 0 ++ (7 ∷ 8 ∷ [])) }

abbrev tail : Payload
tail = record { length = 3; buffer = some (1 ∷ 2 ∷ 3 ∷ []) }

abbrev desc : Desc
desc = record { ident = 261; offset = 5; length = 21; payload = head ∷ tail ∷ [] }

abbrev partition : Extent
partition = record { space_type = SpaceType.pspace; start = 272; blocks = 1000; descs = desc ∷ [] }

tag_of_run : tag_of (1 ∷ 2 ∷ []) ≡ fault
unfolding tag_of
tag_of_run = refl

query_tag-Sealed_example : Returns (query_tag 0x0201 partition desc 1) (λ t.
    Sealed t (drop 16 (contents (head ∷ tail ∷ [])))
    × (t.tag_ident ≡ u16 261)
    × (t.tag_serial_num ≡ u16 1)
    × (t.desc_crc_length ≡ 21 - 16)
    × (t.tag_location ≡ u32 (if has_type partition SpaceType.pspace then 5 else add32 272 5)))
query_tag-Sealed_example =
    query_tag-Sealed 0x0201 partition desc 1 head (tail ∷ []) refl
      (unfold Whole bytes_in in (refl, omega arith, (refl, omega arith, tt))) (omega arith)
      (unfold total in refl) (omega arith)

udf_query_tag-Sealed_example : Returns (udf_query_tag 0x0201 262 1 9 (head ∷ tail ∷ []) 1 17) (λ t.
    Sealed t (take (17 - 16) (drop (1 + 16) (bytes_in head)))
    × (t.tag_ident ≡ u16 262)
    × (t.tag_location ≡ u32 9)
    × (t.desc_crc_length ≡ 17 - 16))
udf_query_tag-Sealed_example =
    udf_query_tag-Sealed 0x0201 262 1 9 1 17 head (tail ∷ [])
      (unfold Whole bytes_in in (refl, omega arith, (refl, omega arith, tt))) (omega arith)
      (omega arith) (omega arith)

-- ===== src/Descs/Tests.antt =====
-- Runs of the functions on descriptor lists, and the theorems about them at concrete lists.
use udftools.Base.{
  ℕ, ◌+◌, ◌≡◌, refl, arith, inl, inr, none, some, List, [], ◌∷◌, ok, fault, Returns,
}
use udftools.Extent.{Desc, Payload}
use udftools.Descs.{
  node, descs_of, next_desc, next_desc_from, find_desc, find_desc_from, previous, set_desc,
  insert_desc, data_or_new, append_data,
}
use udftools.Descs.Order.{Ascending, Inserted, set_desc-Inserted}
use udftools.Descs.Lookup.{find_desc-set_desc, set_desc-Late}
use udftools.Descs.Amount.{total, append_data-total}

abbrev item : Payload
item = record { length = 4; buffer = some (1 ∷ 2 ∷ 3 ∷ 4 ∷ []) }

abbrev desc : ℕ → Desc
desc offset = record { ident = 256; offset = offset; length = 4; payload = item ∷ [] }

abbrev two : List Desc
two = desc 3 ∷ desc 7 ∷ []

set_desc_runs :
    (set_desc two 256 1 4 (item ∷ []) ≡ node [] (desc 1) two)
    × (set_desc two 256 9 4 (item ∷ []) ≡ node (desc 7 ∷ desc 3 ∷ []) (desc 9) [])
    × (set_desc two 256 5 4 (item ∷ []) ≡ node (desc 7 ∷ desc 3 ∷ []) (desc 5) [])
unfolding set_desc find_desc_from previous insert_desc data_or_new
set_desc_runs = (refl, refl, refl)

find_desc_runs :
    (find_desc [] 3 ≡ fault) × (find_desc two 3 ≡ ok (some (node [] (desc 3) (desc 7 ∷ []))))
unfolding find_desc find_desc_from
find_desc_runs = (refl, refl)

next_desc_run : next_desc (some (node [] (desc 3) (desc 7 ∷ []))) 257 ≡ none
unfolding next_desc next_desc_from
next_desc_run = refl

set_desc-Inserted_example :
    Inserted two
      (record { ident = 256; offset = 1; length = 4; payload = data_or_new 4 (item ∷ []) })
      (set_desc two 256 1 4 (item ∷ []))
set_desc-Inserted_example =
    set_desc-Inserted two 256 1 4 (item ∷ []) (omega arith) (inl (omega arith))

find_desc-set_desc_example :
    find_desc (descs_of (set_desc two 256 9 4 [])) 9 ≡ ok (some (set_desc two 256 9 4 []))
find_desc-set_desc_example =
    find_desc-set_desc two 256 9 4 [] (omega arith) (inr (omega arith, omega arith))

set_desc-Late_example : ¬ Ascending 0 (descs_of (set_desc two 256 5 4 (item ∷ [])))
set_desc-Late_example = set_desc-Late two 256 5 4 (item ∷ []) (omega arith, omega arith)

append_data-total_example :
    Returns (append_data (desc 3) (item ∷ item ∷ [])) (λ d.
      (d.payload ≡ item ∷ item ∷ item ∷ []) × (d.length + total (item ∷ []) ≡ total d.payload))
append_data-total_example =
    append_data-total (desc 3) item (item ∷ []) (λ nothing. cc) (unfold total in refl) (omega arith)

-- ===== src/Descs/Amount.antt =====
-- The length of a descriptor and the lengths of its data items.
use native.Mathlib.Nat.{mod-eq_of_lt}
use udftools.Base.{ℕ, ◌+◌, ◌<◌, ◌^◌, ◌≡◌, ◌≢◌, refl, List, [], ◌∷◌, ◌++◌, arith, Returns}
use udftools.Extent.{Desc, Payload}
use udftools.Descs.{alloc_data, data_or_new, append_data, append_to}

-- The sum of the lengths of data items.
unfoldable pub total : List Payload → ℕ
total [] = 0
total (p ∷ r) = p.length + total r

pub total-append : (l r : List Payload) → total (l ++ r) ≡ total l + total r
unfolding total
total-append [] r = omega arith
total-append (p ∷ l) r = omega (arith, total-append l r)

append_to-total :
    (d : Desc) (own : List Payload) (p : Payload) (r : List Payload)
    → own ≢ []
    → d.length ≡ total own
    → d.length + p.length < 2 ^ 64
    → Returns
        (append_to d own p r)
        (λ d'. (d'.payload ≡ own ++ p ∷ r) × (d'.length + total r ≡ total d'.payload))
unfolding append_to total
append_to-total d [] p r some_items sum small = absurd (some_items refl)
append_to-total d (q ∷ s) p r some_items sum small =
    (refl, omega (arith, total-append s (p ∷ r), mod-eq_of_lt small))

-- `append_data` puts a list of items behind those of a descriptor that has some, and whose length is
-- the sum of their lengths. The new length is the new sum less the items behind the first one that
-- was passed: of these the length is not counted.
pub append_data-total :
    (d : Desc) (p : Payload) (r : List Payload)
    → d.payload ≢ []
    → d.length ≡ total d.payload
    → d.length + p.length < 2 ^ 64
    → Returns
        (append_data d (p ∷ r))
        (λ d'. (d'.payload ≡ d.payload ++ p ∷ r) × (d'.length + total r ≡ total d'.payload))
unfolding append_data
append_data-total d p r some_items sum small = append_to-total d d.payload p r some_items sum small

-- A descriptor made by `set_desc` without data has one item, of its own length.
pub data_or_new-total : (length : ℕ) → length < 2 ^ 31 → total (data_or_new length []) ≡ length
unfolding data_or_new alloc_data total
data_or_new-total length small = ground arith

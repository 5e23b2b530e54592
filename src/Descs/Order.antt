-- ===== src/Descs/Order.antt =====
-- The descriptors of an extent are kept in the order of their blocks, as far as they are.
use udftools.Base.{
  ℕ, suc, ◌≤◌, ◌<◌, ◌≡◌, refl, ◌⊎◌, inl, inr, true, false, List, [], ◌∷◌, arith, ltb, ◌==◌,
  reverse_onto,
}
use udftools.Extent.{Desc, Payload}
use udftools.Descs.{Node, descs_of, previous, find_desc_from, insert_desc, data_or_new, set_desc}

-- The blocks of the descriptors increase, from `m` on.
abbrev pub Ascending : ℕ → List Desc → Type 0
Ascending m [] = Unit
Ascending m (d ∷ r) = (m ≤ d.offset) × Ascending (suc d.offset) r

-- The same of a list that is read from its end: it ends below `m`.
abbrev Descending : List Desc → ℕ → Type 0
Descending [] m = Unit
Descending (d ∷ b) m = (d.offset < m) × Descending b d.offset

-- A block that no descriptor has, and that is not only below the last one.
abbrev pub Slot : ℕ → List Desc → Type 0
Slot offset [] = Unit
Slot offset (d ∷ []) = d.offset < offset
Slot offset (d ∷ n ∷ r) = (offset < d.offset) ⊎ (d.offset < offset) × Slot offset (n ∷ r)

Ascending-mono : (m n : ℕ) (r : List Desc) → m ≤ n → Ascending n r → Ascending m r
Ascending-mono m n [] le h = tt
Ascending-mono m n (d ∷ r) le h = (omega arith, h.1)

Ascending-reverse_onto :
    (m : ℕ) (b r : List Desc) → Descending b m → Ascending m r → Ascending 0 (reverse_onto b r)
Ascending-reverse_onto m [] r back h = Ascending-mono 0 m r (omega arith) h
Ascending-reverse_onto m (d ∷ b) r back h =
    Ascending-reverse_onto d.offset b (d ∷ r) back.1
      (omega arith, Ascending-mono (suc d.offset) m r (omega arith) h)

-- The new descriptor is in its place, and nothing else has changed.
pub record Inserted (l : List Desc) (new : Desc) (n : Node) : Type 0 where
  pub new_at : n.at ≡ new
  pub others : reverse_onto n.before n.after ≡ l
  pub ordered : Ascending 0 (descs_of n)

module _ (new : Desc) where
  insert-Inserted :
      (b : List Desc) (d : Desc) (r : List Desc)
      → Descending b d.offset
      → Descending b new.offset
      → Ascending (suc d.offset) r
      → Slot new.offset (d ∷ r)
      → Inserted
          (reverse_onto b (d ∷ r))
          new
          (insert_desc new (reverse_onto b (d ∷ r)) (find_desc_from new.offset b d r))
  unfolding find_desc_from insert_desc previous
  insert-Inserted b d [] back below ahead slot = record {
    new_at = refl;
    others = refl;
    ordered = Ascending-reverse_onto new.offset (d ∷ b) (new ∷ []) (slot, back) (omega arith, tt);
  }
  insert-Inserted b d (n ∷ r) back below ahead (inr later) =
      let other : (d.offset == new.offset) ≡ false = ground arith in
      let on : ltb new.offset d.offset ≡ false = ground arith in
      rw other
        (rw on (insert-Inserted (d ∷ b) n r (omega arith, back) (later.0, back) ahead.1 later.1))
  insert-Inserted [] d (n ∷ r) back below ahead (inl before) =
      let other : (d.offset == new.offset) ≡ false = ground arith in
      let here : ltb new.offset d.offset ≡ true = ground arith in
      rw other (
        rw here
          (record { new_at = refl; others = refl; ordered = (omega arith, (omega arith, ahead)) }))
  insert-Inserted (p ∷ b) d (n ∷ r) back below ahead (inl before) =
      let other : (d.offset == new.offset) ≡ false = ground arith in
      let here : ltb new.offset d.offset ≡ true = ground arith in
      rw other (
        rw here (record {
          new_at = refl;
          others = refl;
          ordered =
              Ascending-reverse_onto new.offset (p ∷ b) (new ∷ d ∷ n ∷ r) below
                (omega arith, (omega arith, ahead));
        }))

-- In a list ordered by blocks, a descriptor of a block that has none, and that is not only below the
-- last one, is inserted at its place: the others are as they were, and the list is still ordered.
pub set_desc-Inserted :
    (l : List Desc) (ident offset length : ℕ) (payload : List Payload)
    → Ascending 0 l
    → Slot offset l
    → Inserted l
        (record {
          ident = ident;
          offset = offset;
          length = length;
          payload = data_or_new length payload;
        })
        (set_desc l ident offset length payload)
unfolding set_desc
set_desc-Inserted [] ident offset length payload h slot = record {
  new_at = refl;
  others = refl;
  ordered = (omega arith, tt);
}
set_desc-Inserted (d ∷ r) ident offset length payload h slot =
    insert-Inserted _ [] d r tt tt h.1 slot

-- ===== src/Descs/Lookup.antt =====
-- `find_desc` finds what `set_desc` has put into the list; and where `set_desc` loses the order.
use udftools.Base.{
  ℕ, suc, ◌≤◌, ◌<◌, ◌≡◌, refl, ap, subst, sym, ◌⊎◌, inl, inr, true, false, some, List, [], ◌∷◌,
  arith, ok, ltb, ◌==◌, reverse_onto,
}
use udftools.Extent.{Desc, Payload}
use udftools.Descs.{Node, node, descs_of, find_desc_from, find_desc, insert_desc, set_desc}
use udftools.Descs.Order.{Ascending, Slot, set_desc-Inserted}

-- A walk over the list comes to a node.
abbrev Comes : List Desc → List Desc → Node → Type 0
Comes b [] n = ⊥
Comes b (d ∷ r) n = (n ≡ node b d r) ⊎ Comes (d ∷ b) r n

Comes-above : (m : ℕ) (b l : List Desc) (n : Node) → Ascending m l → Comes b l n → m ≤ n.at.offset
Comes-above m b [] n h comes = absurd comes
Comes-above m b (d ∷ r) n h (inl here) = subst (λ (k : Node). m ≤ k.at.offset) (sym here) h.0
Comes-above m b (d ∷ r) n h (inr there) =
    let above = Comes-above (suc d.offset) (d ∷ b) r n h.1 there in omega (arith, h.0)

Comes-reverse_onto : (b l : List Desc) (n : Node) → Comes b l n → Comes [] (reverse_onto b l) n
Comes-reverse_onto [] l n comes = comes
Comes-reverse_onto (d ∷ b) l n comes = Comes-reverse_onto b (d ∷ l) n (inr comes)

find_from-Comes :
    (m : ℕ) (b : List Desc) (d : Desc) (r : List Desc) (n : Node)
    → Ascending m (d ∷ r)
    → Comes b (d ∷ r) n
    → find_desc_from n.at.offset b d r ≡ some n
unfolding find_desc_from
find_from-Comes m b d [] n h (inl here) = ap (λ k. some k) (sym here)
find_from-Comes m b d [] n h (inr there) = absurd there
find_from-Comes m b d (e ∷ r) n h (inl here) =
    let same : (d.offset == n.at.offset) ≡ true = rw here (ground arith) in
    rw same (ap (λ k. some k) (sym here))
find_from-Comes m b d (e ∷ r) n h (inr there) =
    let above = Comes-above (suc d.offset) (d ∷ b) (e ∷ r) n h.1 there in
    let other : (d.offset == n.at.offset) ≡ false = ground arith in
    let on : ltb n.at.offset d.offset ≡ false = ground arith in
    rw other (rw on (find_from-Comes (suc d.offset) (d ∷ b) e r n h.1 there))

find_desc-Comes :
    (l : List Desc) (n : Node)
    → Ascending 0 l
    → Comes [] l n
    → find_desc l n.at.offset ≡ ok (some n)
unfolding find_desc
find_desc-Comes [] n h comes = absurd comes
find_desc-Comes (d ∷ r) n h comes = ap (λ o. ok o) (find_from-Comes 0 [] d r n h comes)

-- In a list ordered by blocks, `find_desc` finds every descriptor by its block.
pub find_desc-finds :
    (n : Node) → Ascending 0 (descs_of n) → find_desc (descs_of n) n.at.offset ≡ ok (some n)
find_desc-finds n h =
    find_desc-Comes (descs_of n) n h (Comes-reverse_onto n.before (n.at ∷ n.after) n (inl refl))

-- In a list ordered by blocks, the pointer that `set_desc` returns for a block that has no descriptor
-- yet, and that is not only below the last one, is the one that `find_desc` returns afterwards.
pub find_desc-set_desc :
    (l : List Desc) (ident offset length : ℕ) (payload : List Payload)
    → Ascending 0 l
    → Slot offset l
    → find_desc (descs_of (set_desc l ident offset length payload)) offset
      ≡ ok (some (set_desc l ident offset length payload))
find_desc-set_desc l ident offset length payload h slot =
    let n = set_desc l ident offset length payload in
    let i = set_desc-Inserted l ident offset length payload h slot in
    subst (λ o. find_desc (descs_of n) o ≡ ok (some n)) (ap (λ (d : Desc). d.offset) i.new_at)
      (find_desc-finds n i.ordered)

-- A block that is only below the last descriptor's.
abbrev pub Late : ℕ → List Desc → Type 0
Late offset [] = ⊥
Late offset (d ∷ []) = offset < d.offset
Late offset (d ∷ n ∷ r) = (d.offset < offset) × Late offset (n ∷ r)

Ascending-suffix :
    (m : ℕ) (b r : List Desc) → Ascending m (reverse_onto b r) → (k : ℕ) × Ascending k r
Ascending-suffix m [] r h = (m, h)
Ascending-suffix m (d ∷ b) r h =
    let before = Ascending-suffix m b (d ∷ r) h in (suc d.offset, before.1.1)

module _ (new : Desc) where
  insert-Late :
      (b : List Desc) (d : Desc) (r l : List Desc)
      → Late new.offset (d ∷ r)
      → ¬ Ascending 0 (descs_of (insert_desc new l (find_desc_from new.offset b d r)))
  unfolding find_desc_from insert_desc
  insert-Late b d [] l late =
      λ h. let pair = Ascending-suffix 0 b (d ∷ new ∷ []) h in omega (arith, pair.1.1.0)
  insert-Late b d (n ∷ r) l late =
      let other : (d.offset == new.offset) ≡ false = ground arith in
      let on : ltb new.offset d.offset ≡ false = ground arith in
      rw other (rw on (insert-Late (d ∷ b) n r l late.1))

-- A descriptor of a block that is below the last descriptor's and above all others is not put where
-- it belongs: afterwards the list is not ordered.
pub set_desc-Late :
    (l : List Desc) (ident offset length : ℕ) (payload : List Payload)
    → Late offset l
    → ¬ Ascending 0 (descs_of (set_desc l ident offset length payload))
unfolding set_desc
set_desc-Late [] ident offset length payload late = absurd late
set_desc-Late (d ∷ r) ident offset length payload late = insert-Late _ [] d r (d ∷ r) late

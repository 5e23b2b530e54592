-- ===== src/Files/Data.antt =====
-- What `insert_data` adds to a file whose contents stand in its entry.
use native.Mathlib.Nat.{mod-eq_of_lt}
use udftools.Base.{
  ℕ, ◌+◌, ◌^◌, ◌≤◌, ◌<◌, ◌≡◌, refl, sym, ap, subst, ◌∙◌, arith, bit_and, some, List, [], ◌∷◌, ◌++◌,
  ok, Bool, true, false, ◌==◌, u32, length, take, drop, drop-append, bytes_of, Returns, Returns->>=,
}
use udftools.Extent.{Extent, Desc, Payload}
use udftools.Descs.{append_data, append_to}
use udftools.Descs.Amount.{total, total-append}
use udftools.Tag.{Tag, tag_bytes, query_tag, bytes_in}
use udftools.Tag.Pieces.{contents, Whole}
use udftools.Tag.Sealed.{Sealed}
use udftools.Tag.Query.{query_tag-Sealed}
use udftools.Swap.{u64}
use udftools.Memory.{
  patch, field, get-field, put-patch, length-patch, patch-found, drop-patch, field-before,
  field-behind, field-put,
}
use udftools.Files.{
  icb_flags, information_length, length_alloc_descs, entry_size, add_field32, add_field64, grow,
  set_first, retag, insert_items, insert_into, insert_data,
}

add_field32-patch :
    (off n : ℕ) (e : List ℕ)
    → off + 4 ≤ length e
    → add_field32 off n e ≡ ok (patch off (bytes_of 4 (u32 (field 4 off e + n))) e)
unfolding add_field32
add_field32-patch off n e h =
    rw (get-field 4 off e h) (put-patch 4 off (u32 (field 4 off e + n)) e h)

add_field64-patch :
    (off n : ℕ) (e : List ℕ)
    → off + 8 ≤ length e
    → add_field64 off n e ≡ ok (patch off (bytes_of 8 (u64 (field 8 off e + n))) e)
unfolding add_field64
add_field64-patch off n e h =
    rw (get-field 8 off e h) (put-patch 8 off (u64 (field 8 off e + n)) e h)

-- An entry whose lengths have grown.
unfoldable pub Grown : Bool → ℕ → List ℕ → List ℕ → Type 0
Grown efe n entry e =
    (length e ≡ length entry)
    × (field 4 (length_alloc_descs efe) e ≡ field 4 (length_alloc_descs efe) entry + n)
    × (field 8 (information_length efe) e ≡ field 8 (information_length efe) entry + n)

module _ (n : ℕ) (entry : List ℕ) where
  grow-Grown :
      (efe : Bool)
      → entry_size efe ≤ length entry
      → field 4 (length_alloc_descs efe) entry + n < 2 ^ 32
      → field 8 (information_length efe) entry + n < 2 ^ 64
      → Returns (grow efe n entry) (Grown efe n entry)
  unfolding grow Grown
  grow-Grown true room small small' =
      let v = field 4 212 entry + n in
      let w = field 8 56 entry + n in
      let a : List ℕ = bytes_of 4 (u32 v) in
      let e1 = patch 212 a entry in
      let size1 = length-patch 212 a entry in
      let info : field 8 56 e1 ≡ field 8 56 entry =
        field-before 8 56 4 212 (u32 v) entry (omega arith) in
      let b : List ℕ = bytes_of 8 (u64 (field 8 56 e1 + n)) in
      let e2 = patch 56 b e1 in
      let size2 = length-patch 56 b e1 in
      let c : List ℕ = bytes_of 8 (u64 (field 8 64 e2 + n)) in
      let size3 = length-patch 64 c e2 in
      rw (add_field32-patch 212 n entry (omega arith)) (
        rw (add_field64-patch 56 n e1 (omega arith)) (
          rw (add_field64-patch 64 n e2 (omega arith)) (
            size3 ∙ size2 ∙ size1,
            field-behind 4 212 64 c e2 (omega arith)
                ∙ field-behind 4 212 56 b e1 (omega arith)
                ∙ field-put 4 212 (u32 v) entry (omega arith) (omega arith)
                ∙ mod-eq_of_lt small,
            field-before 8 56 8 64 (u64 (field 8 64 e2 + n)) e2 (omega arith)
                ∙ field-put 8 56 (u64 (field 8 56 e1 + n)) e1 (omega arith) (omega arith)
                ∙ ap (λ (k : ℕ). u64 (k + n)) info
                ∙ mod-eq_of_lt small',
          )))
  grow-Grown false room small small' =
      let v = field 4 172 entry + n in
      let a : List ℕ = bytes_of 4 (u32 v) in
      let e1 = patch 172 a entry in
      let size1 = length-patch 172 a entry in
      let info : field 8 56 e1 ≡ field 8 56 entry =
        field-before 8 56 4 172 (u32 v) entry (omega arith) in
      let b : List ℕ = bytes_of 8 (u64 (field 8 56 e1 + n)) in
      let size2 = length-patch 56 b e1 in
      rw (add_field32-patch 172 n entry (omega arith)) (
        rw (add_field64-patch 56 n e1 (omega arith)) (
          size2 ∙ size1,
          field-behind 4 172 56 b e1 (omega arith)
              ∙ field-put 4 172 (u32 v) entry (omega arith) (omega arith)
              ∙ mod-eq_of_lt small,
          field-put 8 56 (u64 (field 8 56 e1 + n)) e1 (omega arith) (omega arith)
              ∙ ap (λ (k : ℕ). u64 (k + n)) info
              ∙ mod-eq_of_lt small',
        ))

Whole-append : (l m : List Payload) → Whole l → Whole m → Whole (l ++ m)
unfolding Whole
Whole-append [] m h k = k
Whole-append (p ∷ l) m h k = (h.0, h.1, Whole-append l m h.2 k)

-- The tag of the descriptor agrees with all its bytes.
unfoldable pub TagHolds : Desc → List ℕ → Type 0
TagHolds d e = (t : Tag) × (take 16 e ≡ tag_bytes t) × Sealed t (drop 16 (contents d.payload))

-- What `insert_data` leaves: the items with the new one behind them, the entry with its lengths, and
-- the tag.
unfoldable pub Inserted : Bool → Desc → Payload → List Payload → List ℕ → Payload → Desc → Type 0
Inserted efe desc p r entry q d =
    (e : List ℕ) × (d.payload ≡ (record p { buffer = some e }) ∷ (r ++ q ∷ []))
    × (d.length ≡ desc.length + q.length)
    × Grown efe q.length entry e
    × TagHolds d e

module _ (efe : Bool) (udf_rev : ℕ) (ext : Extent) (desc : Desc) (p : Payload) (r : List Payload)
    (entry : List ℕ) (q : Payload) (items : desc.payload ≡ p ∷ r) (buffer : p.buffer ≡ some entry)
    (whole : Whole (p ∷ r)) (whole' : Whole (q ∷ [])) (room : entry_size efe ≤ length entry)
    (sum : desc.length ≡ total (p ∷ r)) (small : desc.length + q.length < 65552) where
  bytes_of_first : bytes_in p ≡ entry
  unfolding bytes_in
  bytes_of_first = rw buffer refl

  appended : List Payload
  appended = r ++ q ∷ []

  longer : Desc
  longer = record desc { length = desc.length + q.length; payload = p ∷ (r ++ q ∷ []) }

  append_data-longer : append_data desc (q ∷ []) ≡ ok longer
  unfolding append_data append_to longer
  append_data-longer =
      rw items (rw (mod-eq_of_lt (let h : desc.length + q.length < 2 ^ 64 = omega arith in h)) refl)

  size_least : 176 ≤ entry_size efe
  size_least = at efe
    where
      at : (b : Bool) → 176 ≤ entry_size b
      at true = omega arith
      at false = omega arith

  apart_fields :
      (bs e : List ℕ)
      → length bs ≡ 16
      → Grown efe q.length entry e
      → Grown efe q.length entry (patch 0 bs e)
  unfolding Grown
  apart_fields bs e size grown = (
    length-patch 0 bs e ∙ grown.0,
    field-behind 4 (length_alloc_descs efe) 0 bs e (far efe).0 ∙ grown.1,
    field-behind 8 (information_length efe) 0 bs e (far efe).1 ∙ grown.2,
  )
    where
      far :
          (b : Bool)
          → (0 + length bs ≤ length_alloc_descs b) × (0 + length bs ≤ information_length b)
      far true = (omega arith, omega arith)
      far false = (omega arith, omega arith)

  -- The new tag does not touch the bytes behind it.
  retag-Inserted :
      (e : List ℕ)
      → Grown efe q.length entry e
      → Returns (retag udf_rev ext longer e) (Inserted efe desc p r entry q)
  unfolding retag set_first longer
  retag-Inserted e grown =
      let least = size_least in
      let p' : Payload = record p { buffer = some e } in
      let rest = r ++ q ∷ [] in
      let length_e : length e ≡ length entry = unfold Grown in grown.0 in
      let size : p.length ≡ length e =
        unfold Whole in whole.0 ∙ ap length bytes_of_first ∙ sym length_e in
      let whole_p : Whole (p' ∷ rest) =
        unfold Whole bytes_in in (size, whole.1, Whole-append r (q ∷ []) whole.2 whole') in
      let total' : desc.length + q.length ≡ total (p' ∷ rest) =
        unfold total in omega (arith, total-append r (q ∷ []), sum) in
      Returns->>= (query_tag udf_rev ext (record longer { payload = p' ∷ rest }) 1) _ _
        (Inserted efe desc p r entry q)
        (query_tag-Sealed udf_rev ext (record longer { payload = p' ∷ rest }) 1 p' rest refl whole_p
          (omega arith) total' small)
        λ t sealed.
          let bs = tag_bytes t in
          let sixteen : length bs ≡ 16 = unfold tag_bytes in refl in
          let e' = patch 0 bs e in
          let same : drop 16 (contents ((record p { buffer = some e' }) ∷ rest))
              ≡ drop 16 (contents (p' ∷ rest)) =
            unfold contents bytes_in in
            drop-append 16 e' (contents rest) (omega (arith, length-patch 0 bs e))
            ∙ ap (λ l. l ++ contents rest) (drop-patch 16 0 bs e (omega arith))
            ∙ sym (drop-append 16 e (contents rest) (omega arith)) in
          unfold Inserted TagHolds in
          (
            e',
            refl,
            refl,
            apart_fields bs e sixteen grown,
            (
              t,
              ap (λ n. take n e') (sym sixteen) ∙ patch-found 0 bs e (omega arith),
              subst (Sealed t) (sym same) sealed.0,
            ),
          )

  insert_data-first :
      insert_data efe udf_rev ext desc (q ∷ []) ≡ insert_into efe udf_rev ext desc entry (q ∷ [])
  unfolding insert_data
  insert_data-first = rw items (rw bytes_of_first refl)

  -- `insert_data` on a file whose entry holds its contents, with one item of data: it returns the
  -- descriptor with the item behind the others. The length of the descriptor, the length of the
  -- allocation descriptors and the information length of the entry have grown by that of the item, and
  -- the tag agrees with all the bytes. The descriptor is of at most 65551 bytes with the item, its
  -- length is the sum of its items, and the lengths fit their fields.
  pub insert_data-Inserted :
      bit_and (field 2 icb_flags entry) 0x0007 ≡ 0x0003
      → field 4 (length_alloc_descs efe) entry + q.length < 2 ^ 32
      → field 8 (information_length efe) entry + q.length < 2 ^ 64
      → Returns (insert_data efe udf_rev ext desc (q ∷ [])) (Inserted efe desc p r entry q)
  unfolding insert_into insert_items
  insert_data-Inserted in_icb fits fits' =
      let least = size_least in
      let flags : (bit_and (field 2 icb_flags entry) 0x0007 == 0x0003) ≡ true = ground arith in
      rw insert_data-first (
        (rw (get-field 2 icb_flags entry (omega arith)) (
          rw flags (
            rw append_data-longer (
              Returns->>= (grow efe q.length entry) _ (Grown efe q.length entry)
                (Inserted efe desc p r entry q) (grow-Grown q.length entry efe room fits fits')
                λ e grown. retag-Inserted e grown)))))

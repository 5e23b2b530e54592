-- ===== src/Descs.antt =====
-- libudffs/extent.c: the list of descriptors of an extent, and the list of data items of a
-- descriptor.
--
-- As for extents, a pointer to a node is the node with the nodes on its two sides. A list of data
-- items that is passed by its head is a list, and NULL is the empty one.
pub mod Order
pub mod Lookup
pub mod Amount
mod Tests
use udftools.Base.{
  ℕ, ◌+◌, ◌-◌, ◌*◌, ◌^◌, ◌%◌, Option, none, some, List, [], ◌∷◌, ◌++◌, Run, ok, fault, ◌>>=◌, ltb,
  ◌==◌, if◌then◌else◌, reverse_onto, replicate,
}
use udftools.Extent.{Desc, Payload}

-- A pointer into the list of descriptors.
pub record Node : Type 0 where
  pub before : List Desc
  pub at : Desc
  pub after : List Desc

abbrev pub node : List Desc → Desc → List Desc → Node
node b d a = record { before = b; at = d; after = a }

-- The whole list, from `ext->head` on.
abbrev pub descs_of : Node → List Desc
descs_of n = reverse_onto n.before (n.at ∷ n.after)

pub next_desc_from : ℕ → List Desc → List Desc → Option Node
next_desc_from ident b [] = none
next_desc_from ident b (d ∷ r) =
    let rest = next_desc_from ident (d ∷ b) r in
    if d.ident == ident then some (node b d r) else rest

pub next_desc : Option Node → ℕ → Option Node
unfolding next_desc_from
next_desc none ident = none
next_desc (some n) ident = next_desc_from ident n.before (n.at ∷ n.after)

-- `start_desc->prev`
pub previous : List Desc → List Desc → Option Node
previous [] a = none
previous (d ∷ b) a = some (node b d a)

-- The loop of `find_desc`, at a node.
pub find_desc_from : ℕ → List Desc → Desc → List Desc → Option Node
unfolding previous
find_desc_from offset b d [] = some (node b d [])
find_desc_from offset b d (n ∷ r) =
    let rest = find_desc_from offset (d ∷ b) n r in
    if d.offset == offset
    then some (node b d (n ∷ r))
    else if ltb offset d.offset
    then previous b (d ∷ n ∷ r)
    else rest

-- The head is dereferenced, so an empty list is a fault.
pub find_desc : List Desc → ℕ → Run (Option Node)
unfolding find_desc_from
find_desc [] offset = fault
find_desc (d ∷ r) offset = ok (find_desc_from offset [] d r)

-- The parameter `length` is an `int`, here by its 32 bits, and a negative one is extended to the 64
-- bits of the field. `calloc` fails for it.
pub alloc_data : Option (List ℕ) → ℕ → Payload
alloc_data (some buffer) length = record {
  length = if ltb length (2 ^ 31) then length else length + (2 ^ 64 - 2 ^ 32);
  buffer = some buffer;
}
alloc_data none length = record {
  length = if ltb length (2 ^ 31) then length else length + (2 ^ 64 - 2 ^ 32);
  buffer =
      if length == 0 then none else if ltb length (2 ^ 31) then some (replicate length 0) else none;
}

-- The new descriptor behind a node, or in front of the list.
pub insert_desc : Desc → List Desc → Option Node → Node
insert_desc new l none = node [] new l
insert_desc new l (some n) = node (n.at ∷ n.before) new n.after

-- `data`, or an item of its own where that is NULL.
pub data_or_new : ℕ → List Payload → List Payload
unfolding alloc_data
data_or_new length [] = alloc_data none length ∷ []
data_or_new length (p ∷ r) = p ∷ r

-- The result is the pointer that the C function returns, in the changed list.
pub set_desc : List Desc → ℕ → ℕ → ℕ → List Payload → Node
unfolding data_or_new find_desc_from insert_desc
set_desc l ident offset length payload =
    let new : Desc = record {
      ident = ident;
      offset = offset;
      length = length;
      payload = data_or_new length payload;
    } in
    elim l [ [] ↦ node [] new [] | d ∷ r ↦ insert_desc new (d ∷ r) (find_desc_from offset [] d r) ]

-- `own` is the list of the descriptor. Both it and the list that is passed must have an item, and
-- the length of the first one that is passed is added.
unfoldable pub append_to : Desc → List Payload → Payload → List Payload → Run Desc
append_to d [] p r = fault
append_to d (q ∷ s) p r =
    ok (record d { length = (d.length + p.length) % 2 ^ 64; payload = (q ∷ s) ++ (p ∷ r) })

unfoldable pub append_data : Desc → List Payload → Run Desc
unfolding append_to
append_data d [] = fault
append_data d (p ∷ r) = append_to d d.payload p r

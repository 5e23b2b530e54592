-- ===== src/Extent.antt =====
-- libudffs/extent.c, with its types of include/libudffs.h: the list of extents that covers a disc,
-- the searches over it, and `set_extent`, which cuts an extent out of it.
--
-- A doubly linked list is a list. A pointer to one of its nodes is a cursor: the node, and the
-- nodes on its two sides, nearest first; NULL is `none`.
pub mod SpaceType
pub mod Tiling
pub mod Find
pub mod Cut
pub mod Place
pub mod Search
pub mod Blank
pub mod Kept
pub mod Cursors
mod Tests
use udftools.Base.{
  ℕ, zero, suc, ◌+◌, ◌-◌, ◌*◌, ◌/◌, ◌%◌, ◌^◌, Bool, true, false, not, ◌&&◌, ◌||◌, Option, none,
  some, List, [], ◌∷◌, Run, ok, exit_failure, fault, out_of_fuel, length, deref, require, ◌>>=◌,
  ◌>>◌, ltb, leb, ◌==◌, bit_and, if◌then◌else◌, reverse_onto, add32, sub32, u32,
}

-- struct udf_data. A NULL buffer is `none`.
pub record Payload : Type 0 where
  pub length : ℕ
  pub buffer : Option (List ℕ)

-- struct udf_desc
pub record Desc : Type 0 where
  pub ident : ℕ
  pub offset : ℕ
  pub length : ℕ
  pub payload : List Payload

-- struct udf_extent
pub record Extent : Type 0 where
  pub space_type : ℕ
  pub start : ℕ
  pub blocks : ℕ
  pub descs : List Desc

-- A pointer into the list of extents.
pub record Cursor : Type 0 where
  pub before : List Extent
  pub at : Extent
  pub after : List Extent

abbrev pub cursor : List Extent → Extent → List Extent → Cursor
cursor b e a = record { before = b; at = e; after = a }

-- The whole list, from `disc->head` on.
abbrev pub unzip : Cursor → List Extent
unzip c = reverse_onto c.before (c.at ∷ c.after)

abbrev pub extent : ℕ → ℕ → ℕ → Extent
extent type start blocks = record { space_type = type; start = start; blocks = blocks; descs = [] }

-- The pointers `disc->head` and `disc->tail`.
unfoldable pub first : List Extent → Option Cursor
first [] = none
first (e ∷ r) = some (cursor [] e r)

last_from : List Extent → Extent → List Extent → Cursor
last_from b e [] = cursor b e []
last_from b e (n ∷ r) = last_from (e ∷ b) n r

unfoldable pub last : List Extent → Option Cursor
unfolding last_from
last [] = none
last (e ∷ r) = some (last_from [] e r)

-- `ext->space_type & type`
unfoldable pub has_type : Extent → ℕ → Bool
has_type e type = not (bit_and e.space_type type == 0)

-- The loop of `next_extent` over the nodes from a node on, with the nodes behind it.
unfoldable pub next_from : ℕ → List Extent → List Extent → Option Cursor
next_from type b [] = none
next_from type b (e ∷ r) =
    let rest = next_from type (e ∷ b) r in if has_type e type then some (cursor b e r) else rest

unfoldable pub next_extent : Option Cursor → ℕ → Option Cursor
next_extent none type = none
next_extent (some c) type = next_from type c.before (c.at ∷ c.after)

-- `next_extent(start_ext->next, type)`
unfoldable pub next_after : Cursor → ℕ → Option Cursor
next_after c type = next_from type (c.at ∷ c.before) c.after

unfoldable pub prev_from : ℕ → List Extent → List Extent → Option Cursor
prev_from type [] a = none
prev_from type (e ∷ b) a =
    let rest = prev_from type b (e ∷ a) in if has_type e type then some (cursor b e a) else rest

unfoldable pub prev_extent : Option Cursor → ℕ → Option Cursor
prev_extent none type = none
prev_extent (some c) type = prev_from type (c.at ∷ c.before) c.after

-- `find_extent` dereferences `disc->head`, so an empty list is a fault.
unfoldable pub find_from : ℕ → List Extent → Extent → List Extent → Cursor
find_from start b e [] = cursor b e []
find_from start b e (n ∷ r) =
    let rest = find_from start (e ∷ b) n r in
    if ltb start (add32 e.start e.blocks) then cursor b e (n ∷ r) else rest

unfoldable pub find_extent : List Extent → ℕ → Run Cursor
find_extent [] start = fault
find_extent (e ∷ r) start = ok (find_from start [] e r)

-- `start_ext->start % offset || start_ext->start < start`
unfoldable pub misplaced : ℕ → ℕ → Extent → Bool
misplaced start offset e = not (e.start % offset == 0) || ltb e.start start

-- `inc`: how far a search must move in an extent that it reached.
unfoldable pub skip_to : ℕ → ℕ → Extent → ℕ
unfolding misplaced
skip_to start offset e =
    if misplaced start offset e
    then (if ltb e.start start then sub32 start e.start else offset - e.start % offset)
    else 0

-- The loops of `find_next_extent_size` (`while` and `goto cont`), one round for each extent reached.
-- A null pointer ends them with 0, and `%` by a zero `offset` is a fault.
unfoldable pub next_size_loop : ℕ → ℕ → ℕ → ℕ → ℕ → Option Cursor → Run ℕ
unfolding skip_to
next_size_loop zero start type blocks offset c = out_of_fuel
next_size_loop (suc fuel) start type blocks offset none = ok 0
next_size_loop (suc fuel) start type blocks offset (some c) =
    let e = c.at in
    let inc = skip_to start offset e in
    let next = next_size_loop fuel start type blocks offset (next_after c type) in
    if ltb e.blocks blocks
    then next
    else if offset == 0
    then fault
    else if misplaced start offset e && ltb (sub32 e.blocks inc) blocks
    then next
    else ok (add32 e.start inc)

-- The fuel is one round for each extent, and one for the null pointer behind the last.
unfoldable pub find_next_extent_size : List Extent → ℕ → ℕ → ℕ → ℕ → Run ℕ
find_next_extent_size exts start type blocks offset = do
  c ← find_extent exts start
  next_size_loop (suc (length exts)) start type blocks offset (next_extent (some c) type)

-- `next_extent_size` starts where an extent that is given does.
pub next_extent_size : List Extent → Cursor → ℕ → ℕ → ℕ → Run ℕ
next_extent_size exts c type blocks offset =
    find_next_extent_size exts c.at.start type blocks offset

-- `prev_extent(start_ext->prev, type)`
unfoldable pub prev_before : Cursor → ℕ → Option Cursor
prev_before c type = prev_from type c.before (c.at ∷ c.after)

-- The loops of `prev_extent_size`; the last multiple of `offset` that leaves room is returned.
unfoldable pub prev_size_loop : ℕ → ℕ → ℕ → ℕ → Option Cursor → Run ℕ
prev_size_loop zero type blocks offset c = out_of_fuel
prev_size_loop (suc fuel) type blocks offset none = ok 0
prev_size_loop (suc fuel) type blocks offset (some c) =
    let e = c.at in
    let inc = if e.start % offset == 0 then 0 else offset - e.start % offset in
    let next = prev_size_loop fuel type blocks offset (prev_before c type) in
    if ltb e.blocks blocks
    then next
    else if offset == 0
    then fault
    else if not (e.start % offset == 0) && ltb (sub32 e.blocks inc) blocks
    then next
    else ok (u32 (e.start + inc + sub32 (sub32 e.blocks inc) blocks / offset * offset))

unfoldable pub prev_extent_size : Option Cursor → ℕ → ℕ → ℕ → Run ℕ
prev_extent_size none type blocks offset = ok 0
prev_extent_size (some c) type blocks offset =
    prev_size_loop (suc (suc (length c.before))) type blocks offset (prev_extent (some c) type)

-- The body of `set_extent` behind the call of `find_extent`, at the extent that it found.
unfoldable pub set_at : Cursor → ℕ → ℕ → ℕ → Run Cursor
set_at c type start blocks =
    let e = c.at in
    let end = add32 e.start e.blocks in
    let new = extent type start blocks in
    let cut_end = cursor (record e { blocks = sub32 e.blocks blocks } ∷ c.before) new c.after in
    if ltb start e.start
    then exit_failure
    else if start == e.start
    then (if blocks == e.blocks
        then ok (record c { at = record e { space_type = type } })
        else if ltb blocks e.blocks
        then ok (
            cursor c.before new
              (record e { start = add32 e.start blocks; blocks = sub32 e.blocks blocks } ∷ c.after))
        else exit_failure)
    else if add32 start blocks == end
    then ok cut_end
    else if ltb (add32 start blocks) end
    then ok (
        cursor (record e { blocks = sub32 start e.start } ∷ c.before) new (
          extent e.space_type (add32 start blocks)
            (add32 (sub32 (sub32 e.blocks blocks) start) e.start)
          ∷ c.after))
    else if ltb e.blocks blocks
    then exit_failure
    else ok cut_end

-- The result is the pointer that the C function returns, in the changed list.
unfoldable pub set_extent : List Extent → ℕ → ℕ → ℕ → Run Cursor
set_extent exts type start blocks = do c ← find_extent exts start; set_at c type start blocks

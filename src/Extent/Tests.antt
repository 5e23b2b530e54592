-- ===== src/Extent/Tests.antt =====
-- Runs of extent.c on a small disc, and the theorems about it at that disc.
use udftools.Base.{
  ◌≡◌, refl, arith, List, [], ◌∷◌, ok, exit_failure, fault, Returns, inl, inr, some,
}
use udftools.Extent.{
  Extent, Cursor, cursor, extent, has_type, first, last, next_from, next_extent, prev_from,
  find_from, find_extent, set_at, set_extent, next_size_loop, find_next_extent_size,
  prev_extent_size, prev_size_loop, next_after, prev_before, prev_extent, misplaced,
}
use udftools.Extent.SpaceType.{reserved, anchor, uspace, mvds}
use udftools.Extent.Find.{Holds, find_extent-Holds}
use udftools.Extent.Place.{Placed, set_extent-Placed}
use udftools.Extent.Search.{First, Room}
use udftools.Extent.Search.Prev.{Last, prev_extent_size-Last}
use udftools.Extent.Search.Wrap.{next_size_loop-outside}
use udftools.Extent.Search.Next.{find_next_extent_size-First}

-- A reserved area, free space, an anchor and free space again.
abbrev small_disc : List Extent
small_disc =
    extent reserved 0 32 ∷ extent uspace 32 224 ∷ extent anchor 256 1 ∷ extent uspace 257 143 ∷ []

set_extent_middle :
    set_extent small_disc mvds 96 16
    ≡ ok (
        cursor
          (extent uspace 32 64 ∷ extent reserved 0 32 ∷ [])
          (extent mvds 96 16)
          (extent uspace 112 144 ∷ extent anchor 256 1 ∷ extent uspace 257 143 ∷ []))
unfolding set_extent find_extent find_from set_at
set_extent_middle = refl

set_extent_too_long : set_extent small_disc mvds 0 33 ≡ exit_failure
unfolding set_extent find_extent find_from set_at
set_extent_too_long = refl

set_extent_empty : set_extent [] mvds 0 1 ≡ fault
unfolding set_extent find_extent
set_extent_empty = refl

next_from_first :
    next_extent (first small_disc) anchor
    ≡ some (
        cursor
          (extent uspace 32 224 ∷ extent reserved 0 32 ∷ [])
          (extent anchor 256 1)
          (extent uspace 257 143 ∷ []))
unfolding next_extent first next_from has_type
next_from_first = refl

find_next_runs :
    (find_next_extent_size small_disc 96 uspace 16 32 ≡ ok 96)
    × (find_next_extent_size small_disc 224 uspace 64 32 ≡ ok 288)
    × (find_next_extent_size small_disc 224 uspace 128 32 ≡ ok 0)
unfolding find_next_extent_size find_extent find_from next_size_loop next_extent next_from
    next_after has_type misplaced
find_next_runs = (refl, refl, refl)

prev_runs :
    (prev_extent_size (last small_disc) uspace 16 32 ≡ ok 384)
    × (prev_extent_size (last small_disc) uspace 130 1 ≡ ok 270)
    × (prev_extent_size (last small_disc) uspace 200 32 ≡ ok 32)
unfolding prev_extent_size last prev_size_loop prev_extent prev_from prev_before has_type
prev_runs = (refl, refl, refl)

find_extent-Holds_example : Returns (find_extent small_disc 300) (Holds 0 400 300 small_disc)
find_extent-Holds_example =
    find_extent-Holds small_disc 300 0 400 (omega arith) (omega arith) (omega arith) (omega arith)

set_extent-Placed_example :
    Returns (set_extent small_disc mvds 96 16) (Placed 0 400 mvds 96 16 small_disc)
set_extent-Placed_example =
    set_extent-Placed small_disc mvds 96 16 0 400 (omega arith) (omega arith)
      (inr (inl (omega arith)))

find_next_extent_size-First_example :
    Returns (find_next_extent_size small_disc 224 uspace 64 32) (First uspace 64 32 224 small_disc)
find_next_extent_size-First_example =
    find_next_extent_size-First small_disc 224 uspace 64 32 0 400 (omega arith) (omega arith)
      (omega arith) (omega arith) (omega arith) (omega arith) refl

-- The small disc up to its last extent, which is where the search back begins.
abbrev small_end : Cursor
small_end =
    cursor (extent anchor 256 1 ∷ extent uspace 32 224 ∷ extent reserved 0 32 ∷ [])
      (extent uspace 257 143) []

prev_extent_size-Last_example :
    Returns
      (prev_extent_size (some small_end) uspace 130 32)
      (Last uspace 130 32 (small_end.at ∷ small_end.before))
prev_extent_size-Last_example =
    prev_extent_size-Last small_end uspace 130 32 0 (omega arith) (omega arith) (omega arith)
      (omega arith)

-- One block at a multiple of 32, in a free extent from 257 to 261.
abbrev short_end : Cursor
short_end = cursor [] (extent uspace 257 4) []

next_size_loop-outside_example :
    (next_size_loop 1 0 uspace 1 32 (some short_end) ≡ ok 288)
    × (¬ Room uspace 1 288 (extent uspace 257 4 ∷ []))
next_size_loop-outside_example =
    next_size_loop-outside 0 0 uspace 1 32 short_end (omega arith) (omega arith) (omega arith)
      (omega arith) (omega arith) (omega arith) (omega arith)

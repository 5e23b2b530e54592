-- ===== src/Extent/Blank.antt =====
-- `set_extent` at a disc that is one free extent.
use udftools.Base.{ℕ, ◌-◌, ◌<◌, ◌^◌, ◌≡◌, [], ◌∷◌, arith, ok}
use udftools.Extent.{cursor, extent, set_extent, set_at, find_extent, find_from}
use udftools.Extent.SpaceType

-- The first blocks of the disc are cut off.
pub set_extent_front :
    (type blocks size : ℕ)
    → 0 < size
    → size < blocks
    → blocks < 2 ^ 32
    → set_extent (extent SpaceType.uspace 0 blocks ∷ []) type 0 size
      ≡ ok (cursor [] (extent type 0 size) (extent SpaceType.uspace size (blocks - size) ∷ []))
unfolding set_extent find_extent find_from set_at
set_extent_front type blocks size some_blocks less small = ground arith

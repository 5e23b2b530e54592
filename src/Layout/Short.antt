-- ===== src/Layout/Short.antt =====
-- Where a step of `split_space` finds no place for what it puts on the disc: its search returns 0.
-- `Leaves` says how the program comes there.
use udftools.Base.{◌*◌, ◌/◌, ◌≡◌, ok, Run, ◌>>=◌, leb, if◌then◌else◌, u32, add32, sub32, ℕ}
use udftools.Extent.{last, find_next_extent_size, prev_extent_size}
use udftools.Extent.SpaceType
use udftools.Layout.{
  Sizes, Region, from_block, largest_free, compute_sizes, place_mvds, place_rvds, place_descriptors,
  place_partition, write_sizes,
}
use udftools.Space.{Disc, has_flag, flag_vat, init_space, place_fixed}
use udftools.Space.Anchors.{NoSecondAnchor}

-- The main volume descriptors.
abbrev pub NoMvds : Sizes → Disc → Type 0
NoMvds sizes d =
    find_next_extent_size d.exts (from_block d 96) SpaceType.uspace sizes.vds d.vds.align ≡ ok 0

-- The reserve volume descriptors: behind the packets before block 256 with a virtual allocation
-- table, from 160 blocks before the end on a disc of 3072 blocks, else at the last place.
abbrev pub rvds_place : Sizes → Disc → Run ℕ
rvds_place sizes d =
    if has_flag d flag_vat
    then find_next_extent_size d.exts (u32 (sub32 256 sizes.vds / d.vds.align * d.vds.align))
        SpaceType.uspace sizes.vds d.vds.align
    else if leb 3072 d.blocks
    then find_next_extent_size d.exts (add32 (sub32 d.blocks 257) 97 / 32 * 32) SpaceType.uspace
        sizes.vds d.vds.align
    else prev_extent_size (last d.exts) SpaceType.uspace sizes.vds d.vds.align

abbrev pub NoRvds : Sizes → Disc → Type 0
NoRvds sizes d = rvds_place sizes d ≡ ok 0

-- The integrity descriptors, from a block on.
abbrev pub NoLvid : ℕ → Sizes → Disc → Type 0
NoLvid start sizes d =
    find_next_extent_size d.exts start SpaceType.uspace sizes.lvid d.lvid.align ≡ ok 0

-- The partition.
abbrev pub NoPspace : Disc → Type 0
NoPspace d = (largest_free d >>= λ best. ok best.size) ≡ ok 0

-- The ways in which `split_space` leaves by `exit(1)`: each names the discs that the steps before it
-- made, and the search that found no place in the last of them.
pub data Leaves (given : Disc) : Type 0 where
  no_second_anchor : NoSecondAnchor given → Leaves given
  no_mvds :
      (p : Disc) (sizes : Sizes)
      → place_fixed (init_space given) ≡ ok p
      → compute_sizes p ≡ ok sizes
      → NoMvds sizes p
      → Leaves given
  no_rvds :
      (p m : Disc) (sizes : Sizes)
      → place_fixed (init_space given) ≡ ok p
      → compute_sizes p ≡ ok sizes
      → place_mvds sizes p ≡ ok m
      → NoRvds sizes m
      → Leaves given
  no_lvid :
      (p m r : Disc) (sizes : Sizes)
      → place_fixed (init_space given) ≡ ok p
      → compute_sizes p ≡ ok sizes
      → place_mvds sizes p ≡ ok m
      → place_rvds sizes m ≡ ok r
      → NoLvid (from_block r 128) sizes r
      → Leaves given
  no_pspace :
      (p d : Disc) (sizes : Sizes)
      → place_fixed (init_space given) ≡ ok p
      → compute_sizes p ≡ ok sizes
      → place_descriptors sizes p ≡ ok d
      → NoPspace d
      → Leaves given
  no_last_lvid :
      (p d d' : Disc) (sizes : Sizes) (best : Region)
      → place_fixed (init_space given) ≡ ok p
      → compute_sizes p ≡ ok sizes
      → place_descriptors sizes p ≡ ok d
      → place_partition d ≡ ok (d', best)
      → NoLvid 0 sizes (write_sizes best.size d')
      → Leaves given

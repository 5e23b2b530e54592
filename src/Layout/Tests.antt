-- ===== src/Layout/Tests.antt =====
-- Runs of `split_space`, and the theorems about it at concrete discs.
use udftools.Base.{ℕ, ◌≡◌, refl, List, [], ◌∷◌, Run, ok, none, EndsOr, arith, ◌>>=◌}
use udftools.Extent.{
  Extent, extent, set_extent, find_extent, find_from, set_at, find_next_extent_size, next_size_loop,
  skip_to, misplaced, next_after, next_extent, next_from, has_type, prev_extent_size,
  prev_size_loop, prev_extent, prev_from, prev_before, first, last,
}
use udftools.Extent.SpaceType
use udftools.Layout.{
  size_sparing_table, size_sparing_for, size_of, compute_sizes, place_mvds, place_rvds, place_lvid,
  place_descriptors, place_sparing, place_sparing_for, aligned_part, larger, largest_from,
  largest_at, largest_free, place_partition, partition_sizes, write_sizes, place_missing,
  place_lvid_last, split_space,
}
use udftools.Space.{
  Disc, Sizing, init_space, has_flag, divide, place, place_found, place_boot_area, place_vrs,
  place_first_anchor, place_second_anchor, place_final_anchor, place_fixed,
}
use udftools.Space.Sane.{Sane}
use udftools.Layout.Short.{Leaves}
use udftools.Layout.Result.{Laid, split_space-Laid}

abbrev plain : ℕ → Sizing
plain size = record { align = 1; num_size = 0; denom_size = 1; min_size = size }

-- A hard disk of 512-byte blocks with the default sizes.
abbrev hard_disk : ℕ → Disc
hard_disk blocks = record {
  blocks = blocks;
  blocksize = 512;
  flags = 0x2810;
  vds = plain 16;
  lvid = plain 1;
  stable = plain 0;
  sspace = plain 0;
  pspace = plain 0;
  access_type = 4;
  sparable = none;
  num_partition_maps = 1;
  sizes_written = [];
  exts = extent SpaceType.uspace 0 blocks ∷ [];
}

abbrev exts_of : Run Disc → Run (List Extent)
exts_of run = run >>= λ d. ok d.exts

split_space_run :
    exts_of (split_space (init_space (hard_disk 20000)))
    ≡ ok (
        extent SpaceType.reserved 0 64
        ∷ extent SpaceType.vrs 64 13
        ∷ extent SpaceType.uspace 77 19
        ∷ extent SpaceType.mvds 96 16
        ∷ extent SpaceType.uspace 112 16
        ∷ extent SpaceType.lvid 128 16
        ∷ extent SpaceType.uspace 144 112
        ∷ extent SpaceType.anchor 256 1
        ∷ extent SpaceType.pspace 257 19486
        ∷ extent SpaceType.anchor 19743 1
        ∷ extent SpaceType.uspace 19744 96
        ∷ extent SpaceType.rvds 19840 16
        ∷ extent SpaceType.uspace 19856 143
        ∷ extent SpaceType.anchor 19999 1
        ∷ [])
unfolding split_space init_space has_flag divide place place_found place_boot_area place_vrs
    place_first_anchor place_second_anchor place_final_anchor place_fixed size_sparing_table
    size_sparing_for size_of compute_sizes place_mvds place_rvds place_lvid place_descriptors
    place_sparing place_sparing_for aligned_part larger largest_from largest_at largest_free
    place_partition partition_sizes write_sizes place_missing place_lvid_last set_extent find_extent
    find_from set_at find_next_extent_size next_size_loop skip_to misplaced next_after next_extent
    next_from has_type prev_extent_size prev_size_loop prev_extent prev_from prev_before first last
split_space_run = refl

hard_disk-Sane : Sane (hard_disk 20000) (init_space (hard_disk 20000))
unfolding init_space
hard_disk-Sane = record {
  blocks = refl;
  same_blocksize = refl;
  flags = refl;
  same_vds = refl;
  same_lvid = refl;
  same_pspace = refl;
  same_maps = refl;
  large = omega arith;
  small = omega arith;
  blocksize = omega arith;
  no_sparing = refl;
  vds = omega arith;
  vds_fixed = refl;
  lvid = omega arith;
  pspace = omega arith;
  divisors = omega arith;
  tiles = (refl, refl);
}

split_space-Laid_example :
    EndsOr
      (split_space (init_space (hard_disk 20000)))
      (Laid (hard_disk 20000))
      (Leaves (hard_disk 20000))
split_space-Laid_example = split_space-Laid (hard_disk 20000) hard_disk-Sane

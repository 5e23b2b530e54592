-- ===== src/Space/Sane.antt =====
-- What every step of `split_space` keeps: the extents cover the disc, and the parameters of the
-- layout are within their bounds.
use native.Mathlib.Nat.{div-le_of_le-mul, le-div_iff_mul-le}
use udftools.Base.{
  ℕ, ◌+◌, ◌/◌, ◌^◌, ◌≤◌, ◌<◌, ◌≡◌, refl, ◌∙◌, inl, inr, none, List, arith, ◌==◌, Bool-cases, ok,
  Returns, Returns->>=, Returns_mono, EndsOr, EndsOr_of_Returns,
}
use udftools.Extent.{Extent, unzip, set_extent}
use udftools.Extent.SpaceType
use udftools.Extent.Tiling.{Tiles}
use udftools.Extent.Place.{Placed, set_extent-Placed}
use udftools.Extent.Search.Sound.{Found}
use udftools.Extent.Kept.{Area, Filled, Kept, Kept-refl, Kept-trans, Placed-Kept}
use udftools.Extent.Search.{Room}
use udftools.Extent.Cursors.{Room-Fits}
use udftools.Space.{Disc, divide, place, place_found}

-- A state of the given disc: it has no sparable partition, more than 257 blocks of 512 to 32768
-- bytes, and usable sizes and alignments, and its extents cover it.
pub record Sane (given d : Disc) : Type 0 where
  pub blocks : d.blocks ≡ given.blocks
  pub same_blocksize : d.blocksize ≡ given.blocksize
  pub flags : d.flags ≡ given.flags
  pub same_vds : d.vds ≡ given.vds
  pub same_lvid : d.lvid ≡ given.lvid
  pub same_pspace : d.pspace ≡ given.pspace
  pub same_maps : d.num_partition_maps ≡ given.num_partition_maps
  pub large : 257 < given.blocks
  pub small : given.blocks < 2 ^ 32
  pub blocksize : (512 ≤ d.blocksize) × (d.blocksize ≤ 32768)
  pub no_sparing : d.sparable ≡ none
  pub vds : (0 < d.vds.align) × (d.vds.align ≤ d.vds.min_size) × (d.vds.min_size ≤ 256)
  pub vds_fixed : d.vds.num_size ≡ 0
  pub lvid : (0 < d.lvid.align) × (d.lvid.align ≤ d.lvid.min_size)
  pub pspace : 0 < d.pspace.align
  pub divisors :
      (0 < d.vds.denom_size)
      × (0 < d.lvid.denom_size)
      × (0 < d.stable.denom_size)
      × (0 < d.sspace.denom_size)
      × (0 < d.pspace.denom_size)
  pub tiles : Tiles 0 d.exts given.blocks

pub Sane-rest :
    (given d : Disc) (l : List Extent) (written : List ℕ)
    → Sane given d
    → Tiles 0 l given.blocks
    → Sane given (record d { exts = l; sizes_written = written })
Sane-rest given d l written h tiles = record {
  blocks = h.blocks;
  same_blocksize = h.same_blocksize;
  flags = h.flags;
  same_vds = h.same_vds;
  same_lvid = h.same_lvid;
  same_pspace = h.same_pspace;
  same_maps = h.same_maps;
  large = h.large;
  small = h.small;
  blocksize = h.blocksize;
  no_sparing = h.no_sparing;
  vds = h.vds;
  vds_fixed = h.vds_fixed;
  lvid = h.lvid;
  pspace = h.pspace;
  divisors = h.divisors;
  tiles = tiles;
}

pub Sane-exts :
    (given d : Disc) (l : List Extent)
    → Sane given d
    → Tiles 0 l given.blocks
    → Sane given (record d { exts = l })
Sane-exts given d l h tiles = Sane-rest given d l d.sizes_written h tiles

-- What a step from the disc `old` leaves: the parameters as they were, and every block in use as it
-- was.
pub record After (given old d : Disc) : Type 0 where
  pub sane : Sane given d
  pub kept : Kept old.exts d.exts
  pub same_sizes : d.sizes_written ≡ old.sizes_written

pub stay-After : (given d : Disc) → Sane given d → After given d d
stay-After given d h = record { sane = h; kept = Kept-refl d.exts; same_sizes = refl }

pub After-trans : (given a b c : Disc) → After given a b → After given b c → After given a c
After-trans given a b c h h' = record {
  sane = h'.sane;
  kept = Kept-trans a.exts b.exts c.exts h.kept h'.kept;
  same_sizes = h'.same_sizes ∙ h.same_sizes;
}

-- A step that also fills blocks with a type, or makes an area of that type somewhere.
pub record Filling (given old : Disc) (type start blocks : ℕ) (d : Disc) : Type 0 where
  pub after : After given old d
  pub filled : Filled type start blocks d.exts

pub record Made (given old : Disc) (type blocks : ℕ) (d : Disc) : Type 0 where
  pub after : After given old d
  pub area : Area type blocks d.exts

module _ (type start blocks : ℕ) (given d : Disc) (h : Sane given d) where
  pub place-Filling :
      0 < blocks
      → Room SpaceType.uspace blocks start d.exts
      → Returns (place type start blocks d) (Filling given d type start blocks)
  unfolding place Filled
  place-Filling some_blocks room =
      Returns->>= (set_extent d.exts type start blocks) _
        (Placed 0 given.blocks type start blocks d.exts) (Filling given d type start blocks)
        (set_extent-Placed d.exts type start blocks 0 given.blocks h.tiles h.small
          (Room-Fits SpaceType.uspace blocks start d.exts some_blocks room))
        λ c p. record {
          after = record {
            sane = Sane-exts given d (unzip c) h p.tiles;
            kept = Placed-Kept type start blocks given.blocks d.exts c h.tiles room p;
            same_sizes = refl;
          };
          filled = λ x low high. ground (arith, p.types x);
        }

  pub place_found-Made :
      0 < blocks
      → Found SpaceType.uspace blocks d.exts start
      → EndsOr (place_found type start blocks d) (Made given d type blocks) (start ≡ 0)
  unfolding place_found Area
  place_found-Made some_blocks (inl nothing) = rw nothing refl
  place_found-Made some_blocks (inr room) = elim (Bool-cases (start == 0)) [
    | inl zero ↦ rw zero (ground (arith, zero))
    | inr later ↦ rw later (
        EndsOr_of_Returns (place type start blocks d) (Made given d type blocks) (start ≡ 0) (
          Returns_mono (place type start blocks d) (Filling given d type start blocks)
            (Made given d type blocks) (place-Filling some_blocks room)
            λ d' f. record { after = f.after; area = (start, f.filled) }))
  ]

pub divide-ok : (a b : ℕ) → 0 < b → divide a b ≡ ok (a / b)
unfolding divide
divide-ok a b h = ground arith

-- The start and the greatest size of the volume recognition sequence.
pub vrs_bounds :
    (blocksize : ℕ)
    → 512 ≤ blocksize
    → blocksize ≤ 32768
    → (0 < 32768 / blocksize)
      × (32768 / blocksize ≤ 64)
      × ((6144 + blocksize) / blocksize ≤ 13)
      × (0 < (6144 + blocksize) / blocksize)
vrs_bounds b low high = (
  (le-div_iff_mul-le {k = b} {x = 1} {y = 32768} (omega arith)).1 (omega arith),
  div-le_of_le-mul b (omega arith),
  div-le_of_le-mul b (omega arith),
  (le-div_iff_mul-le {k = b} {x = 1} {y = 6144 + b} (omega arith)).1 (omega arith),
)

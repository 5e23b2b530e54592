-- ===== src/Layout/Result.antt =====
-- `split_space` as a whole: what a disc looks like when it returns.
use udftools.Base.{
  ◌-◌, ◌/◌, ◌%◌, ◌<◌, ◌≡◌, ◌≢◌, refl, sym, ◌∙◌, ap, subst, false, none, some, ◌++◌, Run, ok, EndsOr,
  EndsOr->>=, EndsOr_mono, EndsOr_of_Returns, ◌>>=◌,
}
use udftools.Extent.{first, next_extent}
use udftools.Extent.SpaceType
use udftools.Extent.Tiling.{type_at, Tiles}
use udftools.Extent.Kept.{Area, Filled, Kept, Kept-trans, Area-Kept, Filled-Kept, Kept-at}
use udftools.Layout.{
  Sizes, from_block, Region, partition_sizes, size_sparing_table, size_sparing_for, compute_sizes,
  place_mvds, place_rvds, place_lvid, place_descriptors, place_sparing, place_sparing_for,
  place_partition, write_sizes, place_lvid_last, split_space,
}
use udftools.Space.{Disc, init_space, has_flag, flag_vat, place_fixed}
use udftools.Space.Sane.{Sane, Sane-rest, After, After-trans, Filling, Made}
use udftools.Space.Fixed.{vrs_blocks}
use udftools.Space.Anchors.{NoSecondAnchor, Prepared, place_fixed-Prepared}
use udftools.Layout.Amounts.{Sized, compute_sizes-Sized, Sized-given}
use udftools.Layout.Short.{
  NoMvds, NoRvds, NoLvid, NoPspace, Leaves, no_second_anchor, no_mvds, no_rvds, no_lvid, no_pspace,
  no_last_lvid,
}
use udftools.Layout.Descriptors.{
  place_mvds-Made, place_rvds-Made, place_lvid-After, place_lvid_last-EndsOr,
}
use udftools.Layout.Partition.{place_partition-EndsOr}

-- A finished layout. The extents cover the disc. The recognition sequence and the anchors at block
-- 256 and, without a virtual allocation table, at the last block are where the standard wants them.
-- There are two descriptor sequences of the size asked for, an extent for the integrity descriptors,
-- and an aligned partition of a positive size, which the integrity descriptor has twice in its
-- tables.
pub record Laid (given d : Disc) : Type 0 where
  pub blocks : d.blocks ≡ given.blocks
  pub tiles : Tiles 0 d.exts given.blocks
  pub sequence : Filled SpaceType.vrs (32768 / given.blocksize) (vrs_blocks given.blocksize) d.exts
  pub first_anchor : type_at d.exts 256 ≡ some SpaceType.anchor
  pub last_anchor :
      has_flag given flag_vat ≡ false → type_at d.exts (given.blocks - 1) ≡ some SpaceType.anchor
  pub main : Area SpaceType.mvds given.vds.min_size d.exts
  pub reserve : Area SpaceType.rvds given.vds.min_size d.exts
  pub integrity : next_extent (first d.exts) SpaceType.lvid ≢ none
  pub partition : Region
  pub partition_filled : Filled SpaceType.pspace partition.start partition.size d.exts
  pub partition_some : 0 < partition.size
  pub partition_aligned :
      (partition.start % given.pspace.align ≡ 0) × (partition.size % given.pspace.align ≡ 0)
  pub sizes :
      d.sizes_written
      ≡ partition_sizes partition.size given.num_partition_maps 0
        ++ partition_sizes partition.size given.num_partition_maps 0

-- The disc after the two descriptor sequences and the first attempt at the integrity descriptors.
record Described (given prepared d : Disc) : Type 0 where
  after : After given prepared d
  main : Area SpaceType.mvds given.vds.min_size d.exts
  reserve : Area SpaceType.rvds given.vds.min_size d.exts

-- The partition and what follows it.
finish : Sizes → Disc → Run Disc
finish sizes d = do
  d ← place_sparing sizes d
  (d, best) ← place_partition d
  place_lvid_last sizes (write_sizes best.size d)

module _ (given p : Disc) (sizes : Sizes) (s : Sized given sizes)
    (fixed : place_fixed (init_space given) ≡ ok p) (sized : compute_sizes p ≡ ok sizes)
    (prepared : Prepared given p) where
  place_descriptors-Described :
      EndsOr (place_descriptors sizes p) (Described given p) (Leaves given)
  unfolding place_descriptors
  place_descriptors-Described =
      let h = prepared.sane in
      EndsOr->>= (place_mvds sizes p) _ (Made given p SpaceType.mvds sizes.vds) (Described given p)
        (Leaves given)
        (EndsOr_mono (place_mvds sizes p) _ _ (NoMvds sizes p) (Leaves given)
          (place_mvds-Made given p sizes h s) (λ a m. m) (no_mvds p sizes fixed sized))
        λ m made_m made.
          EndsOr->>= (place_rvds sizes m) _ (Made given m SpaceType.rvds sizes.vds)
            (Described given p) (Leaves given)
            (EndsOr_mono (place_rvds sizes m) _ _ (NoRvds sizes m) (Leaves given)
              (place_rvds-Made given m sizes made.after.sane s) (λ a m. m)
              (no_rvds p m sizes fixed sized made_m))
            λ r made_r made'.
              EndsOr_mono (place_lvid sizes r) (After given r) (Described given p)
                (NoLvid (from_block r 128) sizes r) (Leaves given)
                (place_lvid-After given r sizes made'.after.sane s)
                (λ l a.
                  let behind = After-trans given m r l made'.after a in
                  record {
                    after = After-trans given p m l made.after behind;
                    main =
                        subst (λ n. Area SpaceType.mvds n l.exts) s.vds
                          (Area-Kept SpaceType.mvds sizes.vds m.exts l.exts refl behind.kept
                            made.area);
                    reserve =
                        subst (λ n. Area SpaceType.rvds n l.exts) s.vds
                          (Area-Kept SpaceType.rvds sizes.vds r.exts l.exts refl a.kept made'.area);
                  })
                (no_lvid p m r sizes fixed sized made_m made_r)

  module _ (d : Disc) (made_d : place_descriptors sizes p ≡ ok d)
      (described : Described given p d) where
    -- The partition sizes are written, and what the layout made so far is kept by the last step.
    close-Laid :
        (d' : Disc) (best : Region)
        → place_partition d ≡ ok (d', best)
        → Filling given d SpaceType.pspace best.start best.size d'
        → 0 < best.size
        → (best.start % d.pspace.align ≡ 0) × (best.size % d.pspace.align ≡ 0)
        → EndsOr (place_lvid_last sizes (write_sizes best.size d')) (Laid given) (Leaves given)
    unfolding write_sizes
    close-Laid d' best placed filling some_blocks aligned =
        let h = described.after.sane in
        let h' = filling.after.sane in
        let table = partition_sizes best.size d'.num_partition_maps 0 in
        let w = record d' { sizes_written = table ++ table } in
        EndsOr_mono (place_lvid_last sizes w) _ (Laid given) (NoLvid 0 sizes w) (Leaves given)
          (place_lvid_last-EndsOr given w sizes
            (Sane-rest given d' d'.exts (table ++ table) h' h'.tiles) s)
          (λ e last.
            let tail : Kept d.exts e.exts =
              Kept-trans d.exts d'.exts e.exts filling.after.kept last.0.kept in
            let all : Kept p.exts e.exts =
              Kept-trans p.exts d.exts e.exts described.after.kept tail in
            record {
              blocks = last.0.sane.blocks;
              tiles = last.0.sane.tiles;
              sequence =
                  Filled-Kept SpaceType.vrs (32768 / given.blocksize) (vrs_blocks given.blocksize)
                    p.exts e.exts refl all (unfold Filled in prepared.sequence);
              first_anchor =
                  Kept-at 256 SpaceType.anchor p.exts e.exts all prepared.first_anchor refl;
              last_anchor = λ no_vat.
                  Kept-at (given.blocks - 1) SpaceType.anchor p.exts e.exts all
                    (prepared.last_anchor no_vat) refl;
              main =
                  Area-Kept SpaceType.mvds given.vds.min_size d.exts e.exts refl tail
                    described.main;
              reserve =
                  Area-Kept SpaceType.rvds given.vds.min_size d.exts e.exts refl tail
                    described.reserve;
              integrity = last.1;
              partition = best;
              partition_filled =
                  Filled-Kept SpaceType.pspace best.start best.size d'.exts e.exts refl last.0.kept
                    filling.filled;
              partition_some = some_blocks;
              partition_aligned =
                  subst (λ z. (best.start % z.align ≡ 0) × (best.size % z.align ≡ 0)) h.same_pspace
                    aligned;
              sizes =
                  last.0.same_sizes
                  ∙ ap (λ n. partition_sizes best.size n 0 ++ partition_sizes best.size n 0)
                      h'.same_maps;
            })
          (no_last_lvid p d d' sizes best fixed sized made_d placed)

    finish-Laid : EndsOr (finish sizes d) (Laid given) (Leaves given)
    unfolding finish place_sparing place_sparing_for
    finish-Laid =
        let h = described.after.sane in
        subst
          (λ o.
            EndsOr
              (place_sparing_for sizes o d >>= (λ d.
                place_partition d >>= (λ p. place_lvid_last sizes (write_sizes p.1.size p.0))))
              (Laid given) (Leaves given))
          (sym h.no_sparing)
          (EndsOr->>= (place_partition d) _ _ (Laid given) (Leaves given)
            (EndsOr_mono (place_partition d) _ _ (NoPspace d) (Leaves given)
              (place_partition-EndsOr given d h) (λ a m. m)
              (no_pspace p d sizes fixed sized made_d))
            λ out placed good. close-Laid out.0 out.1 placed good.0 good.1 (good.2, good.3))

-- The steps behind the areas at fixed places.
fill : Disc → Run Disc
unfolding finish
fill d = do
  d ← size_sparing_table d
  sizes ← compute_sizes d
  d ← place_descriptors sizes d
  finish sizes d

fill-Laid :
    (given p : Disc)
    → place_fixed (init_space given) ≡ ok p
    → Prepared given p
    → EndsOr (fill p) (Laid given) (Leaves given)
unfolding fill size_sparing_table size_sparing_for
fill-Laid given p fixed prepared =
    let h = prepared.sane in
    subst
      (λ o.
        EndsOr
          (size_sparing_for o p
            >>= (λ d. compute_sizes d >>= (λ sizes. place_descriptors sizes d >>= finish sizes)))
          (Laid given) (Leaves given))
      (sym h.no_sparing)
      (EndsOr->>= (compute_sizes p) _ (Sized p) (Laid given) (Leaves given)
        (EndsOr_of_Returns (compute_sizes p) (Sized p) (Leaves given)
          (compute_sizes-Sized given p h))
        λ sizes sized s.
          let s' = Sized-given given p sizes h s in
          EndsOr->>= (place_descriptors sizes p) _ (Described given p) (Laid given) (Leaves given)
            (place_descriptors-Described given p sizes s' fixed sized prepared)
            λ d made_d described.
              finish-Laid given p sizes s' fixed sized prepared d made_d described)

pub split_space-Laid :
    (given : Disc)
    → Sane given (init_space given)
    → EndsOr (split_space (init_space given)) (Laid given) (Leaves given)
unfolding split_space fill finish
split_space-Laid given h =
    EndsOr->>= (place_fixed (init_space given)) fill (Prepared given) (Laid given) (Leaves given)
      (EndsOr_mono (place_fixed (init_space given)) _ _ (NoSecondAnchor given) (Leaves given)
        (place_fixed-Prepared given h) (λ a m. m) no_second_anchor)
      (fill-Laid given)

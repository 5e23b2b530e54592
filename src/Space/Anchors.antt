-- ===== src/Space/Anchors.antt =====
-- The anchors of `split_space`, and all areas at fixed places together.
use udftools.Base.{
  subst, ℕ, ◌-◌, ◌≤◌, ◌<◌, ◌≡◌, ◌≢◌, refl, ◌∙◌, inl, inr, some, true, false, ◌||◌, arith, ltb, leb,
  Bool-cases, Returns, Returns->>=, Returns_mono, EndsOr, EndsOr->>=, EndsOr_of_Returns, sub32, sym,
}
use udftools.Extent.{unzip, set_extent}
use udftools.Extent.SpaceType
use udftools.Extent.Tiling.{type_at}
use udftools.Extent.Place.{Placed, set_extent-Placed}
use udftools.Extent.Cursors.{Fits-one}
use udftools.Space.{
  Disc, init_space, has_flag, flag_vat, flag_closed, place, place_boot_area, place_vrs,
  place_first_anchor, place_second_anchor, place_final_anchor, place_fixed,
}
use udftools.Space.Sane.{Sane, Sane-exts}
use udftools.Space.Fixed.{
  Begun, HasVrs, Recognised, place_boot_area-Begun, place_vrs-Recognised, vrs_end,
}

-- A closed disc for a virtual allocation table has no block for a second anchor.
abbrev pub NoSecondAnchor : Disc → Type 0
NoSecondAnchor given =
    (has_flag given flag_closed ≡ true) × (has_flag given flag_vat ≡ true) × (given.blocks < 514)

-- What the areas at fixed places give: the sequence, the anchor at block 256 and, on a disc without
-- a virtual allocation table, the anchor at its last block.
pub record Prepared (given d : Disc) : Type 0 where
  pub sane : Sane given d
  pub sequence : HasVrs given d
  pub first_anchor : type_at d.exts 256 ≡ some SpaceType.anchor
  pub last_anchor :
      has_flag given flag_vat ≡ false → type_at d.exts (given.blocks - 1) ≡ some SpaceType.anchor

record Anchored (given d : Disc) : Type 0 where
  sane : Sane given d
  sequence : HasVrs given d
  first_anchor : type_at d.exts 256 ≡ some SpaceType.anchor

-- One block gets a type, and no other block changes.
record One (given : Disc) (type x : ℕ) (d d' : Disc) : Type 0 where
  sane : Sane given d'
  here : type_at d'.exts x ≡ some type
  elsewhere : (y : ℕ) → y ≢ x → type_at d'.exts y ≡ type_at d.exts y

module _ (given d : Disc) where
  same_flags : Sane given d → (flag : ℕ) → has_flag d flag ≡ has_flag given flag
  unfolding has_flag
  same_flags h flag = rw h.flags refl

  place-One :
      (type x : ℕ)
      → Sane given d
      → x < given.blocks
      → Returns (place type x 1 d) (One given type x d)
  unfolding place
  place-One type x h inside =
      Returns->>= (set_extent d.exts type x 1) _ (Placed 0 given.blocks type x 1 d.exts)
        (One given type x d)
        (set_extent-Placed d.exts type x 1 0 given.blocks h.tiles h.small
          (Fits-one x 0 given.blocks d.exts h.tiles (omega arith) inside))
        λ c p. record {
          sane = Sane-exts given d (unzip c) h p.tiles;
          here = ground (arith, p.types x);
          elsewhere = λ y other. ground (arith, p.types y);
        }

  One-HasVrs :
      (type x : ℕ) (d' : Disc)
      → Sane given d
      → HasVrs given d
      → One given type x d d'
      → 77 ≤ x
      → HasVrs given d'
  One-HasVrs type x d' h sequence o far y low high =
      o.elsewhere y (omega (arith, vrs_end given d h)) ∙ sequence y low high

  place_first_anchor-Anchored : Recognised given d → Returns (place_first_anchor d) (Anchored given)
  unfolding place_first_anchor
  place_first_anchor-Anchored a =
      let h = a.sane in
      let more : ltb 257 d.blocks ≡ true = ground (arith, h.blocks, h.large) in
      rw more (
        Returns_mono (place SpaceType.anchor 256 1 d) (One given SpaceType.anchor 256 d)
          (Anchored given) (place-One SpaceType.anchor 256 h (omega (arith, h.large)))
          λ d' o. record {
            sane = o.sane;
            sequence = One-HasVrs SpaceType.anchor 256 d' h a.sequence o (omega arith);
            first_anchor = o.here;
          })

  -- One more anchor, behind block 256.
  more-Anchored :
      (x : ℕ)
      → Anchored given d
      → 256 < x
      → x < given.blocks
      → Returns
          (place SpaceType.anchor x 1 d)
          (λ d'. Anchored given d' × (type_at d'.exts x ≡ some SpaceType.anchor))
  more-Anchored x a low high =
      Returns_mono (place SpaceType.anchor x 1 d) (One given SpaceType.anchor x d) _
        (place-One SpaceType.anchor x a.sane high)
        λ d' o. (
          record {
            sane = o.sane;
            sequence = One-HasVrs SpaceType.anchor x d' a.sane a.sequence o (omega arith);
            first_anchor = o.elsewhere 256 (omega arith) ∙ a.first_anchor;
          },
          o.here,
        )

  more-EndsOr :
      (x : ℕ)
      → Anchored given d
      → 256 < x
      → x < given.blocks
      → EndsOr (place SpaceType.anchor x 1 d) (Anchored given) (NoSecondAnchor given)
  more-EndsOr x a low high =
      EndsOr_of_Returns (place SpaceType.anchor x 1 d) (Anchored given) (NoSecondAnchor given) (
        Returns_mono (place SpaceType.anchor x 1 d) _ (Anchored given) (more-Anchored x a low high)
          λ d' o. o.0)

  place_second_anchor-Anchored :
      Anchored given d → EndsOr (place_second_anchor d) (Anchored given) (NoSecondAnchor given)
  unfolding place_second_anchor
  place_second_anchor-Anchored a =
      let h = a.sane in
      elim (Bool-cases (has_flag d flag_closed)) [
        | inr not_closed ↦ rw not_closed a
        | inl closed ↦ rw closed (elim (Bool-cases (has_flag d flag_vat)) [
          | inl vat ↦ rw vat (elim (Bool-cases (leb d.blocks 257 || leb (sub32 d.blocks 257) 256)) [
            | inl few ↦ rw few (
              sym (same_flags h flag_closed) ∙ closed,
              sym (same_flags h flag_vat) ∙ vat,
              ground (arith, few, h.blocks, h.large, h.small),
            )
            | inr many ↦
                rw many (more-EndsOr 257 a (omega arith) (ground (arith, h.blocks, h.large)))
          ])
          | inr no_vat ↦ rw no_vat (elim (Bool-cases (leb 3072 d.blocks)) [
            | inr few ↦ rw few a
            | inl many ↦ rw many (
                more-EndsOr (sub32 d.blocks 257) a (ground (arith, h.blocks, h.small))
                  (ground (arith, h.blocks, h.small)))
          ])
        ])
      ]

  place_final_anchor-Prepared : Anchored given d → Returns (place_final_anchor d) (Prepared given)
  unfolding place_final_anchor
  place_final_anchor-Prepared a =
      let h = a.sane in
      let prepared : (d' : Disc)
          → Anchored given d'
          → (has_flag given flag_vat ≡ false
              → type_at d'.exts (given.blocks - 1) ≡ some SpaceType.anchor)
          → Prepared given d' =
        λ d' a' last. record {
          sane = a'.sane;
          sequence = a'.sequence;
          first_anchor = a'.first_anchor;
          last_anchor = last;
        } in
      elim (Bool-cases (has_flag d flag_vat)) [
        | inl vat ↦ rw vat (prepared d a λ none. ground (arith, same_flags h flag_vat))
        | inr no_vat ↦ rw no_vat (
            Returns_mono (place SpaceType.anchor (sub32 d.blocks 1) 1 d) _ (Prepared given)
              (more-Anchored (sub32 d.blocks 1) a (omega (arith, h.blocks, h.small, h.large))
                (omega (arith, h.blocks, h.small, h.large)))
              λ d' o. prepared d' o.0 λ none.
                subst (λ x. type_at d'.exts x ≡ some SpaceType.anchor)
                  (omega (arith, h.blocks, h.small, h.large)) o.1)
      ]

-- Without undefined behaviour, the areas at fixed places are laid out, or the program leaves because
-- a closed disc for a virtual allocation table is too small.
pub place_fixed-Prepared :
    (given : Disc)
    → Sane given (init_space given)
    → EndsOr (place_fixed (init_space given)) (Prepared given) (NoSecondAnchor given)
unfolding place_fixed
place_fixed-Prepared given h =
    let E = NoSecondAnchor given in
    EndsOr->>= (place_boot_area (init_space given)) _ (Begun given) (Prepared given) E
      (EndsOr_of_Returns (place_boot_area (init_space given)) (Begun given) E
        (place_boot_area-Begun given h))
      λ d _ b.
        EndsOr->>= (place_vrs d) _ (Recognised given) (Prepared given) E
          (EndsOr_of_Returns (place_vrs d) (Recognised given) E (place_vrs-Recognised given d b))
          λ d _ r.
            EndsOr->>= (place_first_anchor d) _ (Anchored given) (Prepared given) E
              (EndsOr_of_Returns (place_first_anchor d) (Anchored given) E
                (place_first_anchor-Anchored given d r))
              λ d _ a.
                EndsOr->>= (place_second_anchor d) _ (Anchored given) (Prepared given) E
                  (place_second_anchor-Anchored given d a)
                  λ d _ a'.
                    EndsOr_of_Returns (place_final_anchor d) (Prepared given) E
                      (place_final_anchor-Prepared given d a')

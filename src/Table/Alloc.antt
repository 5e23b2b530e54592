-- ===== src/Table/Alloc.antt =====
-- `udf_alloc_table_blocks`: the run that it takes, the table and the tag that it leaves.
use udftools.Base.{
  ℕ, ◌+◌, ◌-◌, ◌*◌, ◌%◌, ◌^◌, ◌≤◌, ◌<◌, ◌≡◌, refl, subst, arith, List, [], ◌∷◌, ◌++◌, length,
  length-append, length-replicate, replicate, take, drop, ok, Run, fault, exit_failure, out_of_fuel,
  ◌>>=◌, some, Returns, bytes_of,
}
use udftools.Extent.{Payload}
use udftools.Tag.{Tag, tag_bytes, udf_query_tag, bytes_in}
use udftools.Tag.Pieces.{Whole}
use udftools.Tag.Sealed.{Sealed}
use udftools.Tag.Query.{udf_query_tag-Sealed}
use udftools.Table.{
  ShortAd, Slot, Ads, UnallocSpaceEntry, ads_bytes, use_bytes, find_slot, take_blocks,
  udf_alloc_table_blocks,
}
use udftools.Table.Found.{Finds, HoldsRun, find_slot-Finds}
use udftools.Table.Left.{Sound, Left, take_blocks-Left}

-- The entry's tag agrees with its bytes, up to the end of its descriptors.
unfoldable pub Tagged : UnallocSpaceEntry → Type 0
Tagged e =
    Sealed e.desc_tag (take (24 + 8 * length e.alloc_descs.ads) (drop 16 (use_bytes e)))
    × (e.desc_tag.tag_ident ≡ 0x0107)

-- What the allocation of a run of blocks does: the run is aligned, was free and is taken, and it is
-- not behind the first such run from `start` on; the program leaves only where there is none.
unfoldable pub Allocates : ℕ → ℕ → ℕ → UnallocSpaceEntry → ℕ → Run (ℕ × UnallocSpaceEntry) → Type 0
Allocates alignment blocksize blocks e start (ok p) =
    (p.0 % alignment ≡ 0)
    × Left alignment blocksize p.0 blocks e.alloc_descs p.1.alloc_descs
    × ((x : ℕ)
        → start ≤ x
        → x % alignment ≡ 0
        → HoldsRun blocksize blocks x e.alloc_descs.ads
        → p.0 ≤ x)
    × Tagged p.1
Allocates alignment blocksize blocks e start exit_failure =
    (x : ℕ) → start ≤ x → x % alignment ≡ 0 → ¬ HoldsRun blocksize blocks x e.alloc_descs.ads
Allocates alignment blocksize blocks e start fault = ⊥
Allocates alignment blocksize blocks e start out_of_fuel = ⊥

length-ads_bytes : (l : List ShortAd) → length (ads_bytes l) ≡ 8 * length l
unfolding ads_bytes
length-ads_bytes [] = refl
length-ads_bytes (d ∷ l) = omega (arith, length-ads_bytes l)

pub length-use_bytes :
    (e : UnallocSpaceEntry)
    → length e.icb_tag ≡ 20
    → length (use_bytes e) ≡ 40 + 8 * length e.alloc_descs.ads + 8 * e.alloc_descs.room
length-use_bytes e icb =
    let ads = e.alloc_descs.ads in
    let spare : List ℕ = replicate (8 * e.alloc_descs.room) 0 in
    let size = bytes_of 4 (8 * length ads) in
    unfold use_bytes tag_bytes in
    omega (
      arith,
      length-append {0} e.icb_tag (size ++ (ads_bytes ads ++ spare)),
      length-append {0} (ads_bytes ads) spare,
      length-ads_bytes ads,
      length-replicate {A = ℕ} (8 * e.alloc_descs.room) 0,
    )

module _ (udf_rev alignment blocksize offset start blocks : ℕ) (e : UnallocSpaceEntry)
    (pos : 0 < alignment) (pos' : 0 < blocksize) (some_blocks : 0 < blocks)
    (sound : Sound alignment blocksize e.alloc_descs.ads) (some_room : 0 < e.alloc_descs.room)
    (icb : length e.icb_tag ≡ 20)
    (small : 40 + 8 * (length e.alloc_descs.ads + e.alloc_descs.room) < 65552)
    (fits : start + alignment < 2 ^ 32) where
  module _ (s : Slot)
      (finds : Finds alignment blocksize blocks start e.alloc_descs.ads e.alloc_descs.ads (ok s))
      (ads : Ads) (left : Left alignment blocksize s.start blocks e.alloc_descs ads) where
    abbrev fresh : UnallocSpaceEntry
    fresh = record e { alloc_descs = ads }

    abbrev item : Payload
    item = record { length = length (use_bytes fresh); buffer = some (use_bytes fresh) }

    tag_it :
        (r : Run Tag)
        → Returns r (λ t.
          Sealed t (take (40 + 8 * length ads.ads - 16) (drop (0 + 16) (bytes_in item)))
          × (t.tag_ident ≡ 0x0107 % 2 ^ 16)
          × (t.tag_location ≡ offset % 2 ^ 32)
          × (t.desc_crc_length ≡ 40 + 8 * length ads.ads - 16))
        → Allocates alignment blocksize blocks e start
            (r >>= λ t. ok (s.start, record fresh { desc_tag = t }))
    unfolding Allocates Finds use_bytes
    tag_it (ok t) tagged =
        let size : 40 + 8 * length ads.ads - 16 ≡ 24 + 8 * length ads.ads = omega arith in
        (
          finds.0.aligned,
          left,
          finds.1,
          unfold Tagged in
              (
                subst (λ k. Sealed t (take k (drop 16 (use_bytes fresh)))) size
                    (unfold bytes_in in tagged.0),
                tagged.1,
              ),
        )
    tag_it exit_failure tagged = absurd tagged
    tag_it fault tagged = tagged
    tag_it out_of_fuel tagged = tagged

    tag_found : Allocates alignment blocksize blocks e start (
        udf_query_tag udf_rev 0x0107 1 offset (item ∷ []) 0 (40 + 8 * length ads.ads) >>= λ t.
        ok (s.start, record fresh { desc_tag = t }))
    tag_found =
        let size = length-use_bytes fresh icb in
        let slots : length ads.ads + ads.room ≡ length e.alloc_descs.ads + e.alloc_descs.room =
          unfold Left in left.2 in
        tag_it (udf_query_tag udf_rev 0x0107 1 offset (item ∷ []) 0 (40 + 8 * length ads.ads)) (
          udf_query_tag-Sealed udf_rev 0x0107 1 offset 0 (40 + 8 * length ads.ads) item []
            (unfold Whole bytes_in in (refl, omega arith, tt)) (omega arith) (omega arith)
            (omega arith))

  take_it :
      (s : Slot)
      → Finds alignment blocksize blocks start e.alloc_descs.ads e.alloc_descs.ads (ok s)
      → (r : Run Ads) → Returns r (Left alignment blocksize s.start blocks e.alloc_descs)
      → Allocates alignment blocksize blocks e start (
          r >>= λ ads.
          let fresh = record e { alloc_descs = ads } in
          let bytes = use_bytes fresh in
          let item : Payload = record { length = length bytes; buffer = some bytes } in
          udf_query_tag udf_rev 0x0107 1 offset (item ∷ []) 0 (40 + 8 * length ads.ads) >>= λ t.
          ok (s.start, record fresh { desc_tag = t }))
  take_it s finds (ok ads) left = tag_found s finds ads left
  take_it s finds exit_failure left = absurd left
  take_it s finds fault left = absurd left
  take_it s finds out_of_fuel left = absurd left

  find_it :
      (r : Run Slot)
      → Finds alignment blocksize blocks start e.alloc_descs.ads e.alloc_descs.ads r
      → Allocates alignment blocksize blocks e start (
          r >>= λ s. take_blocks blocksize blocks s e.alloc_descs.room >>= λ ads.
          let fresh = record e { alloc_descs = ads } in
          let bytes = use_bytes fresh in
          let item : Payload = record { length = length bytes; buffer = some bytes } in
          udf_query_tag udf_rev 0x0107 1 offset (item ∷ []) 0 (40 + 8 * length ads.ads) >>= λ t.
          ok (s.start, record fresh { desc_tag = t }))
  find_it (ok s) finds = take_it s finds (take_blocks blocksize blocks s e.alloc_descs.room) (
      take_blocks-Left alignment blocksize blocks pos' some_blocks e.alloc_descs.ads s
        (unfold Finds in finds.0) sound e.alloc_descs.room some_room)
  find_it exit_failure finds = unfold Allocates Finds in finds
  find_it fault finds = absurd (unfold Finds in finds)
  find_it out_of_fuel finds = absurd (unfold Finds in finds)

  -- `udf_alloc_table_blocks` on a table whose extents are whole blocks and ascend, with room for
  -- one more descriptor, at most 65551 bytes with that room, and an ICB tag of 20 bytes, where the
  -- start and the ends of the extents can be aligned in 32 bits: it returns an aligned run of
  -- blocks that was in the table, not behind the first such run from `start` on, and leaves a
  -- table of such extents with the other blocks, each as often as before, and a tag that agrees
  -- with the new bytes. It exits only if the table has no such run from `start` on.
  pub udf_alloc_table_blocks-Allocates :
      Allocates alignment blocksize blocks e start
        (udf_alloc_table_blocks udf_rev alignment blocksize offset e start blocks)
  unfolding udf_alloc_table_blocks
  udf_alloc_table_blocks-Allocates =
      find_it (find_slot alignment blocksize blocks start [] e.alloc_descs.ads) (
        find_slot-Finds alignment blocksize blocks pos pos' some_blocks start 0 [] e.alloc_descs.ads
          (unfold Sound in sound.0) (unfold Sound in sound.1) fits)

-- ===== src/Table/Start.antt =====
-- `first_table`: the table that `setup_space` of mkudffs/mkudffs.c writes.
use native.Mathlib.Nat.{
  add-mul, div-mul-le_self, le-div_iff_mul-le, lt-mul-div-succ, mul_comm, mul-div_cancel,
  mul-le-mul_left, mul-le-mul_right,
}
use udftools.Base.{
  ℕ, ◌+◌, ◌-◌, ◌*◌, ◌/◌, ◌^◌, ◌≤◌, ◌<◌, ◌≡◌, refl, ap, subst, arith, [], ◌∷◌, Bool, true, false,
  ltb, ◌==◌, if◌then◌else◌, length, add32, u32, inl, inr, Bool-cases, Returns, Returns->>=, ok,
  some, drop, take, ◌>>=◌,
}
use udftools.Extent.{Payload}
use udftools.Swap.{u64}
use udftools.Space.{divide}
use udftools.Tag.{udf_query_tag, bytes_in}
use udftools.Tag.Pieces.{Whole}
use udftools.Tag.Sealed.{Sealed}
use udftools.Tag.Query.{udf_query_tag-Sealed}
use udftools.Table.{Ads, UnallocSpaceEntry, ext_length_mask, use_bytes}
use udftools.Table.Shares.{shares}
use udftools.Table.Left.{Sound, within}
use udftools.Table.Alloc.{Tagged, length-use_bytes}
use udftools.Table.First.{first_extents, first_table, use_icb_tag, table_length, zero_tag}
use udftools.Table.Whole.{
  Tiles, Tiles-shares, Tiles-All, Tiles-Ascends, last_ad-Tiles, first_ads-Tiles,
}

-- The most bytes that an extent has, and the room of a table.
abbrev pub longest : ℕ → ℕ
longest blocksize = ext_length_mask / blocksize * blocksize

abbrev pub table_room : ℕ → ℕ
table_room blocksize = (blocksize - 40) / 8

module _ (blocksize : ℕ) (low : 48 ≤ blocksize) (high : blocksize ≤ 32768) where
  abbrev m : ℕ
  m = ext_length_mask / blocksize

  some_step : 0 < m
  some_step =
      let h : 1 ≤ m =
        (le-div_iff_mul-le (let p : 0 < blocksize = omega arith in p)).1 (omega arith) in
      omega (arith, h)

  step_fits : m * blocksize ≤ ext_length_mask
  step_fits = div-mul-le_self ext_length_mask blocksize

  enough_room :
      (q : ℕ)
      → q * blocksize / (m * blocksize) + 1 ≤ table_room blocksize
      → q * blocksize ≤ table_room blocksize * (m * blocksize)
  enough_room q h =
      let some_max : 0 < m * blocksize =
        omega (arith, mul-le-mul_right blocksize (let p : 1 ≤ m = omega (arith, some_step) in p)) in
      let needed = q * blocksize / (m * blocksize) in
      omega (
        arith,
        lt-mul-div-succ (q * blocksize) some_max,
        mul-le-mul_right (m * blocksize) h,
        mul_comm (m * blocksize) (needed + 1),
      )

  first_extents-Tiles :
      (offset used q : ℕ)
      → used ≤ 2
      → offset + used + q < 2 ^ 32
      → q * blocksize / longest blocksize + 1 ≤ table_room blocksize
      → Returns (first_extents blocksize offset (used * blocksize) (q * blocksize)) (λ a.
        Tiles blocksize (offset + used) (offset + used + q) a.ads
        × (length a.ads + a.room ≡ table_room blocksize))
  unfolding first_extents divide
  first_extents-Tiles offset used q few small room =
      let pos : 0 < blocksize = omega arith in
      let nonzero : (blocksize == 0) ≡ false = ground arith in
      let fits = step_fits in
      let some_max : 0 < m * blocksize =
        omega (arith, mul-le-mul_right blocksize (let p : 1 ≤ m = omega (arith, some_step) in p)) in
      let whole : u32 (m * blocksize) ≡ m * blocksize = omega arith in
      let nonzero' : (m * blocksize == 0) ≡ false = ground arith in
      let used' : used * blocksize / blocksize ≡ used = mul-div_cancel used pos in
      let at : add32 offset used ≡ offset + used = omega arith in
      let fine : ltb (u64 (blocksize + (2 ^ 64 - 40))) (u64 (q * blocksize / (m * blocksize) * 8))
          ≡ false =
        ground arith in
      rw (nonzero, whole, nonzero', used', at, fine)
        (elim (Bool-cases (ltb ext_length_mask (q * blocksize))) [
          | inl longer ↦ rw longer (
              first_ads-Tiles blocksize pos m some_step (omega arith) (table_room blocksize)
                (offset + used) q (enough_room q room) (omega arith) (omega arith))
          | inr shorter ↦ rw shorter (
              last_ad-Tiles blocksize pos (table_room blocksize) (offset + used) q (ground arith)
                (omega arith))
        ])

-- A table to start with: its extents are sound and hold each of a run of blocks once and no other
-- block, its room is what the block has, and its tag agrees with its bytes.
unfoldable pub Starts : ℕ → ℕ → ℕ → ℕ → UnallocSpaceEntry → Type 0
Starts alignment blocksize start blocks e =
    Sound alignment blocksize e.alloc_descs.ads
    × ((b : ℕ) → shares blocksize b e.alloc_descs.ads ≡ within start blocks b)
    × (length e.alloc_descs.ads + e.alloc_descs.room ≡ table_room blocksize)
    × Tagged e

-- The number of blocks of a table.
abbrev pub table_blocks : Bool → ℕ
table_blocks strategy4096 = if strategy4096 then 2 else 1

length-use_icb_tag : (strategy4096 : Bool) → length (use_icb_tag strategy4096) ≡ 20
unfolding use_icb_tag
length-use_icb_tag true = refl
length-use_icb_tag false = refl

table_length-blocks :
    (strategy4096 : Bool) (blocksize : ℕ)
    → blocksize ≤ 32768
    → table_length strategy4096 blocksize ≡ table_blocks strategy4096 * blocksize
table_length-blocks true blocksize h = omega arith
table_length-blocks false blocksize h = omega arith

table_blocks-few : (strategy4096 : Bool) → table_blocks strategy4096 ≤ 2
table_blocks-few true = omega arith
table_blocks-few false = omega arith

module _ (strategy4096 : Bool) (udf_rev alignment blocksize blocks offset : ℕ)
    (low : 48 ≤ blocksize) (high : blocksize ≤ 32768)
    (some_blocks : table_blocks strategy4096 ≤ blocks)
    (small : offset + blocks + alignment < 2 ^ 32)
    (room : (blocks - table_blocks strategy4096) * blocksize / longest blocksize + 1
      ≤ table_room blocksize) where
  abbrev used : ℕ
  used = table_blocks strategy4096

  module _ (ads : Ads)
      (tiles : Tiles blocksize (offset + used) (offset + used + (blocks - used)) ads.ads)
      (slots : length ads.ads + ads.room ≡ table_room blocksize) where
    abbrev entry : UnallocSpaceEntry
    entry = record { desc_tag = zero_tag; icb_tag = use_icb_tag strategy4096; alloc_descs = ads }

    abbrev item : Payload
    item = record { length = length (use_bytes entry); buffer = some (use_bytes entry) }

    tag_it :
        Returns
          (udf_query_tag udf_rev 0x0107 1 offset (item ∷ []) 0 (40 + 8 * length ads.ads) >>= λ t.
            ok (record entry { desc_tag = t }))
          (Starts alignment blocksize (offset + used) (blocks - used))
    unfolding Starts Tagged use_bytes
    tag_it =
        let size = length-use_bytes entry (length-use_icb_tag strategy4096) in
        let count : 40 + 8 * length ads.ads - 16 ≡ 24 + 8 * length ads.ads = omega arith in
        Returns->>= (udf_query_tag udf_rev 0x0107 1 offset (item ∷ []) 0 (40 + 8 * length ads.ads))
          _ _ _
          (udf_query_tag-Sealed udf_rev 0x0107 1 offset 0 (40 + 8 * length ads.ads) item []
            (unfold Whole bytes_in in (refl, omega arith, tt)) (omega arith) (omega arith)
            (omega arith))
          λ t tagged. (
            unfold Sound in
                (
                  Tiles-All alignment blocksize (offset + used) (offset + used + (blocks - used))
                      ads.ads tiles (omega arith),
                  Tiles-Ascends blocksize 0 (offset + used) (offset + used + (blocks - used))
                      ads.ads (omega arith) tiles,
                ),
            Tiles-shares blocksize (offset + used) (offset + used + (blocks - used)) ads.ads tiles,
            slots,
            (
              subst (λ k. Sealed t (take k (drop 16 (use_bytes entry)))) count
                  (unfold bytes_in in tagged.0),
              tagged.1,
            ),
          )

  -- `first_table` with blocks of 48 to 32768 bytes, for a partition that has at least the blocks of
  -- the table, where the offset, the blocks and the alignment stay in 32 bits together, and where the
  -- block has room for one more descriptor than the free bytes fill with extents of the largest
  -- length: it returns a table of whole and ascending extents that hold each block from the one
  -- behind the table on, as many as the partition has less those of the table, once and no other
  -- block, with all the room of the block, and a tag that agrees with its bytes.
  pub first_table-Starts :
      Returns
        (first_table strategy4096 udf_rev blocksize blocks offset)
        (Starts alignment blocksize (offset + used) (blocks - used))
  unfolding first_table
  first_table-Starts =
      let len = table_length-blocks strategy4096 blocksize high in
      let whole : used + (blocks - used) ≡ blocks = omega arith in
      let parts : (used + (blocks - used)) * blocksize
          ≡ used * blocksize + (blocks - used) * blocksize =
        add-mul used (blocks - used) blocksize in
      let scaled = ap (λ (t : ℕ). t * blocksize) whole in
      let few = table_blocks-few strategy4096 in
      let bounded = mul-le-mul_left (2 ^ 32) high in
      let bounded' = mul-le-mul_right blocksize (let h : blocks ≤ 2 ^ 32 = omega arith in h) in
      let rem : u64 (blocks * blocksize + (2 ^ 64 - used * blocksize))
          ≡ (blocks - used) * blocksize =
        omega arith in
      rw (len, rem)
        (Returns->>=
          (first_extents blocksize offset (used * blocksize) ((blocks - used) * blocksize)) _ _ _
          (first_extents-Tiles blocksize low high offset used (blocks - used) few (omega arith)
            room)
          λ a h. tag_it a h.0 h.1)

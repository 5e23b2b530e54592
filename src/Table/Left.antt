-- ===== src/Table/Left.antt =====
-- The four ways to take blocks of an extent of a space table.
use udftools.Base.{
  ℕ, suc, ◌+◌, ◌-◌, ◌*◌, ◌^◌, ◌≤◌, ◌<◌, ◌≡◌, sym, ap, subst, ◌∙◌, arith, bit_or, List, [], ◌∷◌, ltb,
  leb, ◌==◌, ◌&&◌, if◌then◌else◌, reverse_onto, length, length-reverse_onto, All, add32, sub32, u32,
  false, inl, inr, Bool-cases, Returns,
}
use udftools.Table.{ShortAd, Slot, Ads, shorter, take_blocks, ext_not_recorded_allocated}
use udftools.Table.Shares.{count, share, shares, shares-reverse_onto, ExtentOk, Ascends}
use udftools.Table.Found.{Found}
use udftools.Table.Taken.{replace-All, replace-Ascends, lower-Ascends, shorter-count, fresh-count}

-- The extents of a table are whole blocks and ascend.
unfoldable pub Sound : ℕ → ℕ → List ShortAd → Type 0
Sound alignment blocksize l = All (ExtentOk blocksize alignment) l × Ascends blocksize 0 l

-- A block of a run.
abbrev pub within : ℕ → ℕ → ℕ → ℕ
within start blocks b = if leb start b && ltb b (start + blocks) then 1 else 0

-- What is left when a run is taken: the run was free, its blocks are taken, and all others are in
-- the table as often as before.
unfoldable pub Left : ℕ → ℕ → ℕ → ℕ → Ads → Ads → Type 0
Left alignment blocksize start blocks before after =
    Sound alignment blocksize after.ads
    × ((b : ℕ)
        → shares blocksize b before.ads ≡ shares blocksize b after.ads + within start blocks b)
    × (length after.ads + after.room ≡ length before.ads + before.room)

suffix-All : (P : ShortAd → Type 0) (p l : List ShortAd) → All P (reverse_onto p l) → All P l
suffix-All P [] l h = h
suffix-All P (e ∷ p) l h = (suffix-All P p (e ∷ l) h).1

module _ (alignment blocksize blocks : ℕ) (pos : 0 < blocksize) (some_blocks : 0 < blocks)
    (whole : List ShortAd) (s : Slot) (found : Found alignment blocksize blocks whole s)
    (sound : Sound alignment blocksize whole) (room : ℕ) where
  -- Extents that stand in the place of the one that was found.
  Left-replaced :
      (m : List ShortAd) (room' : ℕ)
      → (ExtentOk blocksize alignment s.at
          → All (ExtentOk blocksize alignment) s.after
          → All (ExtentOk blocksize alignment) m)
      → ((b : ℕ)
          → b ≤ s.at.ext_position
          → Ascends blocksize (s.at.ext_position + count blocksize s.at) s.after
          → Ascends blocksize b m)
      → ((b : ℕ)
          → share blocksize b s.at + shares blocksize b s.after
            ≡ shares blocksize b m + within s.start blocks b)
      → length m + room' ≡ suc (length s.after) + room
      → Left alignment blocksize s.start blocks
          (record { ads = whole; room = room })
          (record { ads = reverse_onto s.passed m; room = room' })
  unfolding Left Sound
  Left-replaced m room' valid ascends same slots =
      let sound' = subst (Sound alignment blocksize) (sym found.list) sound in
      (
        (
          replace-All (ExtentOk blocksize alignment) s.passed s.at s.after m sound'.0 valid,
          replace-Ascends blocksize 0 s.passed s.at s.after m sound'.1 ascends,
        ),
        λ b.
            ap (shares blocksize b) (sym found.list)
            ∙ shares-reverse_onto blocksize b s.passed (s.at ∷ s.after)
            ∙ unfold shares in omega (arith, same b, shares-reverse_onto blocksize b s.passed m),
        omega (
          arith,
          ap length (sym found.list),
          length-reverse_onto s.passed (s.at ∷ s.after),
          length-reverse_onto s.passed m,
        ),
      )

  at_valid : ExtentOk blocksize alignment s.at
  unfolding Sound
  at_valid =
      (suffix-All (ExtentOk blocksize alignment) s.passed (s.at ∷ s.after)
        (subst (All (ExtentOk blocksize alignment)) (sym found.list) sound.0)).0

  -- Where the run is the whole extent, starts it, ends it, or stands inside it: with room for one
  -- more descriptor, `take_blocks` leaves exactly the other blocks.
  pub take_blocks-Left :
      0 < room
      → Returns
          (take_blocks blocksize blocks s room)
          (Left alignment blocksize s.start blocks (record { ads = whole; room = room }))
  unfolding take_blocks
  take_blocks-Left some_room =
      let d = s.at in
      let n = count blocksize d in
      let valid = at_valid in
      let limit : d.ext_position + n + alignment < 2 ^ 32 = unfold ExtentOk in valid.2 in
      let low = found.low in
      let high = found.high in
      let end_of = found.end_of in
      let sum : add32 s.start blocks ≡ s.start + blocks = omega arith in
      let no_room : (room == 0) ≡ false = ground arith in
      let less = shorter-count alignment blocksize pos d valid blocks (omega arith) in
      let front =
        fresh-count alignment blocksize pos d valid (s.start - d.ext_position) (omega arith) in
      let back =
        fresh-count alignment blocksize pos d valid (s.end - s.start - blocks) (omega arith) in
      let before : sub32 s.start d.ext_position ≡ s.start - d.ext_position = omega arith in
      let behind : sub32 (sub32 s.end s.start) blocks ≡ s.end - s.start - blocks = omega arith in
      rw sum (elim (Bool-cases (s.start == d.ext_position)) [
        | inl starts ↦ elim (Bool-cases (s.start + blocks == s.end)) [
          | inl ends ↦
              rw (starts, ends)
                (Left-replaced s.after (suc room) (λ v rest. rest)
                  (λ b h rest.
                    lower-Ascends blocksize b (d.ext_position + n) s.after (omega arith) rest)
                  (λ b. unfold share in ground arith) (omega arith))
          | inr inside ↦
              rw (starts, inside)
                (Left-replaced
                  ((record {
                    ext_length = shorter d blocks blocksize;
                    ext_position = s.start + blocks;
                  })
                    ∷ s.after)
                  room
                  (λ v rest. ((unfold ExtentOk in (less.0, less.2, ground (arith, less.1))), rest))
                  (λ b h rest.
                    unfold Ascends in
                    (
                      omega arith,
                      lower-Ascends blocksize _ (d.ext_position + n) s.after
                          (ground (arith, less.1)) rest,
                    ))
                  (λ b. unfold shares share in rw less.1 (ground arith)) (omega arith))
        ]
        | inr later ↦ elim (Bool-cases (s.start + blocks == s.end)) [
          | inl ends ↦
              rw (later, ends)
                (Left-replaced ((record d { ext_length = shorter d blocks blocksize }) ∷ s.after)
                  room
                  (λ v rest. ((unfold ExtentOk in (less.0, less.2, ground (arith, less.1))), rest))
                  (λ b h rest.
                    unfold Ascends in
                    (
                      omega arith,
                      lower-Ascends blocksize _ (d.ext_position + n) s.after
                          (ground (arith, less.1)) rest,
                    ))
                  (λ b. unfold shares share in rw less.1 (ground arith)) (omega arith))
          | inr inside ↦
              rw (later, inside, no_room, before, behind)
                (Left-replaced
                  ((record d {
                    ext_length =
                        bit_or ext_not_recorded_allocated
                          (u32 ((s.start - d.ext_position) * blocksize));
                  })
                    ∷ (record {
                      ext_length =
                          bit_or ext_not_recorded_allocated
                            (u32 ((s.end - s.start - blocks) * blocksize));
                      ext_position = s.start + blocks;
                    })
                    ∷ s.after)
                  (room - 1)
                  (λ v rest. (
                    (unfold ExtentOk in (front.0, front.2, ground (arith, front.1))),
                    ((unfold ExtentOk in (back.0, back.2, ground (arith, back.1))), rest),
                  ))
                  (λ b h rest.
                    unfold Ascends in
                    (
                      omega arith,
                      (
                        ground (arith, front.1),
                        lower-Ascends blocksize _ (d.ext_position + n) s.after
                            (ground (arith, back.1)) rest,
                      ),
                    ))
                  (λ b. unfold shares share in rw (front.1, back.1) (ground arith)) (omega arith))
        ]
      ])

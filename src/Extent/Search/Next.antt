-- ===== src/Extent/Search/Next.antt =====
-- `find_next_extent_size` finds the first block that is aligned and has room behind it.
use native.Mathlib.Decide.{dec_lt, ℕ_discrete}
use udftools.Base.{
  ℕ, zero, suc, ◌+◌, ◌-◌, ◌%◌, ◌^◌, ◌≤◌, ◌<◌, ◌≡◌, refl, sym, ◌∙◌, subst, inl, inr, true, some,
  List, [], ◌∷◌, arith, ltb, reverse_onto, Run, Returns, Bool-cases, Returns->>=, Returns_mono,
  length-reverse_onto, length,
}
use udftools.Extent.{
  Extent, Cursor, unzip, cursor, has_type, next_from, next_extent, find_extent, next_size_loop,
  find_next_extent_size,
}
use mathlib.Core.Bool.{false≢true}
use udftools.Base.Multiples.{round_up, round_up-mod, round_up-least}
use udftools.Extent.Tiling.{Tiles, TilesBack, Tiles-le}
use udftools.Extent.Find.{Holds, find_extent-Holds}
use udftools.Extent.Search.{Room, First, First-skip, First-hit, Returns-First-skip}
use udftools.Extent.Search.Round.{
  Reaches, Reaches-tail, step, rest, step-behind, step-unaligned, step-aligned, step-little,
}

module _ (start type blocks offset t : ℕ) (pos : 0 < offset) (wide : offset ≤ blocks)
    (aligned : start % offset ≡ 0) (small : t < 2 ^ 32) where
  module _ (fuel : ℕ) (b : List Extent) (e : Extent) (r : List Extent)
      (fits : blocks ≤ e.blocks) where
    abbrev here : Run ℕ
    here = step start type blocks offset t pos wide small fuel b e r fits

    abbrev further : Run ℕ
    further = rest start type blocks offset t pos wide small fuel b e r fits

    abbrev Done : List Extent → Run ℕ → Type 0
    Done l run = Returns run (First type blocks offset start l)

    step-First :
        has_type e type ≡ true
        → start < e.start + e.blocks
        → Tiles (e.start + e.blocks) r t
        → Done r further
        → Done (e ∷ r) here
    step-First typed reach ahead next =
        let bound = Tiles-le (e.start + e.blocks) t r ahead in
        let hit = First-hit start type blocks offset t e r in
        let skip = Returns-First-skip start type blocks offset t e r further in
        elim (dec_lt e.start start) [
          | yes p ↦
              rw
                (step-behind start type blocks offset t pos wide small fuel b e r fits p reach
                  bound)
                (elim (Bool-cases (ltb (e.start + e.blocks - start) blocks)) [
                  | inl short ↦ rw short (skip (λ y q m typed low room. ground arith) next)
                  | inr enough ↦
                      rw enough
                        (hit start ahead typed (ground arith) (omega arith) (λ y q m low. q))
                ])
          | no p ↦ elim (ℕ_discrete (e.start % offset) 0) [
            | yes m ↦
                rw
                  (step-aligned start type blocks offset t pos wide small fuel b e r fits
                    (omega arith) m bound)
                  (hit e.start ahead typed (omega arith) (omega arith) (λ y q m low. low))
            | no m ↦
                rw
                  (step-unaligned start type blocks offset t pos wide small fuel b e r fits
                    (omega arith) m bound)
                  (elim (Bool-cases (ltb (e.start + e.blocks) (round_up e.start offset + blocks))) [
                    | inl short ↦ rw short (
                        skip
                          (λ y q n typed low room.
                            ground (arith, round_up-least e.start offset y pos n low m))
                          next)
                    | inr enough ↦ rw enough (
                        hit (round_up e.start offset) ahead typed (ground arith)
                          (omega arith, round_up-mod e.start offset pos)
                          (λ y q n low. round_up-least e.start offset y pos n low m))
                  ])
          ]
        ]

  -- A round of the loop at an extent of the type.
  reached :
      (fuel : ℕ) (b : List Extent) (e : Extent) (r : List Extent)
      → has_type e type ≡ true
      → start < e.start + e.blocks
      → Tiles (e.start + e.blocks) r t
      → Returns
          (next_size_loop fuel start type blocks offset (next_from type (e ∷ b) r))
          (First type blocks offset start r)
      → Returns
          (next_size_loop (suc fuel) start type blocks offset (some (cursor b e r)))
          (First type blocks offset start (e ∷ r))
  reached fuel b e r typed reach ahead next = elim (Bool-cases (ltb e.blocks blocks)) [
    | inl little ↦
        rw (step-little start type blocks offset t pos wide small fuel b e r (ground arith)) (
          Returns-First-skip start type blocks offset t e r _ (λ y p q typed low room. ground arith)
            next)
    | inr fits ↦ step-First fuel b e r (ground arith) typed reach ahead next
  ]

  -- From an extent on that ends behind `start`, the loop returns the first candidate.
  next_size_loop-First :
      (fuel m : ℕ) (b r : List Extent)
      → length r < fuel
      → Tiles m r t
      → Reaches start r
      → Returns
          (next_size_loop fuel start type blocks offset (next_from type b r))
          (First type blocks offset start r)
  unfolding next_from
  next_size_loop-First zero m b r enough tiles reach = absurd (omega arith)
  next_size_loop-First (suc fuel) m b [] enough tiles reach =
      unfold next_size_loop First Room in inr (refl, λ x c. c.2)
  next_size_loop-First (suc fuel) m b (e ∷ r) enough tiles reach =
      elim (Bool-cases (has_type e type)) [
        | inl typed ↦ rw typed (
            reached fuel b e r typed reach tiles.1 (
              next_size_loop-First fuel (e.start + e.blocks) (e ∷ b) r (omega arith) tiles.1
                (Reaches-tail start t e r tiles.1 reach)))
        | inr other ↦ rw other (
            Returns-First-skip start type blocks offset t e r _
              (λ y p q typed low room. false≢true (sym other ∙ typed))
              (next_size_loop-First (suc fuel) (e.start + e.blocks) (e ∷ b) r (omega arith) tiles.1
                (Reaches-tail start t e r tiles.1 reach)))
      ]

-- What lies before the extent that holds `start` has no room from `start` on.
First-reverse_onto :
    (start type blocks offset s m x : ℕ) (b r : List Extent)
    → 0 < blocks
    → TilesBack s b m
    → m ≤ start
    → First type blocks offset start r x
    → First type blocks offset start (reverse_onto b r) x
First-reverse_onto start type blocks offset s m x [] r some_blocks back low first = first
First-reverse_onto start type blocks offset s m x (e ∷ b) r some_blocks back low first =
    First-reverse_onto start type blocks offset s e.start x b (e ∷ r) some_blocks back.1
      (omega arith)
      (First-skip start type blocks offset 0 e r x (λ y p q typed inside room. omega arith) first)

-- In a list that tiles from `s` to `t`, from an aligned block of it and with an alignment between 1
-- and the number of blocks wanted, the search returns. Its result is the first aligned block from
-- there on at which that many blocks of one extent of the type begin; it is 0 if there is none.
pub find_next_extent_size-First :
    (exts : List Extent) (start type blocks offset s t : ℕ)
    → Tiles s exts t
    → t < 2 ^ 32
    → s ≤ start
    → start < t
    → 0 < offset
    → offset ≤ blocks
    → start % offset ≡ 0
    → Returns
        (find_next_extent_size exts start type blocks offset)
        (First type blocks offset start exts)
unfolding find_next_extent_size
find_next_extent_size-First exts start type blocks offset s t tiles small low high pos wide
      aligned =
    Returns->>= (find_extent exts start) _ (Holds s t start exts)
      (First type blocks offset start exts) (find_extent-Holds exts start s t tiles low high small)
      λ c h.
        subst
          (λ l.
            Returns
              (next_size_loop (suc (length l)) start type blocks offset (next_extent (some c) type))
              (First type blocks offset start l))
          h.whole (from_cursor c h.behind h.from h.below h.ahead)
  where
    from_cursor :
        (c : Cursor)
        → TilesBack s c.before c.at.start
        → c.at.start ≤ start
        → start < c.at.start + c.at.blocks
        → Tiles (c.at.start + c.at.blocks) c.after t
        → Returns
            (next_size_loop
              (suc (length (unzip c)))
              start
              type
              blocks
              offset
              (next_extent (some c) type))
            (First type blocks offset start (unzip c))
    from_cursor c back from below ahead =
        Returns_mono _ (First type blocks offset start (c.at ∷ c.after))
          (First type blocks offset start (unzip c))
          (unfold next_extent in
            next_size_loop-First start type blocks offset t pos wide aligned small
              (suc (length (unzip c))) c.at.start c.before (c.at ∷ c.after)
              (omega (arith, length-reverse_onto c.before (c.at ∷ c.after))) (refl, ahead) below)
          λ x first.
            First-reverse_onto start type blocks offset s c.at.start x c.before (c.at ∷ c.after)
              (omega arith) back from first

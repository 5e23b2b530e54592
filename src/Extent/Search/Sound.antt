-- ===== src/Extent/Search/Sound.antt =====
-- Whatever the start of the search, `find_next_extent_size` returns a block with room behind it.
use native.Mathlib.Decide.{dec_lt, ℕ_discrete}
use udftools.Base.{
  ℕ, zero, suc, ◌+◌, ◌-◌, ◌%◌, ◌^◌, ◌≤◌, ◌<◌, ◌≡◌, refl, ◌⊎◌, subst, inl, inr, true, some, List, [],
  ◌∷◌, arith, ltb, reverse_onto, Run, Returns, Bool-cases, Returns->>=, Returns_mono,
  length-reverse_onto, length,
}
use udftools.Extent.{
  Extent, Cursor, unzip, cursor, has_type, next_from, next_extent, find_extent, next_size_loop,
  find_next_extent_size,
}
use udftools.Base.Multiples.{round_up}
use udftools.Extent.Tiling.{Tiles, Tiles-le}
use udftools.Extent.Find.{Holds, find_extent-Holds}
use udftools.Extent.Search.{Room}
use udftools.Extent.Search.Round.{
  Reaches, Reaches-tail, step-behind, step-unaligned, step-aligned, step-little,
}

-- 0, or a block from which on one extent of the type has room.
abbrev pub Found : ℕ → ℕ → List Extent → ℕ → Type 0
Found type blocks exts x = (x ≡ 0) ⊎ Room type blocks x exts

Room-cons :
    (type blocks x : ℕ) (e : Extent) (r : List Extent)
    → Room type blocks x r
    → Room type blocks x (e ∷ r)
unfolding Room
Room-cons type blocks x e r room = inr room

Found-cons :
    (type blocks : ℕ) (e : Extent) (r : List Extent) (run : Run ℕ)
    → Returns run (Found type blocks r)
    → Returns run (Found type blocks (e ∷ r))
Found-cons type blocks e r run h =
    Returns_mono run (Found type blocks r) (Found type blocks (e ∷ r)) h go
  where
    go : (x : ℕ) → Found type blocks r x → Found type blocks (e ∷ r) x
    go x (inl z) = inl z
    go x (inr room) = inr (Room-cons type blocks x e r room)

module _ (start type blocks offset t : ℕ) (pos : 0 < offset) (wide : offset ≤ blocks)
    (small : t < 2 ^ 32) where
  hit :
      (e : Extent) (r : List Extent) (x : ℕ)
      → has_type e type ≡ true
      → (e.start ≤ x) × (x + blocks ≤ e.start + e.blocks)
      → Found type blocks (e ∷ r) x
  unfolding Room
  hit e r x typed inside = inr (inl (typed, inside.0, inside.1))

  round-Found :
      (fuel : ℕ) (b : List Extent) (e : Extent) (r : List Extent)
      → has_type e type ≡ true
      → start < e.start + e.blocks
      → Tiles (e.start + e.blocks) r t
      → Returns
          (next_size_loop fuel start type blocks offset (next_from type (e ∷ b) r))
          (Found type blocks r)
      → Returns
          (next_size_loop (suc fuel) start type blocks offset (some (cursor b e r)))
          (Found type blocks (e ∷ r))
  round-Found fuel b e r typed reach ahead next =
      let bound = Tiles-le (e.start + e.blocks) t r ahead in
      let pass = Found-cons type blocks e r _ next in
      elim (dec_lt e.blocks blocks) [
        | yes little ↦
            rw (step-little start type blocks offset t pos wide small fuel b e r little) pass
        | no much ↦
            let fits : blocks ≤ e.blocks = omega arith in
            elim (dec_lt e.start start) [
              | yes p ↦
                  rw
                    (step-behind start type blocks offset t pos wide small fuel b e r fits p reach
                      bound)
                    (elim (Bool-cases (ltb (e.start + e.blocks - start) blocks)) [
                      | inl short ↦ rw short pass
                      | inr enough ↦ rw enough (hit e r start typed (ground arith))
                    ])
              | no p ↦ elim (ℕ_discrete (e.start % offset) 0) [
                | yes m ↦
                    rw
                      (step-aligned start type blocks offset t pos wide small fuel b e r fits
                        (omega arith) m bound)
                      (hit e r e.start typed (omega arith))
                | no m ↦
                    rw
                      (step-unaligned start type blocks offset t pos wide small fuel b e r fits
                        (omega arith) m bound)
                      (elim (Bool-cases
                        (ltb (e.start + e.blocks) (round_up e.start offset + blocks))) [
                          | inl short ↦ rw short pass
                          | inr enough ↦
                              rw enough (hit e r (round_up e.start offset) typed (ground arith))
                        ])
              ]
            ]
      ]

  loop-Found :
      (fuel m : ℕ) (b r : List Extent)
      → length r < fuel
      → Tiles m r t
      → Reaches start r
      → Returns
          (next_size_loop fuel start type blocks offset (next_from type b r))
          (Found type blocks r)
  unfolding next_from
  loop-Found zero m b r enough tiles reach = absurd (omega arith)
  loop-Found (suc fuel) m b [] enough tiles reach = unfold next_size_loop in inl refl
  loop-Found (suc fuel) m b (e ∷ r) enough tiles reach = elim (Bool-cases (has_type e type)) [
    | inl typed ↦ rw typed (
        round-Found fuel b e r typed reach tiles.1 (
          loop-Found fuel (e.start + e.blocks) (e ∷ b) r (omega arith) tiles.1
            (Reaches-tail start t e r tiles.1 reach)))
    | inr other ↦ rw other (
        Found-cons type blocks e r _ (
          loop-Found (suc fuel) (e.start + e.blocks) (e ∷ b) r (omega arith) tiles.1
            (Reaches-tail start t e r tiles.1 reach)))
  ]

pub Room-reverse_onto :
    (type blocks x : ℕ) (b r : List Extent)
    → Room type blocks x r
    → Room type blocks x (reverse_onto b r)
Room-reverse_onto type blocks x [] r room = room
Room-reverse_onto type blocks x (e ∷ b) r room =
    Room-reverse_onto type blocks x b (e ∷ r) (Room-cons type blocks x e r room)

-- With an alignment between 1 and the number of blocks wanted, the search from a block of a list that
-- tiles from `s` to `t` returns, and what it returns is 0 or a block from which on that many blocks
-- lie in one extent of the type.
pub find_next_extent_size-Found :
    (exts : List Extent) (start type blocks offset s t : ℕ)
    → Tiles s exts t
    → t < 2 ^ 32
    → s ≤ start
    → start < t
    → 0 < offset
    → offset ≤ blocks
    → Returns (find_next_extent_size exts start type blocks offset) (Found type blocks exts)
unfolding find_next_extent_size
find_next_extent_size-Found exts start type blocks offset s t tiles small low high pos wide =
    Returns->>= (find_extent exts start) _ (Holds s t start exts) (Found type blocks exts)
      (find_extent-Holds exts start s t tiles low high small)
      λ c h.
        subst
          (λ l.
            Returns
              (next_size_loop (suc (length l)) start type blocks offset (next_extent (some c) type))
              (Found type blocks l))
          h.whole (from_cursor c h.below h.ahead)
  where
    widen :
        (c : Cursor) (x : ℕ) → Found type blocks (c.at ∷ c.after) x → Found type blocks (unzip c) x
    widen c x (inl z) = inl z
    widen c x (inr room) = inr (Room-reverse_onto type blocks x c.before (c.at ∷ c.after) room)

    from_cursor :
        (c : Cursor)
        → start < c.at.start + c.at.blocks
        → Tiles (c.at.start + c.at.blocks) c.after t
        → Returns
            (next_size_loop
              (suc (length (unzip c)))
              start
              type
              blocks
              offset
              (next_extent (some c) type))
            (Found type blocks (unzip c))
    from_cursor c below ahead =
        Returns_mono _ (Found type blocks (c.at ∷ c.after)) (Found type blocks (unzip c))
          (unfold next_extent in
            loop-Found start type blocks offset t pos wide small (suc (length (unzip c))) c.at.start
              c.before (c.at ∷ c.after)
              (omega (arith, length-reverse_onto c.before (c.at ∷ c.after))) (refl, ahead) below)
          (widen c)

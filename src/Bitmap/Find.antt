-- ===== src/Bitmap/Find.antt =====
-- Lemmas on the positions that the searches return, the test of a bit, and the alignment.
use native.Mathlib.Nat.{pow-suc, div-add-mod, mod-lt, mul-mod_right, mul-le-mul_left}
use native.Mathlib.Decide.{dec_le}
use udftools.Base.{
  ℕ, zero, suc, ◌+◌, ◌-◌, ◌*◌, ◌/◌, ◌%◌, ◌^◌, ◌≤◌, ◌<◌, ◌≡◌, ◌≢◌, refl, sym, ap, ◌∙◌, arith,
  bit_and, List, [], ◌∷◌, ◌++◌, length, take, drop, ◌==◌, leb, get_or, get_elem?, some, ok, sub32,
  add32, length-take, length-drop, true, false, ◌⊎◌, inl, inr, Bool-cases,
}
use udftools.Base.Bits.{bit_and_step, bit_and_mask}
use udftools.Bitmap.Alloc.{align_up}
use udftools.Bitmap.Digits.{bits, bits_of, first_one, first_zero}
use udftools.Bitmap.Search.{next_one, next_zero, first_zero-le}

first_one-le : (l : List ℕ) → first_one l ≤ length l
unfolding first_one
first_one-le [] = omega arith
first_one-le (d ∷ l) = ground (arith, first_one-le l)

first_one-clear : (l : List ℕ) (j : ℕ) → j < first_one l → get_or l j 0 ≡ 0
unfolding first_one
first_one-clear [] j h = absurd (omega arith)
first_one-clear (d ∷ l) zero h = ground arith
first_one-clear (d ∷ l) (suc j) h = ground (arith, first_one-clear l j)

get_or-drop : (o j : ℕ) (l : List ℕ) → get_or (drop o l) j 0 ≡ get_or l (o + j) 0
get_or-drop zero j l = ap (λ k. get_or l k 0) (let e : j ≡ 0 + j = omega arith in e)
get_or-drop (suc o) j [] = refl
get_or-drop (suc o) j (x ∷ l) =
    get_or-drop o j l
    ∙ ap (λ k. get_or (x ∷ l) k 0) (let e : suc (o + j) ≡ suc o + j = omega arith in e)

get_or-take : (n j : ℕ) (l : List ℕ) → j < n → get_or (take n l) j 0 ≡ get_or l j 0
get_or-take zero j l h = absurd (omega arith)
get_or-take (suc n) j [] h = refl
get_or-take (suc n) zero (x ∷ l) h = refl
get_or-take (suc n) (suc j) (x ∷ l) h = get_or-take n j l (omega arith)

-- Where the bit at the offset is clear, the next set bit lies behind it, with clear bits between.
pub next_one-behind :
    (l : List ℕ) (size offset : ℕ)
    → size ≤ length l
    → offset < size
    → get_or l offset 0 ≡ 0
    → (offset < next_one l size offset)
      × (next_one l size offset ≤ size)
      × ((j : ℕ) → offset ≤ j → j < next_one l size offset → get_or l j 0 ≡ 0)
unfolding next_one
next_one-behind l size offset inside before clear =
    let m = drop offset (take size l) in
    let inner : leb size offset ≡ false = ground arith in
    let long = length-take size l inside in
    let cut = length-drop {0} offset (take size l) in
    let head : get_or m 0 0 ≡ 0 =
      get_or-drop offset 0 (take size l)
      ∙ ap (λ k. get_or (take size l) k 0) (let e : offset + 0 ≡ offset = omega arith in e)
      ∙ get_or-take size offset l before
      ∙ clear in
    let between : (j : ℕ) → offset ≤ j → j < offset + first_one m → get_or l j 0 ≡ 0 = λ j low high.
      let full = first_one-le m in
      sym (
        get_or-drop offset (j - offset) (take size l)
        ∙ ap (λ k. get_or (take size l) k 0) (let e : offset + (j - offset) ≡ j = omega arith in e)
        ∙ get_or-take size j l (omega arith))
      ∙ first_one-clear m (j - offset) (omega arith) in
    rw inner
      (omega (arith, starts_clear m head (omega arith)), omega (arith, first_one-le m), between)
  where
    starts_clear : (m : List ℕ) → get_or m 0 0 ≡ 0 → 0 < length m → 0 < first_one m
    starts_clear [] e h = absurd (omega arith)
    starts_clear (d ∷ m) e h = unfold first_one in ground (arith, e)

-- Where the bit at the offset is set, the clear bit that is searched from the next word on lies
-- behind it.
pub next_zero-behind :
    (l : List ℕ) (size offset : ℕ)
    → size ≤ length l
    → offset < size
    → get_or l offset 0 ≢ 0
    → let end = next_zero l size ((offset + 31) / 32 * 32) in (offset < end) × (end ≤ size)
unfolding next_zero
next_zero-behind l size offset inside before set =
    let up = (offset + 31) / 32 * 32 in
    let m = drop up (take size l) in
    let long = length-take size l inside in
    let cut = length-drop {0} up (take size l) in
    let bound = first_zero-le m in
    elim (dec_le size up) [
      | yes past ↦ let e : leb size up ≡ true = ground arith in rw e (before, omega arith)
      | no inner ↦
          let e : leb size up ≡ false = ground arith in
          rw e (elim (dec_le up offset) [
            | yes aligned ↦
                let same : up ≡ offset = omega arith in
                let head : get_or m 0 0 ≢ 0 = λ z. set (
                  sym (
                    get_or-drop up 0 (take size l)
                    ∙ ap (λ k. get_or (take size l) k 0)
                        (let e : up + 0 ≡ offset = omega arith in e)
                    ∙ get_or-take size offset l before)
                  ∙ z) in
                (omega (arith, starts_set m head), omega arith)
            | no word ↦ (omega arith, omega arith)
          ])
    ]
  where
    starts_set : (m : List ℕ) → get_or m 0 0 ≢ 0 → 0 < first_zero m
    starts_set [] h = absurd (h refl)
    starts_set (d ∷ m) h = unfold first_zero in ground (arith, h)

pub next_zero-late :
    (l : List ℕ) (size offset : ℕ)
    → (size ≤ next_zero l size offset) ⊎ (offset ≤ next_zero l size offset)
unfolding next_zero
next_zero-late l size offset = elim (Bool-cases (leb size offset)) [
  | inl past ↦ rw past (inl (omega arith))
  | inr inner ↦ rw inner (inr (omega arith))
]

bit_and-digit : (n k t : ℕ) → k < n → bit_and t (2 ^ k) ≡ get_or (bits n t) k 0 * 2 ^ k
unfolding bits
bit_and-digit zero k t h = absurd (omega arith)
bit_and-digit (suc n) zero t h = bit_and_mask 1 t ∙ omega arith
bit_and-digit (suc n) (suc k) t h =
    let p = pow-suc 2 k in
    let step = bit_and_step t (2 ^ suc k) in
    let half : 2 ^ suc k / 2 ≡ 2 ^ k = omega arith in
    let high : bit_and (t / 2) (2 ^ suc k / 2) ≡ get_or (bits n (t / 2)) k 0 * 2 ^ k =
      ap (bit_and (t / 2)) half ∙ bit_and-digit n k (t / 2) (omega arith) in
    let scaled : get_or (bits n (t / 2)) k 0 * 2 ^ suc k
        ≡ 2 * (get_or (bits n (t / 2)) k 0 * 2 ^ k) =
      omega (arith, ap (λ (x : ℕ). get_or (bits n (t / 2)) k 0 * x) p) in
    ground arith

get_or-append : (l m : List ℕ) (j : ℕ) → j < length l → get_or (l ++ m) j 0 ≡ get_or l j 0
get_or-append [] m j h = absurd (omega arith)
get_or-append (x ∷ l) m zero h = refl
get_or-append (x ∷ l) m (suc j) h = get_or-append l m j (omega arith)

-- The test of one bit reads the bit of the bitmap.
pub bit_test :
    (l : List ℕ) (i k : ℕ)
    → i < length l
    → k < 8
    → (b : ℕ) × (get_elem? l i ≡ some b)
      × (bit_and b (2 ^ k) ≡ get_or (bits_of l) (8 * i + k) 0 * 2 ^ k)
unfolding bits_of
bit_test [] i k there low = absurd (omega arith)
bit_test (b ∷ l) zero k there low = (
  b,
  refl,
  bit_and-digit 8 k b low
      ∙ ap (λ (x : ℕ). x * 2 ^ k)
          (sym (get_or-append (bits 8 b) (bits_of l) k low)
            ∙ ap (λ j. get_or (bits 8 b ++ bits_of l) j 0)
                (let e : k ≡ 8 * 0 + k = omega arith in e)),
)
bit_test (b ∷ l) (suc i) k there low =
    let e : 8 * suc i + k ≡ suc (suc (suc (suc (suc (suc (suc (suc (8 * i + k)))))))) =
      omega arith in
    rw e (unfold bits in bit_test l i k (omega arith) low)

-- The alignment of a block is the least multiple from it on.
pub align_up-least :
    (start alignment : ℕ)
    → 0 < alignment
    → start + alignment < 2 ^ 32
    → (r : ℕ) × (align_up start alignment ≡ ok r)
      × (start ≤ r)
      × (r < start + alignment)
      × (r % alignment ≡ 0)
      × ((j : ℕ) → start ≤ j → j % alignment ≡ 0 → r ≤ j)
unfolding align_up
align_up-least start alignment pos fits =
    let x = start + alignment - 1 in
    let q = x / alignment in
    let divides : (alignment == 0) ≡ false = ground arith in
    let sum : sub32 (add32 start alignment) 1 ≡ x = omega arith in
    let whole = div-add-mod x alignment in
    let turn : q * alignment ≡ alignment * q = grind arith in
    let low = mod-lt x pos in
    let least : (j : ℕ) → start ≤ j → j % alignment ≡ 0 → q * alignment ≤ j = λ j from aligned.
      let part = div-add-mod j alignment in
      elim (dec_le q (j / alignment)) [
        | yes le ↦ omega (arith, mul-le-mul_left alignment le)
        | no gt ↦ absurd (
            omega
              (arith, mul-le-mul_left alignment (let h : j / alignment + 1 ≤ q = omega arith in h)))
      ] in
    (
      q * alignment,
      rw (divides, sum) refl,
      omega arith,
      omega arith,
      ap (λ (t : ℕ). t % alignment) turn ∙ mul-mod_right alignment q,
      least,
    )

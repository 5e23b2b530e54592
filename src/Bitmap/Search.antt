-- ===== src/Bitmap/Search.antt =====
-- What the searches find, stated over the list of the bits, and lemmas on lists of bits.
use udftools.Base.{
  ℕ, zero, suc, ◌+◌, ◌*◌, ◌/◌, ◌%◌, ◌^◌, ◌≤◌, ◌<◌, ◌≡◌, refl, sym, ap, ◌∙◌, arith, List, [], ◌∷◌,
  ◌++◌, length, take, drop, replicate, number_of, All, leb, if◌then◌else◌, length-append,
  take-append_short, take-append-drop, length-take, ok, true,
}
use udftools.Bitmap.{part_word}
use udftools.Bitmap.Digits.{bits, bits_of, first_one, first_zero, length-bits}
use udftools.Bitmap.Masks.{Byte, bits-number_of, number_of-lt}

-- The first bit that is set among the first `size`, from a position on; else `size`.
unfoldable pub next_one : List ℕ → ℕ → ℕ → ℕ
unfolding first_one
next_one l size offset =
    if leb size offset then size else offset + first_one (drop offset (take size l))

-- The first bit that is clear.
unfoldable pub next_zero : List ℕ → ℕ → ℕ → ℕ
unfolding first_zero
next_zero l size offset =
    if leb size offset then size else offset + first_zero (drop offset (take size l))

pub first_one-append_found :
    (l m : List ℕ) → first_one l < length l → first_one (l ++ m) ≡ first_one l
unfolding first_one
first_one-append_found [] m h = absurd (omega arith)
first_one-append_found (d ∷ l) m h = ground (arith, first_one-append_found l m)

pub first_one-append_none :
    (l m : List ℕ) → first_one l ≡ length l → first_one (l ++ m) ≡ length l + first_one m
unfolding first_one
first_one-append_none [] m h = omega arith
first_one-append_none (d ∷ l) m h = ground (arith, first_one-append_none l m)

pub first_zero-append_found :
    (l m : List ℕ) → first_zero l < length l → first_zero (l ++ m) ≡ first_zero l
unfolding first_zero
first_zero-append_found [] m h = absurd (omega arith)
first_zero-append_found (d ∷ l) m h = ground (arith, first_zero-append_found l m)

pub first_zero-append_none :
    (l m : List ℕ) → first_zero l ≡ length l → first_zero (l ++ m) ≡ length l + first_zero m
unfolding first_zero
first_zero-append_none [] m h = omega arith
first_zero-append_none (d ∷ l) m h = ground (arith, first_zero-append_none l m)

pub first_zero-le : (l : List ℕ) → first_zero l ≤ length l
unfolding first_zero
first_zero-le [] = omega arith
first_zero-le (d ∷ l) = ground (arith, first_zero-le l)

pub first_one-masked : (o : ℕ) (l : List ℕ) → first_one (replicate o 0 ++ l) ≡ o + first_one l
unfolding first_one
first_one-masked zero l = omega arith
first_one-masked (suc o) l = omega (arith, first_one-masked o l)

pub take-masked :
    (o n : ℕ) (l : List ℕ)
    → o ≤ n
    → n ≤ length l
    → take n (replicate o 0 ++ drop o l) ≡ replicate o 0 ++ drop o (take n l)
take-masked zero n l h k = refl
take-masked (suc o) zero l h k = absurd (omega arith)
take-masked (suc o) (suc n) [] h k = absurd (omega arith)
take-masked (suc o) (suc n) (x ∷ l) h k =
    ap (λ t. 0 ∷ t) (take-masked o n l (omega arith) (omega arith))

-- Fewer digits of a number.
pub take-bits : (s m t : ℕ) → s ≤ m → take s (bits m t) ≡ bits s t
unfolding bits
take-bits zero m t h = refl
take-bits (suc s) zero t h = absurd (omega arith)
take-bits (suc s) (suc m) t h = ap (λ l. t % 2 ∷ l) (take-bits s m (t / 2) (omega arith))

pub length-bits_of : (l : List ℕ) → length (bits_of l) ≡ 8 * length l
unfolding bits_of
length-bits_of [] = refl
length-bits_of (b ∷ l) =
    omega (arith, length-append {0} (bits 8 b) (bits_of l), length-bits 8 b, length-bits_of l)

pub bits_of-append : (l m : List ℕ) → bits_of (l ++ m) ≡ bits_of l ++ bits_of m
unfolding bits_of bits
bits_of-append [] m = refl
bits_of-append (b ∷ l) m = ap (λ t. bits 8 b ++ t) (bits_of-append l m)

pub bits_of-drop : (k : ℕ) (l : List ℕ) → bits_of (drop k l) ≡ drop (8 * k) (bits_of l)
unfolding bits_of bits
bits_of-drop zero l = refl
bits_of-drop (suc k) [] = drop_nothing (8 * suc k)
  where
    drop_nothing : (m : ℕ) → ◌≡◌ {A = List ℕ} [] (drop m [])
    drop_nothing zero = refl
    drop_nothing (suc m) = refl
bits_of-drop (suc k) (b ∷ l) =
    let e : 8 * suc k ≡ suc (suc (suc (suc (suc (suc (suc (suc (8 * k)))))))) = omega arith in
    rw e (bits_of-drop k l)

pub All-take : (n : ℕ) (l : List ℕ) → All Byte l → All Byte (take n l)
All-take zero l h = tt
All-take (suc n) [] h = tt
All-take (suc n) (x ∷ l) h = (h.0, All-take n l h.1)

pub All-drop : (n : ℕ) (l : List ℕ) → All Byte l → All Byte (drop n l)
All-drop zero l h = h
All-drop (suc n) [] h = tt
All-drop (suc n) (x ∷ l) h = All-drop n l h.1

-- The part of a word that is read at the end holds the bits that are left.
pub part_word-bits :
    (p : List ℕ) (size : ℕ)
    → All Byte p
    → size ≤ 8 * length p
    → size < 32
    → (w : ℕ) × (part_word p size ≡ ok w)
      × (w < 2 ^ 32)
      × ((m : ℕ) → size ≤ m → take size (bits m w) ≡ take size (bits_of p))
unfolding part_word
part_word-bits p size small inside short =
    let n = (size + 7) / 8 in
    let w = number_of (take n p) in
    let there : leb n (length p) ≡ true = ground arith in
    let size' : length (take n p) ≡ n = length-take n p (omega arith) in
    let read : (m : ℕ) → size ≤ m → take size (bits m w) ≡ take size (bits_of p) = λ m h.
      take-bits size m w h
      ∙ sym (take-bits size (8 * length (take n p)) w (omega arith))
      ∙ ap (take size) (bits-number_of (take n p) (All-take n p small))
      ∙ sym (
          take-append_short size (bits_of (take n p)) (bits_of (drop n p))
            (omega (arith, length-bits_of (take n p))))
      ∙ ap (take size)
          (sym (bits_of-append (take n p) (drop n p)) ∙ ap bits_of (take-append-drop n p)) in
    (w, rw there refl, number_of-lt 4 (take n p) (All-take n p small) (omega arith), read)

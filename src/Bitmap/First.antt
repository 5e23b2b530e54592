-- ===== src/Bitmap/First.antt =====
-- The bitmap that mkudffs starts with: every block is free but those of the bitmap itself.
use native.Mathlib.Nat.{pow-suc, one-le-pow, div-le_self}
use udftools.Base.{
  ℕ, zero, suc, ◌+◌, ◌-◌, ◌*◌, ◌/◌, ◌%◌, ◌^◌, ◌≤◌, ◌<◌, ◌≡◌, refl, ap, ◌∙◌, arith, List, [], ◌∷◌,
  ◌++◌, length, replicate, All, ◌==◌, ==_iff, ltb, leb, ◌&&◌, if◌then◌else◌, get_or, u32, add32, ok,
  ◌>>>◌, true, false, inl, inr, Bool-cases, Returns, Returns->>=, length-replicate, length-append,
  holds_below, holds_below-at,
}
use udftools.Space.{divide}
use udftools.Bitmap.{clear_bits}
use udftools.Bitmap.Alloc.{full_bitmap, first_bitmap}
use udftools.Bitmap.Digits.{bits, bits_of, length-bits}
use udftools.Bitmap.Masks.{Byte}
use udftools.Bitmap.Search.{length-bits_of, bits_of-append}
use udftools.Bitmap.Clear.{clear_bits-range}

get_or-append_both :
    (l m : List ℕ) (j : ℕ)
    → get_or (l ++ m) j 0 ≡ (if ltb j (length l) then get_or l j 0 else get_or m (j - length l) 0)
get_or-append_both [] m j =
    let e : j - 0 ≡ j = omega arith in let f : ltb j 0 ≡ false = ground arith in rw (e, f) refl
get_or-append_both (x ∷ l) m zero = ground arith
get_or-append_both (x ∷ l) m (suc j) =
    let e : suc j - suc (length l) ≡ j - length l = omega arith in
    let f : ltb (suc j) (suc (length l)) ≡ ltb j (length l) = ground arith in
    rw (e, f) (get_or-append_both l m j)

get_or-ones : (n m j : ℕ) → m ≤ n → get_or (bits n (2 ^ m - 1)) j 0 ≡ (if ltb j m then 1 else 0)
unfolding bits
get_or-ones zero m j h = ground arith
get_or-ones (suc n) zero zero h = ground arith
get_or-ones (suc n) zero (suc j) h =
    let f : ltb (suc j) 0 ≡ ltb j 0 = ground arith in rw f (get_or-ones n zero j (omega arith))
get_or-ones (suc n) (suc m) zero h =
    let odd : (2 ^ suc m - 1) % 2 ≡ 1 = omega (arith, pow-suc 2 m, one-le-pow m 2) in ground arith
get_or-ones (suc n) (suc m) (suc j) h =
    let half : (2 ^ suc m - 1) / 2 ≡ 2 ^ m - 1 = omega (arith, pow-suc 2 m, one-le-pow m 2) in
    let f : ltb (suc j) (suc m) ≡ ltb j m = ground arith in
    rw (half, f) (get_or-ones n m j (omega arith))

get_or-full : (k j : ℕ) → get_or (bits_of (replicate k 0xFF)) j 0 ≡ (if ltb j (8 * k) then 1 else 0)
unfolding bits_of
get_or-full zero j = ground arith
get_or-full (suc k) j =
    let rest = get_or-full k (j - 8) in
    let byte = get_or-ones 8 8 j (omega arith) in
    get_or-append_both (bits 8 0xFF) (bits_of (replicate k 0xFF)) j
    ∙ ap
        (λ (n : ℕ).
          if ltb j n
          then get_or (bits 8 0xFF) j 0
          else get_or (bits_of (replicate k 0xFF)) (j - n) 0)
        (length-bits 8 0xFF)
    ∙ ground (arith, rest, byte)

last_byte_checked : holds_below (λ m. 0xFF >>> (8 - m) == 2 ^ m - 1) 8 ≡ true
unfolding holds_below
last_byte_checked = refl

last_byte : (m : ℕ) → m < 8 → 0xFF >>> (8 - m) ≡ 2 ^ m - 1
last_byte m h =
    (==_iff (0xFF >>> (8 - m)) (2 ^ m - 1)).0
      (holds_below-at (λ m. 0xFF >>> (8 - m) == 2 ^ m - 1) 8 m h last_byte_checked)

one_byte : (b : ℕ) → bits_of (b ∷ []) ≡ bits 8 b
unfolding bits_of bits
one_byte b = refl

-- The bitmap before bits are cleared.
unfoldable pub full_bytes : ℕ → List ℕ
full_bytes blocks =
    if blocks % 8 == 0
    then replicate (blocks / 8) 0xFF
    else replicate (blocks / 8) 0xFF ++ (0xFF >>> (8 - blocks % 8)) ∷ []

full_bitmap-bytes : (blocks : ℕ) → blocks + 8 ≤ 2 ^ 32 → full_bitmap blocks ≡ ok (full_bytes blocks)
unfolding full_bitmap full_bytes
full_bitmap-bytes blocks small =
    let sum : add32 blocks 7 ≡ blocks + 7 = omega arith in
    elim (Bool-cases (blocks % 8 == 0)) [
      | inl whole ↦
          let bytes : (blocks + 7) / 8 ≡ blocks / 8 = ground arith in rw (sum, whole, bytes) refl
      | inr rest ↦
          let some_bytes : ((blocks + 7) / 8 == 0) ≡ false = ground arith in
          let bytes : (blocks + 7) / 8 - 1 ≡ blocks / 8 = ground arith in
          rw (sum, rest, some_bytes, bytes) refl
    ]

-- Exactly the blocks that there are have their bit set.
get_or-full_bytes :
    (blocks j : ℕ) → get_or (bits_of (full_bytes blocks)) j 0 ≡ (if ltb j blocks then 1 else 0)
unfolding full_bytes
get_or-full_bytes blocks j =
    let k = blocks / 8 in
    let m = blocks % 8 in
    elim (Bool-cases (m == 0)) [
      | inl whole ↦
          let e : 8 * k ≡ blocks = ground arith in
          rw whole (get_or-full k j ∙ ap (λ (n : ℕ). if ltb j n then 1 else 0) e)
      | inr rest ↦
          let front : List ℕ = replicate k 0xFF in
          let long : length (bits_of front) ≡ 8 * k =
            omega (arith, length-bits_of front, length-replicate {A = ℕ} k 0xFF) in
          let full = get_or-full k j in
          let tail = get_or-ones 8 m (j - 8 * k) (omega arith) in
          rw (rest, last_byte m (omega arith))
            (ap (λ l. get_or l j 0) (bits_of-append front ((2 ^ m - 1) ∷ []))
              ∙ get_or-append_both (bits_of front) (bits_of ((2 ^ m - 1) ∷ [])) j
              ∙ ap
                  (λ (n : ℕ).
                    if ltb j n
                    then get_or (bits_of front) j 0
                    else get_or (bits_of ((2 ^ m - 1) ∷ [])) (j - n) 0)
                  long
              ∙ ap
                  (λ l.
                    if ltb j (8 * k) then get_or (bits_of front) j 0 else get_or l (j - 8 * k) 0)
                  (one_byte (2 ^ m - 1))
              ∙ ground (arith, full, tail))
    ]

full-Byte : (k : ℕ) → All Byte (replicate k 0xFF)
full-Byte zero = tt
full-Byte (suc k) = (omega arith, full-Byte k)

append-Byte : (l m : List ℕ) → All Byte l → All Byte m → All Byte (l ++ m)
append-Byte [] m h k = k
append-Byte (x ∷ l) m h k = (h.0, append-Byte l m h.1 k)

full_bytes-Byte :
    (blocks : ℕ) → All Byte (full_bytes blocks) × (length (full_bytes blocks) ≡ (blocks + 7) / 8)
unfolding full_bytes
full_bytes-Byte blocks =
    let k = blocks / 8 in
    let m = blocks % 8 in
    let front : List ℕ = replicate k 0xFF in
    let long = length-replicate {A = ℕ} k 0xFF in
    elim (Bool-cases (m == 0)) [
      | inl whole ↦ rw whole (full-Byte k, ground arith)
      | inr rest ↦ rw rest (
        append-Byte front ((0xFF >>> (8 - m)) ∷ []) (full-Byte k) (omega (arith, shifted m), tt),
        ground (arith, length-append {0} front ((0xFF >>> (8 - m)) ∷ [])),
      )
    ]
  where
    shifted : (m : ℕ) → 0xFF >>> (8 - m) < 256
    shifted m = omega (arith, div-le_self 0xFF (2 ^ (8 - m)))

-- The bitmap that `setup_space` makes, with a number of blocks that can be rounded up to whole bytes
-- in 32 bits, has a byte for every eight blocks, and the bit of a block is
-- set exactly where the block is in the partition and not one of those of the bitmap itself, which
-- lie in the partition.
pub first_bitmap-bits :
    (blocks blocksize offset : ℕ)
    → 0 < blocksize
    → blocks + 8 ≤ 2 ^ 32
    → 24 + (blocks + 7) / 8 + blocksize ≤ 2 ^ 32
    → offset + (24 + (blocks + 7) / 8 + blocksize - 1) / blocksize ≤ blocks
    → Returns (first_bitmap blocks blocksize offset) (λ sbd.
      (sbd.num_of_bits ≡ blocks)
      × All Byte sbd.bitmap
      × (length sbd.bitmap ≡ (blocks + 7) / 8)
      × ((j : ℕ)
          → get_or (bits_of sbd.bitmap) j 0 ≡ (
              if leb offset j
                && ltb j (offset + (24 + (blocks + 7) / 8 + blocksize - 1) / blocksize)
              then 0
              else if ltb j blocks
              then 1
              else 0)))
unfolding first_bitmap divide
first_bitmap-bits blocks blocksize offset pos few small inside =
    let size = 24 + (blocks + 7) / 8 + blocksize - 1 in
    let taken = size / blocksize in
    let divides : (blocksize == 0) ≡ false = ground arith in
    let sum : add32 blocks 7 ≡ blocks + 7 = omega arith in
    let fits : u32 (24 + (blocks + 7) / 8 + blocksize + (2 ^ 32 - 1)) ≡ size = omega arith in
    let full = full_bytes-Byte blocks in
    rw (full_bitmap-bytes blocks few, sum, fits, divides)
      (Returns->>= (clear_bits (full_bytes blocks) offset taken) _ _ _
        (clear_bits-range (full_bytes blocks) offset taken full.0 (omega (arith, full.1)))
        λ m kept. (
          refl,
          kept.1,
          kept.0 ∙ full.1,
          λ j.
              kept.2 j
              ∙ ap (λ (x : ℕ). if leb offset j && ltb j (offset + taken) then 0 else x)
                  (get_or-full_bytes blocks j),
        ))

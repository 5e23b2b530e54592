-- ===== src/Memory.antt =====
-- Fields in memory: a structure is the list of its bytes, and a field is read and written at its
-- offset, with the lowest byte first.
use native.Mathlib.Nat.{pow-suc}
use udftools.Base.{
  ℕ, zero, suc, ◌+◌, ◌*◌, ◌/◌, ◌^◌, ◌≤◌, ◌<◌, ◌≡◌, refl, sym, ap, ◌∙◌, arith, List, [], ◌∷◌, length,
  take, drop, Run, ok, fault, leb, if◌then◌else◌, bytes_of, number_of, true,
}

-- Bytes laid over others, from an offset on.
unfoldable pub patch : ℕ → List ℕ → List ℕ → List ℕ
patch off [] l = l
patch zero (b ∷ bs) [] = []
patch zero (b ∷ bs) (x ∷ l) = b ∷ patch zero bs l
patch (suc off) (b ∷ bs) [] = []
patch (suc off) (b ∷ bs) (x ∷ l) = x ∷ patch off (b ∷ bs) l

-- The number in a field of `k` bytes.
unfoldable pub field : ℕ → ℕ → List ℕ → ℕ
field k off l = number_of (take k (drop off l))

unfoldable pub get : ℕ → ℕ → List ℕ → Run ℕ
unfolding field
get k off l = if leb (off + k) (length l) then ok (field k off l) else fault

unfoldable pub put : ℕ → ℕ → ℕ → List ℕ → Run (List ℕ)
unfolding patch
put k off v l = if leb (off + k) (length l) then ok (patch off (bytes_of k v) l) else fault

pub get-field : (k off : ℕ) (l : List ℕ) → off + k ≤ length l → get k off l ≡ ok (field k off l)
unfolding get
get-field k off l h = let e : leb (off + k) (length l) ≡ true = ground arith in rw e refl

pub put-patch :
    (k off v : ℕ) (l : List ℕ)
    → off + k ≤ length l
    → put k off v l ≡ ok (patch off (bytes_of k v) l)
unfolding put
put-patch k off v l h = let e : leb (off + k) (length l) ≡ true = ground arith in rw e refl

pub length-patch : (off : ℕ) (bs l : List ℕ) → length (patch off bs l) ≡ length l
unfolding patch
length-patch off [] l = refl
length-patch zero (b ∷ bs) [] = refl
length-patch zero (b ∷ bs) (x ∷ l) = ap suc (length-patch zero bs l)
length-patch (suc off) (b ∷ bs) [] = refl
length-patch (suc off) (b ∷ bs) (x ∷ l) = ap suc (length-patch off (b ∷ bs) l)

-- What is laid down is found there again.
pub patch-found :
    (off : ℕ) (bs l : List ℕ)
    → off + length bs ≤ length l
    → take (length bs) (drop off (patch off bs l)) ≡ bs
unfolding patch
patch-found off [] l h = refl
patch-found zero (b ∷ bs) [] h = absurd (omega arith)
patch-found zero (b ∷ bs) (x ∷ l) h = ap (λ t. b ∷ t) (patch-found zero bs l (omega arith))
patch-found (suc off) (b ∷ bs) [] h = absurd (omega arith)
patch-found (suc off) (b ∷ bs) (x ∷ l) h = patch-found off (b ∷ bs) l (omega arith)

-- Bytes behind it are as they were.
pub drop-patch :
    (o off : ℕ) (bs l : List ℕ) → off + length bs ≤ o → drop o (patch off bs l) ≡ drop o l
unfolding patch
drop-patch o off [] l h = refl
drop-patch zero off (b ∷ bs) l h = absurd (omega arith)
drop-patch (suc o) zero (b ∷ bs) [] h = refl
drop-patch (suc o) zero (b ∷ bs) (x ∷ l) h = drop-patch o zero bs l (omega arith)
drop-patch (suc o) (suc off) (b ∷ bs) [] h = refl
drop-patch (suc o) (suc off) (b ∷ bs) (x ∷ l) h = drop-patch o off (b ∷ bs) l (omega arith)

-- And bytes in front of it.
pub take-patch :
    (n o off : ℕ) (bs l : List ℕ)
    → o + n ≤ off
    → take n (drop o (patch off bs l)) ≡ take n (drop o l)
unfolding patch
take-patch n o off [] l h = refl
take-patch zero o off (b ∷ bs) l h = refl
take-patch (suc n) o zero (b ∷ bs) l h = absurd (omega arith)
take-patch (suc n) zero (suc off) (b ∷ bs) [] h = refl
take-patch (suc n) zero (suc off) (b ∷ bs) (x ∷ l) h =
    ap (λ t. x ∷ t) (take-patch n zero off (b ∷ bs) l (omega arith))
take-patch (suc n) (suc o) (suc off) (b ∷ bs) [] h = refl
take-patch (suc n) (suc o) (suc off) (b ∷ bs) (x ∷ l) h =
    take-patch (suc n) o off (b ∷ bs) l (omega arith)

pub length-bytes_of : (k v : ℕ) → length (bytes_of k v) ≡ k
length-bytes_of zero v = refl
length-bytes_of (suc k) v = ap suc (length-bytes_of k (v / 256))

-- Fields apart from one that is written.
pub field-before :
    (n o k off v : ℕ) (l : List ℕ)
    → o + n ≤ off
    → field n o (patch off (bytes_of k v) l) ≡ field n o l
unfolding field
field-before n o k off v l h = ap number_of (take-patch n o off (bytes_of k v) l h)

pub field-behind :
    (n o off : ℕ) (bs l : List ℕ) → off + length bs ≤ o → field n o (patch off bs l) ≡ field n o l
unfolding field
field-behind n o off bs l h = ap (λ t. number_of (take n t)) (drop-patch o off bs l h)

pub number_of-bytes_of : (k v : ℕ) → v < 2 ^ (8 * k) → number_of (bytes_of k v) ≡ v
number_of-bytes_of zero v h = omega arith
number_of-bytes_of (suc k) v h =
    let e : 2 ^ (8 * suc k) ≡ 256 * 2 ^ (8 * k) =
      let f : 8 * suc k ≡ suc (suc (suc (suc (suc (suc (suc (suc (8 * k)))))))) = omega arith in
      rw f (simp pow-suc (omega arith)) in
    omega (arith, number_of-bytes_of k (v / 256) (omega arith))

-- The field that is written.
pub field-put :
    (k off v : ℕ) (l : List ℕ)
    → off + k ≤ length l
    → v < 2 ^ (8 * k)
    → field k off (patch off (bytes_of k v) l) ≡ v
unfolding field
field-put k off v l h small =
    let size = length-bytes_of k v in
    ap (λ n. number_of (take n (drop off (patch off (bytes_of k v) l)))) (sym size)
    ∙ ap number_of (patch-found off (bytes_of k v) l (omega arith))
    ∙ number_of-bytes_of k v small

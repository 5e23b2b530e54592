-- ===== src/Base/Lists.antt =====
-- Arrays and linked lists as lists, measured and indexed by native numbers.
use Prim.Native.Nat.{ℕ, zero, suc, ◌+◌, ◌-◌, ◌≤◌}
use mathlib.Core.Path.{◌≡◌, refl, ap}
use mathlib.Core.List.{List, [], ◌∷◌, ◌++◌}
use mathlib.Core.Option.{Option, none, some}
use native.Mathlib.Omega.{arith}

module _ {ℓ} {A : Type ℓ} where
  abbrev pub length : List A → ℕ
  length [] = 0
  length (x ∷ xs) = suc (length xs)

  abbrev pub get_elem? : List A → ℕ → Option A
  get_elem? [] i = none
  get_elem? (x ∷ xs) zero = some x
  get_elem? (x ∷ xs) (suc i) = get_elem? xs i

  abbrev pub get_or : List A → ℕ → A → A
  get_or [] i d = d
  get_or (x ∷ xs) zero d = x
  get_or (x ∷ xs) (suc i) d = get_or xs i d

  abbrev pub take : ℕ → List A → List A
  take zero xs = []
  take (suc n) [] = []
  take (suc n) (x ∷ xs) = x ∷ take n xs

  abbrev pub drop : ℕ → List A → List A
  drop zero xs = xs
  drop (suc n) [] = []
  drop (suc n) (x ∷ xs) = drop n xs

  abbrev pub replicate : ℕ → A → List A
  replicate zero a = []
  replicate (suc n) a = a ∷ replicate n a

  -- A list put back in front of another, nearest element first.
  abbrev pub reverse_onto : List A → List A → List A
  reverse_onto [] ys = ys
  reverse_onto (x ∷ xs) ys = reverse_onto xs (x ∷ ys)

  pub length-append : (xs ys : List A) → length (xs ++ ys) ≡ length xs + length ys
  length-append [] ys = omega arith
  length-append (x ∷ xs) ys = omega (arith, length-append xs ys)

  abbrev pub All {κ} : (A → Type κ) → List A → Type κ
  All P [] = Unit {κ}
  All P (x ∷ xs) = P x × All P xs

  pub length-reverse_onto : (xs ys : List A) → length (reverse_onto xs ys) ≡ length xs + length ys
  length-reverse_onto [] ys = omega arith
  length-reverse_onto (x ∷ xs) ys = omega (arith, length-reverse_onto xs (x ∷ ys))

  pub length-take : (n : ℕ) (l : List A) → n ≤ length l → length (take n l) ≡ n
  length-take zero l h = refl
  length-take (suc n) [] h = absurd (omega arith)
  length-take (suc n) (x ∷ l) h = omega (arith, length-take n l (omega arith))

  pub length-drop : (n : ℕ) (l : List A) → length (drop n l) ≡ length l - n
  length-drop zero l = omega arith
  length-drop (suc n) [] = omega arith
  length-drop (suc n) (x ∷ l) = omega (arith, length-drop n l)

  pub length-replicate : (n : ℕ) (a : A) → length (replicate n a) ≡ n
  length-replicate zero a = refl
  length-replicate (suc n) a = ap suc (length-replicate n a)

  pub take-append-drop : (n : ℕ) (l : List A) → take n l ++ drop n l ≡ l
  take-append-drop zero l = refl
  take-append-drop (suc n) [] = refl
  take-append-drop (suc n) (x ∷ l) = ap (λ t. x ∷ t) (take-append-drop n l)

  pub take-whole : (l : List A) → take (length l) l ≡ l
  take-whole [] = refl
  take-whole (x ∷ l) = ap (λ t. x ∷ t) (take-whole l)

  pub drop-append : (n : ℕ) (l m : List A) → n ≤ length l → drop n (l ++ m) ≡ drop n l ++ m
  drop-append zero l m h = refl
  drop-append (suc n) [] m h = absurd (omega arith)
  drop-append (suc n) (x ∷ l) m h = drop-append n l m (omega arith)

  pub drop-take : (k n : ℕ) (l : List A) → drop k (take n l) ≡ take (n - k) (drop k l)
  drop-take zero n l = let e : n - 0 ≡ n = omega arith in rw e refl
  drop-take (suc k) zero l = let e : 0 - suc k ≡ 0 = omega arith in rw e refl
  drop-take (suc k) (suc n) [] =
      let e : suc n - suc k ≡ n - k = omega arith in rw e (take-nothing (n - k))
    where
      take-nothing : (m : ℕ) → [] ≡ take m []
      take-nothing zero = refl
      take-nothing (suc m) = refl
  drop-take (suc k) (suc n) (x ∷ l) =
      let e : suc n - suc k ≡ n - k = omega arith in rw e (drop-take k n l)

  pub drop-drop : (a b : ℕ) (l : List A) → drop b (drop a l) ≡ drop (a + b) l
  drop-drop zero b l = let e : 0 + b ≡ b = omega arith in rw e refl
  drop-drop (suc a) b [] = let e : suc a + b ≡ suc (a + b) = omega arith in rw e (drop-nothing b)
    where
      drop-nothing : (m : ℕ) → drop m [] ≡ []
      drop-nothing zero = refl
      drop-nothing (suc m) = refl
  drop-drop (suc a) b (x ∷ l) =
      let e : suc a + b ≡ suc (a + b) = omega arith in rw e (drop-drop a b l)

  pub take-append_short : (n : ℕ) (l m : List A) → n ≤ length l → take n (l ++ m) ≡ take n l
  take-append_short zero l m h = refl
  take-append_short (suc n) [] m h = absurd (omega arith)
  take-append_short (suc n) (x ∷ l) m h = ap (λ t. x ∷ t) (take-append_short n l m (omega arith))

  pub take-append_long :
      (n : ℕ) (l m : List A) → length l ≤ n → take n (l ++ m) ≡ l ++ take (n - length l) m
  take-append_long n [] m h = let e : n - 0 ≡ n = omega arith in rw e refl
  take-append_long zero (x ∷ l) m h = absurd (omega arith)
  take-append_long (suc n) (x ∷ l) m h =
      let e : suc n - suc (length l) ≡ n - length l = omega arith in
      rw e (ap (λ t. x ∷ t) (take-append_long n l m (omega arith)))

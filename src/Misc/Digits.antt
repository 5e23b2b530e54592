-- ===== src/Misc/Digits.antt =====
-- Every uuid is made of 16 digits.
use udftools.Base.{
  ℕ, zero, suc, ◌+◌, ◌-◌, ◌≤◌, ◌<◌, ◌^◌, ◌≡◌, refl, ◌∙◌, inl, inr, true, Option, none, some, List,
  [], ◌∷◌, ◌++◌, arith, ltb, ◌&&◌, ok, Returns, Returns->>=, deref, ◌>>=◌, length, length-append,
  length-take, length-drop, length-replicate, take, drop, replicate, get_elem?, All, Bool-cases,
  ◌⊎◌,
}
use udftools.Unicode.{decode_utf8}
use udftools.Unicode.Decode.{Room, decode_utf8-Room}
use udftools.Misc.{
  isxdigit, tolower, nonhexpos, digit, hex_all, lower_all, buffer_of, uuid_of, finish_uuid,
  uuid_from, gen_uuid_from_vol_set_ident,
}

-- A digit as it is printed: 0 to 9 and a to f.
abbrev pub IsDigit : ℕ → Type 0
IsDigit b = (48 ≤ b) × (b ≤ 57) ⊎ (97 ≤ b) × (b ≤ 102)

abbrev pub Digits : ℕ → List ℕ → Type 0
Digits n l = (length l ≡ n) × All IsDigit l

All-append : (l r : List ℕ) → All IsDigit l → All IsDigit r → All IsDigit (l ++ r)
All-append [] r h h' = h'
All-append (b ∷ l) r h h' = (h.0, All-append l r h.1 h')

Digits-append : (m n : ℕ) (l r : List ℕ) → Digits m l → Digits n r → Digits (m + n) (l ++ r)
Digits-append m n l r h h' = (omega (arith, length-append l r, h.0, h'.0), All-append l r h.1 h'.1)

hex_all-Digits : (l : List ℕ) → Digits (length l + length l) (hex_all l)
unfolding hex_all digit
hex_all-Digits [] = (omega arith, tt)
hex_all-Digits (b ∷ l) =
    let rest = hex_all-Digits l in (omega (arith, rest.0), (ground arith, (ground arith, rest.1)))

lower_all-Digits : (l : List ℕ) → All (λ b. isxdigit b ≡ true) l → Digits (length l) (lower_all l)
unfolding lower_all tolower isxdigit
lower_all-Digits [] h = (refl, tt)
lower_all-Digits (b ∷ l) h =
    let rest = lower_all-Digits l h.1 in
    let here = h.0 in (omega (arith, rest.0), (ground arith, rest.1))

nonhexpos-prefix :
    (n k : ℕ) (l : List ℕ) → k ≤ nonhexpos n l → All (λ b. isxdigit b ≡ true) (take k l)
unfolding nonhexpos
nonhexpos-prefix n zero l h = tt
nonhexpos-prefix zero (suc k) l h = absurd (omega arith)
nonhexpos-prefix (suc n) (suc k) [] h = absurd (omega arith)
nonhexpos-prefix (suc n) (suc k) (b ∷ r) h = elim (Bool-cases (isxdigit b)) [
  | inl hex ↦ (hex, nonhexpos-prefix n k r (ground arith))
  | inr other ↦ absurd (ground arith)
]

length-buffer_of : (out : List ℕ) → 16 ≤ length (buffer_of out)
unfolding buffer_of
length-buffer_of out = omega (
  arith,
  length-append out (replicate (509 - length out) 0),
  length-replicate {A = ℕ} (509 - length out) 0,
)

nonhexpos-le : (n : ℕ) (l : List ℕ) → nonhexpos n l ≤ n
unfolding nonhexpos
nonhexpos-le zero l = omega arith
nonhexpos-le (suc n) [] = omega arith
nonhexpos-le (suc n) (b ∷ r) = let rest = nonhexpos-le n r in ground arith

lower-Digits :
    (k : ℕ) (buf : List ℕ)
    → 16 ≤ length buf
    → k ≤ 16
    → k ≤ nonhexpos 16 buf
    → Digits k (lower_all (take k buf))
lower-Digits k buf long small h =
    let size = length-take k buf (omega arith) in
    let d = lower_all-Digits (take k buf) (nonhexpos-prefix 16 k buf h) in (d.0 ∙ size, d.1)

uuid_of-Digits : (buf : List ℕ) → 16 ≤ length buf → Digits 16 (uuid_of (nonhexpos 16 buf) buf)
unfolding uuid_of
uuid_of-Digits buf long =
    let pos = nonhexpos 16 buf in
    elim (Bool-cases (ltb pos 8)) [
      | inl early ↦ rw early (
          let d = hex_all-Digits (take 8 buf) in
          (omega (arith, d.0, length-take 8 buf (omega arith)), d.1))
      | inr later ↦ rw later (elim (Bool-cases (ltb pos 16)) [
        | inl half ↦ rw half (
            let d = hex_all-Digits (take 4 (drop 8 buf)) in
            Digits-append 8 8 (lower_all (take 8 buf)) (hex_all (take 4 (drop 8 buf)))
              (lower-Digits 8 buf long (omega arith) (ground arith))
              (
                omega (
                  arith,
                  d.0,
                  length-drop 8 buf,
                  length-take 4 (drop 8 buf) (omega (arith, length-drop 8 buf)),
                ),
                d.1,
              ))
        | inr whole ↦ rw whole (lower-Digits 16 buf long (omega arith) (ground arith))
      ])
    ]

-- A result: nothing, or a uuid of 16 digits and a place in it or behind it.
abbrev pub Uuid : Option (List ℕ × ℕ) → Type 0
Uuid none = Unit
Uuid (some result) = Digits 16 result.0 × (result.1 ≤ 16)

finish_uuid-Uuid : (out : List ℕ) → Uuid (some (finish_uuid out))
unfolding finish_uuid
finish_uuid-Uuid out =
    (uuid_of-Digits (buffer_of out) (length-buffer_of out), nonhexpos-le 16 (buffer_of out))

uuid_from-Uuid : (o : Option (List ℕ)) → Uuid (uuid_from o)
unfolding uuid_from
uuid_from-Uuid none = finish_uuid-Uuid []
uuid_from-Uuid (some out) = elim (Bool-cases (ltb (length out) 8)) [
  | inl short ↦ rw short tt
  | inr enough ↦ rw enough (finish_uuid-Uuid out)
]

convert-Uuid :
    (ident : List ℕ) (len : ℕ)
    → 0 < len
    → len < length ident
    → len < 2 ^ 64
    → Returns (decode_utf8 ident len 509 >>= λ d. ok (uuid_from d)) Uuid
convert-Uuid [] len pos owned small = absurd (omega arith)
convert-Uuid (mark ∷ r) len pos owned small =
    Returns->>= (decode_utf8 (mark ∷ r) len 509) _ (Room 509 0) Uuid
      (decode_utf8-Room mark r len 509 pos (omega arith) small) λ d h. uuid_from-Uuid d

element : (l : List ℕ) (i : ℕ) → i < length l → Returns (deref (get_elem? l i)) (λ x. Unit)
element [] i h = absurd (omega arith)
element (x ∷ l) zero h = tt
element (x ∷ l) (suc i) h = element l i (omega arith)

-- On an identifier of at least `size` bytes, the function returns: there is no uuid, or a uuid of 16
-- digits, of which letters are in lower case.
pub gen_uuid_from_vol_set_ident-Uuid :
    (ident : List ℕ) (size : ℕ)
    → size ≤ length ident
    → size < 2 ^ 64
    → Returns (gen_uuid_from_vol_set_ident ident size) Uuid
unfolding gen_uuid_from_vol_set_ident
gen_uuid_from_vol_set_ident-Uuid ident zero owned small = uuid_from-Uuid (some [])
gen_uuid_from_vol_set_ident-Uuid ident (suc n) owned small =
    Returns->>= (deref (get_elem? ident n)) _ (λ x. Unit) Uuid (element ident n (omega arith))
      λ len any. elim (Bool-cases (ltb 0 len && ltb len (suc n))) [
        | inl inside ↦
            rw inside (convert-Uuid ident len (ground arith) (ground arith) (ground arith))
        | inr outside ↦ rw outside (uuid_from-Uuid (some []))
      ]

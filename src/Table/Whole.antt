-- ===== src/Table/Whole.antt =====
-- The first space table: its extents tile the blocks behind it, and its tag agrees with its bytes.
use native.Mathlib.Nat.{add-mul, mul-div_cancel, mul-mod_left, suc-mul, lt_of_mul-lt-mul_right}
use native.Mathlib.Decide.{dec_lt}
use udftools.Base.{
  ℕ, zero, suc, ◌+◌, ◌-◌, ◌*◌, ◌/◌, ◌%◌, ◌^◌, ◌≤◌, ◌<◌, ◌≡◌, refl, ap, subst, ◌∙◌, arith, bit_or,
  List, [], ◌∷◌, ◌==◌, ltb, leb, ◌&&◌, if◌then◌else◌, length, All, add32, u32, false, inl, inr,
  Bool-cases, Returns, Returns->>=,
}
use udftools.Base.Bits.{bit_or_fields}
use udftools.Space.{divide}
use udftools.Table.{ShortAd, ext_not_recorded_allocated}
use udftools.Table.Shares.{count, share, shares, ExtentOk, Ascends}
use udftools.Table.First.{unrecorded, last_ad, first_ads}

-- Extents of whole blocks that follow each other from a block to another.
unfoldable pub Tiles : ℕ → ℕ → ℕ → List ShortAd → Type 0
Tiles blocksize pos end [] = pos ≡ end
Tiles blocksize pos end (d ∷ l) =
    (d.ext_position ≡ pos)
    × (d.ext_length < 2 ^ 32)
    × (d.ext_length % 2 ^ 30 % blocksize ≡ 0)
    × Tiles blocksize (pos + count blocksize d) end l

Tiles-bound : (blocksize pos end : ℕ) (l : List ShortAd) → Tiles blocksize pos end l → pos ≤ end
unfolding Tiles
Tiles-bound blocksize pos end [] h = omega (arith, h)
Tiles-bound blocksize pos end (d ∷ l) h =
    let rest = Tiles-bound blocksize (pos + count blocksize d) end l h.3 in omega (arith, rest)

-- Such extents hold each block between the two once, and no other.
pub Tiles-shares :
    (blocksize pos end : ℕ) (l : List ShortAd)
    → Tiles blocksize pos end l
    → (b : ℕ) → shares blocksize b l ≡ (if leb pos b && ltb b end then 1 else 0)
unfolding Tiles shares share
Tiles-shares blocksize pos end [] h b = ground (arith, h)
Tiles-shares blocksize pos end (d ∷ l) h b =
    let rest = Tiles-shares blocksize (pos + count blocksize d) end l h.3 b in
    let bound = Tiles-bound blocksize (pos + count blocksize d) end l h.3 in
    rw (h.0, rest) (ground (arith, bound))

pub Tiles-All :
    (alignment blocksize pos end : ℕ) (l : List ShortAd)
    → Tiles blocksize pos end l
    → end + alignment < 2 ^ 32
    → All (ExtentOk blocksize alignment) l
unfolding Tiles
Tiles-All alignment blocksize pos end [] h k = tt
Tiles-All alignment blocksize pos end (d ∷ l) h k =
    let bound = Tiles-bound blocksize (pos + count blocksize d) end l h.3 in
    (
      unfold ExtentOk in (h.1, h.2, omega (arith, h.0, bound)),
      Tiles-All alignment blocksize (pos + count blocksize d) end l h.3 k,
    )

pub Tiles-Ascends :
    (blocksize from pos end : ℕ) (l : List ShortAd)
    → from ≤ pos
    → Tiles blocksize pos end l
    → Ascends blocksize from l
unfolding Tiles Ascends
Tiles-Ascends blocksize from pos end [] low h = tt
Tiles-Ascends blocksize from pos end (d ∷ l) low h = (
  omega (arith, h.0),
  Tiles-Ascends blocksize (d.ext_position + count blocksize d) (pos + count blocksize d) end l
      (omega (arith, h.0)) h.3,
)

module _ (blocksize : ℕ) (pos : 0 < blocksize) where
  -- The length field of a number of blocks.
  unrecorded-count :
      (q : ℕ)
      → q * blocksize < 2 ^ 30
      → let len = u32 (bit_or ext_not_recorded_allocated (q * blocksize)) in
        (len < 2 ^ 32) × (len % 2 ^ 30 / blocksize ≡ q) × (len % 2 ^ 30 % blocksize ≡ 0)
  unrecorded-count q h =
      let joined : u32 (bit_or ext_not_recorded_allocated (q * blocksize))
          ≡ 2 ^ 30 + q * blocksize =
        ap u32 (bit_or_fields 1 30 (q * blocksize) h) ∙ omega arith in
      let low : (2 ^ 30 + q * blocksize) % 2 ^ 30 ≡ q * blocksize = omega arith in
      rw (joined, low) (omega arith, mul-div_cancel q pos, mul-mod_left q blocksize)

  Tiles-unrecorded :
      (at q end : ℕ) (l : List ShortAd)
      → q * blocksize < 2 ^ 30
      → Tiles blocksize (at + q) end l
      → Tiles blocksize at end (unrecorded (q * blocksize) at ∷ l)
  unfolding Tiles
  Tiles-unrecorded at q end l h rest =
      let parts = unrecorded-count q h in (refl, parts.0, parts.2, (rw parts.1 rest))

  pub last_ad-Tiles :
      (room at q : ℕ)
      → q * blocksize < 2 ^ 30
      → 0 < room
      → Returns
          (last_ad room at (q * blocksize))
          (λ a. Tiles blocksize at (at + q) a.ads × (length a.ads + a.room ≡ room))
  unfolding last_ad
  last_ad-Tiles zero at q h more = absurd (omega arith)
  last_ad-Tiles (suc room) at q h more =
      (Tiles-unrecorded at q (at + q) [] h (unfold Tiles in refl), omega arith)

  module _ (m : ℕ) (some_step : 0 < m) (fits : m * blocksize < 2 ^ 30) where
    pub first_ads-Tiles :
        (room at q : ℕ)
        → q * blocksize ≤ room * (m * blocksize)
        → 0 < room
        → at + q < 2 ^ 32
        → Returns
            (first_ads room (m * blocksize) blocksize at (q * blocksize))
            (λ a. Tiles blocksize at (at + q) a.ads × (length a.ads + a.room ≡ room))
    unfolding first_ads divide
    first_ads-Tiles zero at q enough more small = absurd (omega arith)
    first_ads-Tiles (suc room) at q enough more small =
        let nonzero : (blocksize == 0) ≡ false = ground arith in
        let step : m * blocksize / blocksize ≡ m = mul-div_cancel m pos in
        rw (nonzero, step)
          (elim (Bool-cases (ltb (m * blocksize) (q * blocksize))) [
            | inl longer ↦
                let far : m * blocksize < q * blocksize = ground arith in
                let ahead : m < q = lt_of_mul-lt-mul_right blocksize far in
                let r = q - m in
                let whole : m + r ≡ q = omega arith in
                let parts : (m + r) * blocksize ≡ m * blocksize + r * blocksize =
                  add-mul m r blocksize in
                let left : q * blocksize - m * blocksize ≡ r * blocksize =
                  omega (arith, parts, ap (λ (t : ℕ). t * blocksize) whole) in
                let next : add32 at m ≡ at + m = omega arith in
                let split : suc room * (m * blocksize) ≡ room * (m * blocksize) + m * blocksize =
                  suc-mul room (m * blocksize) in
                let end : at + m + r ≡ at + q = omega arith in
                let filled : 0 < room = elim (dec_lt 0 room) [
                  | yes z ↦ z
                  | no nz ↦ absurd (
                      let z : room ≡ 0 = omega arith in
                      omega (arith, ap (λ (t : ℕ). t * (m * blocksize)) z))
                ] in
                rw (longer, left, next)
                  (Returns->>= (first_ads room (m * blocksize) blocksize (at + m) (r * blocksize)) _
                    _ _
                    (first_ads-Tiles room (at + m) r (omega (arith, parts)) filled (omega arith))
                    (λ a h. (
                      Tiles-unrecorded at m (at + q) a.ads fits
                          (subst (λ t. Tiles blocksize (at + m) t a.ads) end h.0),
                      omega (arith, h.1),
                    )))
            | inr last ↦ rw last (last_ad-Tiles (suc room) at q (ground arith) (omega arith))
          ])

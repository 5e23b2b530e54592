-- ===== src/Table/Found.antt =====
-- Which extent of a space table the allocation stops at.
use native.Mathlib.Decide.{dec_le}
use udftools.Base.{
  ℕ, ◌+◌, ◌-◌, ◌%◌, ◌^◌, ◌≤◌, ◌<◌, ◌≡◌, ◌⊎◌, refl, ap, ◌∙◌, arith, List, [], ◌∷◌, ltb, ◌==◌,
  if◌then◌else◌, reverse_onto, All, Run, ok, fault, exit_failure, out_of_fuel, add32, sub32, false,
  inl, inr, Bool-cases,
}
use udftools.Space.{divide}
use udftools.Bitmap.Find.{align_up-least}
use udftools.Table.{ShortAd, Slot, find_slot}
use udftools.Table.Shares.{count, masked-count, ExtentOk, Ascends}

-- An extent holds a run of blocks from a block on.
unfoldable pub HoldsRun : ℕ → ℕ → ℕ → List ShortAd → Type 0
HoldsRun blocksize blocks x [] = ⊥
HoldsRun blocksize blocks x (d ∷ l) =
    (d.ext_position ≤ x) × (x + blocks ≤ d.ext_position + count blocksize d)
    ⊎ HoldsRun blocksize blocks x l

module _ (alignment blocksize blocks : ℕ) where
  -- An aligned run in the extent at which the loop stops.
  pub record Found (whole : List ShortAd) (s : Slot) : Type 0 where
    pub list : reverse_onto s.passed (s.at ∷ s.after) ≡ whole
    pub low : s.at.ext_position ≤ s.start
    pub end_of : s.end ≡ s.at.ext_position + count blocksize s.at
    pub high : s.start + blocks ≤ s.end
    pub aligned : s.start % alignment ≡ 0

  -- The loop stops at an aligned run that is not behind the first one from `start` on, and leaves
  -- the program only where there is none from `start` on.
  unfoldable pub Finds : ℕ → List ShortAd → List ShortAd → Run Slot → Type 0
  Finds start whole rest (ok s) =
      Found whole s
      × ((x : ℕ) → start ≤ x → x % alignment ≡ 0 → HoldsRun blocksize blocks x rest → s.start ≤ x)
  Finds start whole rest exit_failure =
      (x : ℕ) → start ≤ x → x % alignment ≡ 0 → ¬ HoldsRun blocksize blocks x rest
  Finds start whole rest fault = ⊥
  Finds start whole rest out_of_fuel = ⊥

  -- Runs lie behind the bound from which extents ascend.
  HoldsRun-behind :
      (from x : ℕ) (l : List ShortAd)
      → Ascends blocksize from l
      → HoldsRun blocksize blocks x l
      → from ≤ x
  unfolding HoldsRun Ascends
  HoldsRun-behind from x [] sorted run = absurd run
  HoldsRun-behind from x (d ∷ l) sorted (inl here) = omega (arith, sorted.0, here.0)
  HoldsRun-behind from x (d ∷ l) sorted (inr later) =
      omega
        (arith, sorted.0, HoldsRun-behind (d.ext_position + count blocksize d) x l sorted.1 later)

  -- An extent that is passed holds no such run.
  Finds-earlier :
      (start from : ℕ) (d : ShortAd) (whole l : List ShortAd) (r : Run Slot)
      → ((x : ℕ)
          → start ≤ x
          → x % alignment ≡ 0
          → HoldsRun blocksize blocks x (d ∷ l)
          → (from ≤ x) × HoldsRun blocksize blocks x l)
      → Finds from whole l r
      → Finds start whole (d ∷ l) r
  unfolding Finds
  Finds-earlier start from d whole l (ok s) passed found = (
    found.0,
    λ x low aligned run. let later = passed x low aligned run in found.1 x later.0 aligned later.1,
  )
  Finds-earlier start from d whole l exit_failure passed found =
      λ x low aligned run. let later = passed x low aligned run in found x later.0 aligned later.1
  Finds-earlier start from d whole l fault passed found = found
  Finds-earlier start from d whole l out_of_fuel passed found = found

  module _ (pos : 0 < alignment) (pos' : 0 < blocksize) (some_blocks : 0 < blocks) where
    pub find_slot-Finds :
        (start bound : ℕ) (passed l : List ShortAd)
        → All (ExtentOk blocksize alignment) l
        → Ascends blocksize bound l
        → start + alignment < 2 ^ 32
        → Finds start
            (reverse_onto passed l)
            l
            (find_slot alignment blocksize blocks start passed l)
    unfolding find_slot divide
    find_slot-Finds start bound passed [] sound sorted fits =
        unfold Finds HoldsRun in λ x low aligned run. run
    find_slot-Finds start bound passed (d ∷ l) sound sorted fits =
        let valid : ExtentOk blocksize alignment d = sound.0 in
        let n = count blocksize d in
        let limit : d.ext_position + n + alignment < 2 ^ 32 = unfold ExtentOk in valid.2 in
        let first : ℕ = if ltb start d.ext_position then d.ext_position else start in
        let first_le : (start ≤ first) × (d.ext_position ≤ first) × (first + alignment < 2 ^ 32) =
          (ground arith, ground arith, ground arith) in
        let up = align_up-least first alignment pos first_le.2 in
        let divides : (blocksize == 0) ≡ false = ground arith in
        let end = d.ext_position + n in
        let sum : add32 d.ext_position n ≡ end = omega arith in
        let from : ℕ = if ltb end up.0 then end else up.0 in
        let from_end : (from ≤ end) × (from ≤ up.0) = (ground arith, ground arith) in
        let apart : sub32 end from ≡ end - from = omega (arith, from_end.0) in
        let sorted' : (d.ext_position ≡ d.ext_position) × Ascends blocksize end l =
          unfold Ascends in (refl, sorted.1) in
        rw up.1 (
          rw divides (
            rw (masked-count blocksize d) (
              rw sum (
                rw apart (elim (Bool-cases (ltb (end - from) blocks)) [
                  | inl short ↦
                      let passes : (x : ℕ)
                          → start ≤ x
                          → x % alignment ≡ 0
                          → HoldsRun blocksize blocks x (d ∷ l)
                          → (from ≤ x) × HoldsRun blocksize blocks x l =
                        unfold HoldsRun in
                        λ x low aligned run. elim run [
                          | inl here ↦
                              let first_x : first ≤ x = ground (arith, here.0) in
                              let least = up.5 x first_x aligned in
                              absurd (ground (arith, here.1, short))
                          | inr later ↦
                              let behind = HoldsRun-behind end x l sorted'.1 later in
                              (omega (arith, from_end.0), later)
                        ] in
                      rw short (
                        Finds-earlier start from d (reverse_onto passed (d ∷ l)) l
                          (find_slot alignment blocksize blocks from (d ∷ passed) l) passes
                          (find_slot-Finds from end (d ∷ passed) l sound.1 sorted'.1
                            (omega (arith, from_end.0))))
                  | inr enough ↦
                      let stays : from ≡ up.0 = ground (arith, enough) in
                      rw enough (
                        unfold Finds in
                        (
                          record {
                            list = refl;
                            low = omega (arith, stays, up.2, first_le.1);
                            end_of = refl;
                            high = ground (arith, enough);
                            aligned = ap (λ (t : ℕ). t % alignment) stays ∙ up.4;
                          },
                          λ x low aligned run. elim (dec_le from x) [
                            | yes le ↦ le
                            | no gt ↦ absurd (
                                unfold HoldsRun in
                                elim run [
                                  | inl here ↦
                                      let least = up.5 x (ground (arith, here.0)) aligned in
                                      omega (arith, stays)
                                  | inr later ↦
                                      let behind = HoldsRun-behind end x l sorted'.1 later in
                                      omega (arith, from_end.0)
                                ])
                          ],
                        ))
                ])))))

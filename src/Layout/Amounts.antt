-- ===== src/Layout/Amounts.antt =====
-- The sizes of the areas that `split_space` computes.
use native.Mathlib.Nat.{le-div_iff_mul-le, zero-div}
use udftools.Base.{
  ℕ, ◌*◌, ◌/◌, ◌≤◌, ◌<◌, ◌≡◌, ap, subst, ◌∙◌, inl, inr, arith, ◌&&◌, ◌||◌, ltb, leb, ◌==◌,
  Bool-cases, Run, ok, Returns, Returns->>=, if◌then◌else◌, ◌>>=◌, u32, sub32, add32,
}
use udftools.Layout.{Sizes, size_of, compute_sizes}
use udftools.Space.{Disc, Sizing, divide}
use udftools.Space.Sane.{Sane, divide-ok}

-- The volume descriptor sequences have their fixed size, and the integrity descriptors at least
-- theirs.
pub record Sized (d : Disc) (sizes : Sizes) : Type 0 where
  pub vds : sizes.vds ≡ d.vds.min_size
  pub lvid : d.lvid.min_size ≤ sizes.lvid

size_of-ok :
    (blocks : ℕ) (z : Sizing) → 0 < z.denom_size → Returns (size_of blocks z) (λ n. z.min_size ≤ n)
unfolding size_of
size_of-ok blocks z pos = rw (divide-ok (u32 (z.num_size * blocks)) z.denom_size pos) (ground arith)

size_of-fixed :
    (blocks : ℕ) (z : Sizing) → 0 < z.denom_size → z.num_size ≡ 0 → size_of blocks z ≡ ok z.min_size
unfolding size_of
size_of-fixed blocks z pos fixed =
    let none : u32 (0 * blocks) ≡ 0 = omega arith in
    let nothing : u32 (z.num_size * blocks) / z.denom_size ≡ 0 =
      ap (λ n. u32 (n * blocks) / z.denom_size) fixed
      ∙ ap (λ n. n / z.denom_size) none
      ∙ zero-div z.denom_size in
    rw (divide-ok (u32 (z.num_size * blocks)) z.denom_size pos) (ground arith)

integrity-ok :
    (blocksize lvid : ℕ)
    → 0 < blocksize
    → blocksize ≤ 32768
    → lvid * blocksize < 8192
    → lvid ≤ sub32 (add32 8192 blocksize) 1 / blocksize
integrity-ok b n pos high small =
    (le-div_iff_mul-le {k = b} {x = n} {y = sub32 (add32 8192 b) 1} pos).1 (omega arith)

module _ (given d : Disc) (h : Sane given d) where
  abbrev last_sizes : ℕ → ℕ → ℕ → ℕ → Run Sizes
  last_sizes vds lvid stable sspace = do
    integrity ←
        if (d.access_type == 3 || d.access_type == 4)
          && ltb (lvid * d.blocksize) 8192
          && ltb 257 d.blocks
        then divide (sub32 (add32 8192 d.blocksize) 1) d.blocksize
        else ok lvid
    ok (record {
      vds = if ltb 6 vds && leb d.blocks 257 then 6 else vds;
      lvid = integrity;
      stable = stable;
      sspace = sspace;
    })

  last_sizes-Sized :
      (lvid stable sspace : ℕ)
      → d.lvid.min_size ≤ lvid
      → Returns (last_sizes d.vds.min_size lvid stable sspace) (Sized d)
  last_sizes-Sized lvid stable sspace least =
      elim (Bool-cases (
        (d.access_type == 3 || d.access_type == 4)
        && ltb (lvid * d.blocksize) 8192
        && ltb 257 d.blocks)) [
          | inr enough ↦
              rw enough (record { vds = ground (arith, h.blocks, h.large); lvid = least })
          | inl little ↦
              let bound =
                integrity-ok d.blocksize lvid (omega (arith, h.blocksize)) h.blocksize.1
                  (ground arith) in
              rw little (
                rw
                  (divide-ok (sub32 (add32 8192 d.blocksize) 1) d.blocksize
                    (omega (arith, h.blocksize)))
                  (record { vds = ground (arith, h.blocks, h.large); lvid = omega arith }))
        ]

  pub compute_sizes-Sized : Returns (compute_sizes d) (Sized d)
  unfolding compute_sizes
  compute_sizes-Sized = rw (size_of-fixed d.blocks d.vds h.divisors.0 h.vds_fixed) (
      Returns->>= (size_of d.blocks d.lvid) _ _ (Sized d) (size_of-ok d.blocks d.lvid h.divisors.1)
        λ lvid least.
          Returns->>= (size_of d.blocks d.stable) _ _ (Sized d)
            (size_of-ok d.blocks d.stable h.divisors.2)
            λ stable _.
              Returns->>= (size_of d.blocks d.sspace) _ _ (Sized d)
                (size_of-ok d.blocks d.sspace h.divisors.3)
                λ sspace _.
                  Returns->>= (size_of d.blocks d.pspace) _ _ (Sized d)
                    (size_of-ok d.blocks d.pspace h.divisors.4)
                    λ unused _. last_sizes-Sized lvid stable sspace least)

pub Sized-given :
    (given d : Disc) (sizes : Sizes) → Sane given d → Sized d sizes → Sized given sizes
Sized-given given d sizes h s = record {
  vds = s.vds ∙ ap (λ z. z.min_size) h.same_vds;
  lvid = subst (λ z. z.min_size ≤ sizes.lvid) h.same_lvid s.lvid;
}

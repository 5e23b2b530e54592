-- ===== src/Swap/Tests.antt =====
-- Runs of the swaps, and the theorem about the conversions at concrete bytes.
use udftools.Base.{◌≡◌, refl, arith, [], ◌∷◌, true, number_of}
use udftools.Swap.{
  swab16, swab32, swab64, le16_to_cpu, le32_to_cpu, le64_to_cpu, be16_to_cpu, be32_to_cpu,
  be64_to_cpu, load,
}
use udftools.Swap.Load.{to_cpu-load}

swab_runs :
    (swab16 0x1234 ≡ 0x3412)
    × (swab32 0x12345678 ≡ 0x78563412)
    × (swab64 0x0102030405060708 ≡ 0x0807060504030201)
unfolding swab16 swab32 swab64
swab_runs = (refl, refl, refl)

to_cpu-load_example :
    (le16_to_cpu true (load true (1 ∷ 2 ∷ [])) ≡ number_of (1 ∷ 2 ∷ []))
    × (le32_to_cpu true (load true (1 ∷ 2 ∷ 3 ∷ 4 ∷ [])) ≡ number_of (1 ∷ 2 ∷ 3 ∷ 4 ∷ []))
    × (le64_to_cpu true (load true (1 ∷ 2 ∷ 3 ∷ 4 ∷ 5 ∷ 6 ∷ 7 ∷ 8 ∷ []))
        ≡ number_of (1 ∷ 2 ∷ 3 ∷ 4 ∷ 5 ∷ 6 ∷ 7 ∷ 8 ∷ []))
    × (be16_to_cpu true (load true (1 ∷ 2 ∷ [])) ≡ number_of (2 ∷ 1 ∷ []))
    × (be32_to_cpu true (load true (1 ∷ 2 ∷ 3 ∷ 4 ∷ [])) ≡ number_of (4 ∷ 3 ∷ 2 ∷ 1 ∷ []))
    × (be64_to_cpu true (load true (1 ∷ 2 ∷ 3 ∷ 4 ∷ 5 ∷ 6 ∷ 7 ∷ 8 ∷ []))
        ≡ number_of (8 ∷ 7 ∷ 6 ∷ 5 ∷ 4 ∷ 3 ∷ 2 ∷ 1 ∷ []))
to_cpu-load_example =
    to_cpu-load true 1 2 3 4 5 6 7 8 (omega arith) (omega arith) (omega arith) (omega arith)
      (omega arith) (omega arith) (omega arith) (omega arith)

-- ===== src/Crc/Generate.antt =====
-- The table in crc.c is the one that its generator computes for the ITU-T V.41 polynomial.
use udftools.Base.{
  ℕ, ◌<◌, ◌≡◌, refl, holds_below, holds_below-at, ◌==◌, ==_iff, get_or, ltb, ltb→lt, true,
}
use udftools.Crc.{crc_table, generate, generate_loop, generate_step}

agrees : holds_below (λ n. get_or crc_table n 0 == generate 0x1021 n) 256 ≡ true
unfolding holds_below crc_table generate generate_loop generate_step
agrees = refl

-- Entry `n` is what the generator computes from `n` for the polynomial 010041.
pub crc_table-generate : (n : ℕ) → n < 256 → get_or crc_table n 0 ≡ generate 0x1021 n
crc_table-generate n h =
    (==_iff _ _).0 (holds_below-at (λ k. get_or crc_table k 0 == generate 0x1021 k) 256 n h agrees)

bounded : holds_below (λ n. ltb (get_or crc_table n 0) 65536) 256 ≡ true
unfolding holds_below crc_table
bounded = refl

pub crc_table-lt : (n : ℕ) → n < 256 → get_or crc_table n 0 < 65536
crc_table-lt n h =
    ltb→lt _ _ (holds_below-at (λ k. ltb (get_or crc_table k 0) 65536) 256 n h bounded)

-- ===== src/Base/Bytes.antt =====
-- Numbers as bytes in memory, the lowest byte first, and the contents of byte arrays.
use Prim.Native.Nat.{ℕ, zero, suc, ◌+◌, ◌*◌, ◌/◌, ◌%◌}
use mathlib.Core.List.{List, [], ◌∷◌}

-- The lowest `k` bytes of a number.
abbrev pub bytes_of : ℕ → ℕ → List ℕ
bytes_of zero v = []
bytes_of (suc k) v = v % 256 ∷ bytes_of k (v / 256)

-- The number that bytes stand for.
abbrev pub number_of : List ℕ → ℕ
number_of [] = 0
number_of (b ∷ bs) = b + 256 * number_of bs

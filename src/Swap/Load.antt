-- ===== src/Swap/Load.antt =====
-- The conversions read the bytes of the disc on both kinds of machine.
use native.Mathlib.Nat.{mod-eq_of_lt}
use udftools.Base.{
  ℕ, ◌+◌, ◌*◌, ◌%◌, ◌^◌, ◌≤◌, ◌<◌, ◌≡◌, ◌∙◌, arith, List, [], ◌∷◌, Bool, true, false, All,
  number_of, length,
}
use udftools.Bitmap.Masks.{Byte, number_of-lt}
use udftools.Swap.{
  swab16, swab32, swab64, le16_to_cpu, le32_to_cpu, le64_to_cpu, be16_to_cpu, be32_to_cpu,
  be64_to_cpu, load,
}
use udftools.Swap.Order.{swab16-bytes, swab32-bytes, swab64-bytes}

-- Loaded with the highest byte first, and with the lowest byte first.
swapped16 : (a b : ℕ) → a < 256 → b < 256 → swab16 (number_of (b ∷ a ∷ [])) ≡ number_of (a ∷ b ∷ [])
swapped16 a b a_byte b_byte =
    let plain : number_of (b ∷ a ∷ []) ≡ b + 256 * a = omega arith in
    rw plain (swab16-bytes a b a_byte b_byte ∙ omega arith)

kept16 : (l : List ℕ) → All Byte l → length l ≤ 2 → number_of l % 2 ^ 16 ≡ number_of l
kept16 l small few = mod-eq_of_lt (number_of-lt 2 l small few)

-- Loaded with the highest byte first, and with the lowest byte first.
swapped32 :
    (a b c d : ℕ)
    → a < 256
    → b < 256
    → c < 256
    → d < 256
    → swab32 (number_of (d ∷ c ∷ b ∷ a ∷ [])) ≡ number_of (a ∷ b ∷ c ∷ d ∷ [])
swapped32 a b c d a_byte b_byte c_byte d_byte =
    let plain : number_of (d ∷ c ∷ b ∷ a ∷ []) ≡ d + 256 * (c + 256 * (b + 256 * a)) =
      omega arith in
    rw plain (swab32-bytes a b c d a_byte b_byte c_byte d_byte ∙ omega arith)

kept32 : (l : List ℕ) → All Byte l → length l ≤ 4 → number_of l % 2 ^ 32 ≡ number_of l
kept32 l small few = mod-eq_of_lt (number_of-lt 4 l small few)

-- Loaded with the highest byte first, and with the lowest byte first.
swapped64 :
    (a b c d e f g h : ℕ)
    → a < 256
    → b < 256
    → c < 256
    → d < 256
    → e < 256
    → f < 256
    → g < 256
    → h < 256
    → swab64 (number_of (h ∷ g ∷ f ∷ e ∷ d ∷ c ∷ b ∷ a ∷ []))
      ≡ number_of (a ∷ b ∷ c ∷ d ∷ e ∷ f ∷ g ∷ h ∷ [])
swapped64 a b c d e f g h a_byte b_byte c_byte d_byte e_byte f_byte g_byte h_byte =
    let plain : number_of (h ∷ g ∷ f ∷ e ∷ d ∷ c ∷ b ∷ a ∷ [])
        ≡ h + 256 * (g + 256 * (f + 256 * (e + 256 * (d + 256 * (c + 256 * (b + 256 * a)))))) =
      omega arith in
    rw plain (
      swab64-bytes a b c d e f g h a_byte b_byte c_byte d_byte e_byte f_byte g_byte h_byte
      ∙ omega arith)

kept64 : (l : List ℕ) → All Byte l → length l ≤ 8 → number_of l % 2 ^ 64 ≡ number_of l
kept64 l small few = mod-eq_of_lt (number_of-lt 8 l small few)

-- On a machine of either byte order, `le16_to_cpu`, `le32_to_cpu` and `le64_to_cpu` turn what is
-- loaded from two, four and eight bytes into the number of these bytes with the lowest first, and the
-- conversions from big endian into the number with the highest first.
pub to_cpu-load :
    (big : Bool) (a b c d e f g h : ℕ)
    → a < 256
    → b < 256
    → c < 256
    → d < 256
    → e < 256
    → f < 256
    → g < 256
    → h < 256
    → (le16_to_cpu big (load big (a ∷ b ∷ [])) ≡ number_of (a ∷ b ∷ []))
      × (le32_to_cpu big (load big (a ∷ b ∷ c ∷ d ∷ [])) ≡ number_of (a ∷ b ∷ c ∷ d ∷ []))
      × (le64_to_cpu big (load big (a ∷ b ∷ c ∷ d ∷ e ∷ f ∷ g ∷ h ∷ []))
          ≡ number_of (a ∷ b ∷ c ∷ d ∷ e ∷ f ∷ g ∷ h ∷ []))
      × (be16_to_cpu big (load big (a ∷ b ∷ [])) ≡ number_of (b ∷ a ∷ []))
      × (be32_to_cpu big (load big (a ∷ b ∷ c ∷ d ∷ [])) ≡ number_of (d ∷ c ∷ b ∷ a ∷ []))
      × (be64_to_cpu big (load big (a ∷ b ∷ c ∷ d ∷ e ∷ f ∷ g ∷ h ∷ []))
          ≡ number_of (h ∷ g ∷ f ∷ e ∷ d ∷ c ∷ b ∷ a ∷ []))
unfolding le16_to_cpu le32_to_cpu le64_to_cpu be16_to_cpu be32_to_cpu be64_to_cpu load
to_cpu-load true a b c d e f g h a_byte b_byte c_byte d_byte e_byte f_byte g_byte h_byte = (
  swapped16 a b a_byte b_byte,
  swapped32 a b c d a_byte b_byte c_byte d_byte,
  swapped64 a b c d e f g h a_byte b_byte c_byte d_byte e_byte f_byte g_byte h_byte,
  kept16 (b ∷ a ∷ []) (b_byte, (a_byte, tt)) (omega arith),
  kept32 (d ∷ c ∷ b ∷ a ∷ []) (d_byte, (c_byte, (b_byte, (a_byte, tt)))) (omega arith),
  kept64 (h ∷ g ∷ f ∷ e ∷ d ∷ c ∷ b ∷ a ∷ [])
      (h_byte, (g_byte, (f_byte, (e_byte, (d_byte, (c_byte, (b_byte, (a_byte, tt))))))))
      (omega arith),
)
to_cpu-load false a b c d e f g h a_byte b_byte c_byte d_byte e_byte f_byte g_byte h_byte = (
  kept16 (a ∷ b ∷ []) (a_byte, (b_byte, tt)) (omega arith),
  kept32 (a ∷ b ∷ c ∷ d ∷ []) (a_byte, (b_byte, (c_byte, (d_byte, tt)))) (omega arith),
  kept64 (a ∷ b ∷ c ∷ d ∷ e ∷ f ∷ g ∷ h ∷ [])
      (a_byte, (b_byte, (c_byte, (d_byte, (e_byte, (f_byte, (g_byte, (h_byte, tt))))))))
      (omega arith),
  swapped16 b a b_byte a_byte,
  swapped32 d c b a d_byte c_byte b_byte a_byte,
  swapped64 h g f e d c b a h_byte g_byte f_byte e_byte d_byte c_byte b_byte a_byte,
)

-- ===== src/Swap.antt =====
-- include/bswap.h: numbers on the disc, which have their lowest byte first, against those of the
-- machine.
pub mod Fields
pub mod Order
pub mod Load
mod Tests
use udftools.Base.{
  ℕ, ◌+◌, ◌*◌, ◌/◌, ◌%◌, ◌^◌, bit_and, bit_or, Bool, true, false, if◌then◌else◌, List, [],
  reverse_onto, number_of, u16, u32, ◌<<<◌, ◌>>>◌,
}

abbrev pub u64 : ℕ → ℕ
u64 n = n % 2 ^ 64

unfoldable pub swab16 : ℕ → ℕ
swab16 x = u16 (bit_or (bit_and (u16 x) 0x00FF <<< 8) (bit_and (u16 x) 0xFF00 >>> 8))

unfoldable pub swab32 : ℕ → ℕ
swab32 x =
    let y = u32 x in
    bit_or
      (bit_or (bit_or (u32 (bit_and y 0x000000FF <<< 24)) (u32 (bit_and y 0x0000FF00 <<< 8)))
        (bit_and y 0x00FF0000 >>> 8))
      (bit_and y 0xFF000000 >>> 24)

unfoldable pub swab64 : ℕ → ℕ
swab64 x =
    let y = u64 x in
    bit_or
      (bit_or
        (bit_or
          (bit_or
            (bit_or
              (bit_or
                (bit_or (u64 (bit_and y 0x00000000000000FF <<< 56))
                  (u64 (bit_and y 0x000000000000FF00 <<< 40)))
                (u64 (bit_and y 0x0000000000FF0000 <<< 24)))
              (u64 (bit_and y 0x00000000FF000000 <<< 8)))
            (bit_and y 0x000000FF00000000 >>> 8))
          (bit_and y 0x0000FF0000000000 >>> 24))
        (bit_and y 0x00FF000000000000 >>> 40))
      (bit_and y 0xFF00000000000000 >>> 56)

-- The macros under WORDS_BIGENDIAN, for a machine with the highest byte first, and the others.
unfoldable pub le16_to_cpu : Bool → ℕ → ℕ
unfolding swab16
le16_to_cpu big x = if big then swab16 x else u16 x

unfoldable pub le32_to_cpu : Bool → ℕ → ℕ
unfolding swab32
le32_to_cpu big x = if big then swab32 x else u32 x

unfoldable pub le64_to_cpu : Bool → ℕ → ℕ
unfolding swab64
le64_to_cpu big x = if big then swab64 x else u64 x

unfoldable pub be16_to_cpu : Bool → ℕ → ℕ
unfolding swab16
be16_to_cpu big x = if big then u16 x else swab16 x

unfoldable pub be32_to_cpu : Bool → ℕ → ℕ
unfolding swab32
be32_to_cpu big x = if big then u32 x else swab32 x

unfoldable pub be64_to_cpu : Bool → ℕ → ℕ
unfolding swab64
be64_to_cpu big x = if big then u64 x else swab64 x

-- The number that the machine reads from bytes in memory.
unfoldable pub load : Bool → List ℕ → ℕ
load big bytes = if big then number_of (reverse_onto bytes []) else number_of bytes

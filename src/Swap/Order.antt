-- ===== src/Swap/Order.antt =====
-- The swaps, byte by byte.
use udftools.Base.{
  ℕ, ◌+◌, ◌*◌, ◌^◌, ◌<◌, ◌≡◌, ap, ◌∙◌, arith, bit_and, bit_or, u16, u32, ◌<<<◌, ◌>>>◌,
}
use udftools.Base.Bits.{bit_or_fields}
use udftools.Swap.{u64, swab16, swab32, swab64}
use udftools.Swap.Fields.{bit_and_byte}

pub swab16-bytes : (a b : ℕ) → a < 256 → b < 256 → swab16 (b + 256 * a) ≡ a + 256 * b
unfolding swab16
swab16-bytes a b p q =
    let x = b + 256 * a in
    let whole : u16 x ≡ x = omega arith in
    let low : bit_and x 0x00FF ≡ b =
      ap (λ (t : ℕ). bit_and t 0x00FF) (let e : x ≡ (a * 256 + b) * 2 ^ 0 + 0 = omega arith in e)
      ∙ bit_and_byte 0 a b 0 q (omega arith)
      ∙ omega arith in
    let high : bit_and x 0xFF00 ≡ a * 256 =
      ap (λ (t : ℕ). bit_and t 0xFF00) (let e : x ≡ (0 * 256 + a) * 2 ^ 8 + b = omega arith in e)
      ∙ bit_and_byte 8 0 a b p (omega arith)
      ∙ omega arith in
    let back : (a * 256) >>> 8 ≡ a = omega arith in
    let fits : u16 (b * 2 ^ 8 + a) ≡ a + 256 * b = omega arith in
    rw (whole, low, high, back, bit_or_fields b 8 a (omega arith)) fits

pub swab32-bytes :
    (a b c d : ℕ)
    → a < 256
    → b < 256
    → c < 256
    → d < 256
    → swab32 (d + 256 * (c + 256 * (b + 256 * a))) ≡ a + 256 * (b + 256 * (c + 256 * d))
unfolding swab32
swab32-bytes a b c d p q r s =
    let x = d + 256 * (c + 256 * (b + 256 * a)) in
    let whole : u32 x ≡ x = omega arith in
    let byte0 : bit_and x 0x000000FF ≡ d =
      ap (λ (t : ℕ). bit_and t 0xFF)
        (let e : x ≡ ((c + 256 * (b + 256 * a)) * 256 + d) * 2 ^ 0 + 0 = omega arith in e)
      ∙ bit_and_byte 0 (c + 256 * (b + 256 * a)) d 0 s (omega arith)
      ∙ omega arith in
    let byte1 : bit_and x 0x0000FF00 ≡ c * 2 ^ 8 =
      ap (λ (t : ℕ). bit_and t 0xFF00)
        (let e : x ≡ ((b + 256 * a) * 256 + c) * 2 ^ 8 + d = omega arith in e)
      ∙ bit_and_byte 8 (b + 256 * a) c d r (omega arith) in
    let byte2 : bit_and x 0x00FF0000 ≡ b * 2 ^ 16 =
      ap (λ (t : ℕ). bit_and t 0xFF0000)
        (let e : x ≡ (a * 256 + b) * 2 ^ 16 + (d + 256 * c) = omega arith in e)
      ∙ bit_and_byte 16 a b (d + 256 * c) q (omega arith) in
    let byte3 : bit_and x 0xFF000000 ≡ a * 2 ^ 24 =
      ap (λ (t : ℕ). bit_and t 0xFF000000)
        (let e : x ≡ (0 * 256 + a) * 2 ^ 24 + (d + 256 * (c + 256 * b)) = omega arith in e)
      ∙ bit_and_byte 24 0 a (d + 256 * (c + 256 * b)) p (omega arith) in
    let top : u32 (d <<< 24) ≡ d * 2 ^ 24 = omega arith in
    let next : u32 ((c * 2 ^ 8) <<< 8) ≡ c * 2 ^ 16 = omega arith in
    let third : (b * 2 ^ 16) >>> 8 ≡ b * 2 ^ 8 = omega arith in
    let last : (a * 2 ^ 24) >>> 24 ≡ a = omega arith in
    let two : d * 2 ^ 24 + c * 2 ^ 16 ≡ (d * 256 + c) * 2 ^ 16 = omega arith in
    let three : (d * 256 + c) * 2 ^ 16 + b * 2 ^ 8 ≡ ((d * 256 + c) * 256 + b) * 2 ^ 8 =
      omega arith in
    rw (whole, byte0, byte1, byte2, byte3, top, next, third, last)
      (ap (λ (t : ℕ). bit_or (bit_or t (b * 2 ^ 8)) a)
          (bit_or_fields d 24 (c * 2 ^ 16) (omega arith) ∙ two)
        ∙ ap (λ (t : ℕ). bit_or t a)
            (bit_or_fields (d * 256 + c) 16 (b * 2 ^ 8) (omega arith) ∙ three)
        ∙ bit_or_fields ((d * 256 + c) * 256 + b) 8 a (omega arith)
        ∙ omega arith)

pub swab64-bytes :
    (a b c d e f g h : ℕ)
    → a < 256
    → b < 256
    → c < 256
    → d < 256
    → e < 256
    → f < 256
    → g < 256
    → h < 256
    → swab64 (h + 256 * (g + 256 * (f + 256 * (e + 256 * (d + 256 * (c + 256 * (b + 256 * a)))))))
      ≡ a + 256 * (b + 256 * (c + 256 * (d + 256 * (e + 256 * (f + 256 * (g + 256 * h))))))
unfolding swab64
swab64-bytes a b c d e f g h a_byte b_byte c_byte d_byte e_byte f_byte g_byte h_byte =
    let x = h + 256 * (g + 256 * (f + 256 * (e + 256 * (d + 256 * (c + 256 * (b + 256 * a)))))) in
    let whole : u64 x ≡ x = omega arith in
    let byte0 : bit_and x 0x00000000000000FF ≡ h =
      ap (λ (t : ℕ). bit_and t 0x00000000000000FF)
        (let z : x
              ≡ ((g + 256 * (f + 256 * (e + 256 * (d + 256 * (c + 256 * (b + 256 * a)))))) * 256
                    + h)
                  * 2 ^ 0
                + 0 =
            omega arith in
          z)
      ∙ bit_and_byte 0 (g + 256 * (f + 256 * (e + 256 * (d + 256 * (c + 256 * (b + 256 * a)))))) h 0
          h_byte (omega arith)
      ∙ omega arith in
    let byte1 : bit_and x 0x000000000000FF00 ≡ g * 2 ^ 8 =
      ap (λ (t : ℕ). bit_and t 0x000000000000FF00)
        (let z : x
              ≡ ((f + 256 * (e + 256 * (d + 256 * (c + 256 * (b + 256 * a))))) * 256 + g) * 2 ^ 8
                + h =
            omega arith in
          z)
      ∙ bit_and_byte 8 (f + 256 * (e + 256 * (d + 256 * (c + 256 * (b + 256 * a))))) g h g_byte
          (omega arith) in
    let byte2 : bit_and x 0x0000000000FF0000 ≡ f * 2 ^ 16 =
      ap (λ (t : ℕ). bit_and t 0x0000000000FF0000)
        (let z : x
              ≡ ((e + 256 * (d + 256 * (c + 256 * (b + 256 * a)))) * 256 + f) * 2 ^ 16
                + (h + 256 * g) =
            omega arith in
          z)
      ∙ bit_and_byte 16 (e + 256 * (d + 256 * (c + 256 * (b + 256 * a)))) f (h + 256 * g) f_byte
          (omega arith) in
    let byte3 : bit_and x 0x00000000FF000000 ≡ e * 2 ^ 24 =
      ap (λ (t : ℕ). bit_and t 0x00000000FF000000)
        (let z : x
              ≡ ((d + 256 * (c + 256 * (b + 256 * a))) * 256 + e) * 2 ^ 24
                + (h + 256 * (g + 256 * f)) =
            omega arith in
          z)
      ∙ bit_and_byte 24 (d + 256 * (c + 256 * (b + 256 * a))) e (h + 256 * (g + 256 * f)) e_byte
          (omega arith) in
    let byte4 : bit_and x 0x000000FF00000000 ≡ d * 2 ^ 32 =
      ap (λ (t : ℕ). bit_and t 0x000000FF00000000)
        (let z : x
              ≡ ((c + 256 * (b + 256 * a)) * 256 + d) * 2 ^ 32
                + (h + 256 * (g + 256 * (f + 256 * e))) =
            omega arith in
          z)
      ∙ bit_and_byte 32 (c + 256 * (b + 256 * a)) d (h + 256 * (g + 256 * (f + 256 * e))) d_byte
          (omega arith) in
    let byte5 : bit_and x 0x0000FF0000000000 ≡ c * 2 ^ 40 =
      ap (λ (t : ℕ). bit_and t 0x0000FF0000000000)
        (let z : x
              ≡ ((b + 256 * a) * 256 + c) * 2 ^ 40
                + (h + 256 * (g + 256 * (f + 256 * (e + 256 * d)))) =
            omega arith in
          z)
      ∙ bit_and_byte 40 (b + 256 * a) c (h + 256 * (g + 256 * (f + 256 * (e + 256 * d)))) c_byte
          (omega arith) in
    let byte6 : bit_and x 0x00FF000000000000 ≡ b * 2 ^ 48 =
      ap (λ (t : ℕ). bit_and t 0x00FF000000000000)
        (let z : x
              ≡ (a * 256 + b) * 2 ^ 48
                + (h + 256 * (g + 256 * (f + 256 * (e + 256 * (d + 256 * c))))) =
            omega arith in
          z)
      ∙ bit_and_byte 48 a b (h + 256 * (g + 256 * (f + 256 * (e + 256 * (d + 256 * c))))) b_byte
          (omega arith) in
    let byte7 : bit_and x 0xFF00000000000000 ≡ a * 2 ^ 56 =
      ap (λ (t : ℕ). bit_and t 0xFF00000000000000)
        (let z : x
              ≡ (0 * 256 + a) * 2 ^ 56
                + (h + 256 * (g + 256 * (f + 256 * (e + 256 * (d + 256 * (c + 256 * b)))))) =
            omega arith in
          z)
      ∙ bit_and_byte 56 0 a
          (h + 256 * (g + 256 * (f + 256 * (e + 256 * (d + 256 * (c + 256 * b)))))) a_byte
          (omega arith) in
    let field0 : u64 (h <<< 56) ≡ h * 2 ^ 56 = omega arith in
    let field1 : u64 ((g * 2 ^ 8) <<< 40) ≡ g * 2 ^ 48 = omega arith in
    let field2 : u64 ((f * 2 ^ 16) <<< 24) ≡ f * 2 ^ 40 = omega arith in
    let field3 : u64 ((e * 2 ^ 24) <<< 8) ≡ e * 2 ^ 32 = omega arith in
    let field4 : (d * 2 ^ 32) >>> 8 ≡ d * 2 ^ 24 = omega arith in
    let field5 : (c * 2 ^ 40) >>> 24 ≡ c * 2 ^ 16 = omega arith in
    let field6 : (b * 2 ^ 48) >>> 40 ≡ b * 2 ^ 8 = omega arith in
    let field7 : (a * 2 ^ 56) >>> 56 ≡ a = omega arith in
    rw
      (
        whole, byte0, byte1, byte2, byte3, byte4, byte5, byte6, byte7, field0, field1, field2,
        field3, field4, field5, field6, field7,
      )
      (ap
          (λ (t : ℕ).
            bit_or
              (bit_or
                (bit_or (bit_or (bit_or (bit_or t (f * 2 ^ 40)) (e * 2 ^ 32)) (d * 2 ^ 24))
                  (c * 2 ^ 16))
                (b * 2 ^ 8))
              a)
          (bit_or_fields h 56 (g * 2 ^ 48) (omega arith)
            ∙ (let z : h * 2 ^ 56 + g * 2 ^ 48 ≡ (h * 256 + g) * 2 ^ 48 = omega arith in z))
        ∙ ap
            (λ (t : ℕ).
              bit_or
                (bit_or (bit_or (bit_or (bit_or t (e * 2 ^ 32)) (d * 2 ^ 24)) (c * 2 ^ 16))
                  (b * 2 ^ 8))
                a)
            (bit_or_fields (h * 256 + g) 48 (f * 2 ^ 40) (omega arith)
              ∙ (let z : (h * 256 + g) * 2 ^ 48 + f * 2 ^ 40 ≡ ((h * 256 + g) * 256 + f) * 2 ^ 40 =
                    omega arith in
                  z))
        ∙ ap
            (λ (t : ℕ). bit_or (bit_or (bit_or (bit_or t (d * 2 ^ 24)) (c * 2 ^ 16)) (b * 2 ^ 8)) a)
            (bit_or_fields ((h * 256 + g) * 256 + f) 40 (e * 2 ^ 32) (omega arith)
              ∙ (let z : ((h * 256 + g) * 256 + f) * 2 ^ 40 + e * 2 ^ 32
                      ≡ (((h * 256 + g) * 256 + f) * 256 + e) * 2 ^ 32 =
                    omega arith in
                  z))
        ∙ ap (λ (t : ℕ). bit_or (bit_or (bit_or t (c * 2 ^ 16)) (b * 2 ^ 8)) a)
            (bit_or_fields (((h * 256 + g) * 256 + f) * 256 + e) 32 (d * 2 ^ 24) (omega arith)
              ∙ (let z : (((h * 256 + g) * 256 + f) * 256 + e) * 2 ^ 32 + d * 2 ^ 24
                      ≡ ((((h * 256 + g) * 256 + f) * 256 + e) * 256 + d) * 2 ^ 24 =
                    omega arith in
                  z))
        ∙ ap (λ (t : ℕ). bit_or (bit_or t (b * 2 ^ 8)) a)
            (bit_or_fields ((((h * 256 + g) * 256 + f) * 256 + e) * 256 + d) 24 (c * 2 ^ 16)
                (omega arith)
              ∙ (let z : ((((h * 256 + g) * 256 + f) * 256 + e) * 256 + d) * 2 ^ 24 + c * 2 ^ 16
                      ≡ (((((h * 256 + g) * 256 + f) * 256 + e) * 256 + d) * 256 + c) * 2 ^ 16 =
                    omega arith in
                  z))
        ∙ ap (λ (t : ℕ). bit_or t a)
            (bit_or_fields (((((h * 256 + g) * 256 + f) * 256 + e) * 256 + d) * 256 + c) 16
                (b * 2 ^ 8) (omega arith)
              ∙ (let z : (((((h * 256 + g) * 256 + f) * 256 + e) * 256 + d) * 256 + c) * 2 ^ 16
                        + b * 2 ^ 8
                      ≡ ((((((h * 256 + g) * 256 + f) * 256 + e) * 256 + d) * 256 + c) * 256 + b)
                        * 2 ^ 8 =
                    omega arith in
                  z))
        ∙ bit_or_fields ((((((h * 256 + g) * 256 + f) * 256 + e) * 256 + d) * 256 + c) * 256 + b) 8
            a (omega arith)
        ∙ omega arith)

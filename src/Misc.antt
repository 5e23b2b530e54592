-- ===== src/Misc.antt =====
-- libudffs/misc.c: `gen_uuid_from_vol_set_ident`, the identifier of a filesystem.
pub mod Digits
mod Tests
use udftools.Base.{
  ℕ, zero, suc, ◌+◌, ◌-◌, ◌/◌, ◌%◌, Bool, true, false, ◌&&◌, ◌||◌, Option, none, some, List, [],
  ◌∷◌, ◌++◌, Run, ok, deref, ◌>>=◌, ltb, leb, ◌==◌, if◌then◌else◌, get_elem?, replicate, length,
  take, drop, u8,
}
use udftools.Unicode.{decode_utf8}

-- `isxdigit` and `tolower` of the C library, for ASCII.
pub isxdigit : ℕ → Bool
isxdigit b = leb 48 b && leb b 57 || leb 65 b && leb b 70 || leb 97 b && leb b 102

pub tolower : ℕ → ℕ
tolower b = if leb 65 b && leb b 90 then b + 32 else b

-- `nonhexpos` of the first `n` bytes: the place of the first one that is no digit.
pub nonhexpos : ℕ → List ℕ → ℕ
unfolding isxdigit
nonhexpos zero buf = 0
nonhexpos (suc n) [] = 0
nonhexpos (suc n) (b ∷ r) = let rest = nonhexpos n r in if isxdigit b then suc rest else 0

pub digit : ℕ → ℕ
digit n = if ltb n 10 then 48 + n else 87 + n

-- "%02x" of each byte
pub hex_all : List ℕ → List ℕ
unfolding digit
hex_all [] = []
hex_all (b ∷ r) = digit (u8 b / 16) ∷ digit (u8 b % 16) ∷ hex_all r

pub lower_all : List ℕ → List ℕ
unfolding tolower
lower_all [] = []
lower_all (b ∷ r) = tolower b ∷ lower_all r

-- The buffer of 127 * 4 + 1 bytes, behind what was written to it.
pub buffer_of : List ℕ → List ℕ
buffer_of out = out ++ replicate (509 - length out) 0

-- The uuid and its zero take 17 bytes; here it stands without the zero.
pub uuid_of : ℕ → List ℕ → List ℕ
unfolding hex_all lower_all
uuid_of pos buf =
    if ltb pos 8
    then hex_all (take 8 buf)
    else if ltb pos 16
    then lower_all (take 8 buf) ++ hex_all (take 4 (drop 8 buf))
    else lower_all (take 16 buf)

pub finish_uuid : List ℕ → List ℕ × ℕ
unfolding buffer_of nonhexpos uuid_of
finish_uuid out = let buf = buffer_of out in let pos = nonhexpos 16 buf in (uuid_of pos buf, pos)

-- Where the conversion fails, `len` is the greatest number, and the test of it passes. Nothing was
-- written to the buffer then: it has room for every identifier.
pub uuid_from : Option (List ℕ) → Option (List ℕ × ℕ)
unfolding finish_uuid
uuid_from none = some (finish_uuid [])
uuid_from (some out) = if ltb (length out) 8 then none else some (finish_uuid out)

-- The uuid and the result; or (size_t)-1, with an empty uuid.
pub gen_uuid_from_vol_set_ident : List ℕ → ℕ → Run (Option (List ℕ × ℕ))
unfolding uuid_from
gen_uuid_from_vol_set_ident ident zero = ok (uuid_from (some []))
gen_uuid_from_vol_set_ident ident (suc n) = do
  len ← deref (get_elem? ident n)
  decoded ← if ltb 0 len && ltb len (suc n) then decode_utf8 ident len 509 else ok (some [])
  ok (uuid_from decoded)

-- ===== src/Misc/Tests.antt =====
-- Runs of the functions on identifiers, and the theorem about them at a concrete one.
use udftools.Base.{
  ◌≡◌, refl, arith, none, some, List, [], ◌∷◌, ok, Returns, ℕ, true, false, replicate,
}
use udftools.Unicode.{decode_utf8, decode_loop, take_unit, take_char, utf8_of}
use udftools.Misc.{
  isxdigit, tolower, nonhexpos, digit, hex_all, lower_all, buffer_of, uuid_of, finish_uuid,
  uuid_from, gen_uuid_from_vol_set_ident,
}
use udftools.Misc.Digits.{Uuid, gen_uuid_from_vol_set_ident-Uuid}

xdigit_runs :
    (isxdigit 47 ≡ false)
    × (isxdigit 48 ≡ true)
    × (isxdigit 71 ≡ false)
    × (isxdigit 65 ≡ true)
    × (isxdigit 102 ≡ true)
unfolding isxdigit
xdigit_runs = (refl, refl, refl, refl, refl)

-- An identifier of eight digits and "LinuxUDF", and one of an unknown kind.
abbrev ident : List ℕ
ident =
    8 ∷ 48 ∷ 49 ∷ 50 ∷ 51 ∷ 65 ∷ 66 ∷ 67 ∷ 68 ∷ 76 ∷ 105 ∷ 110 ∷ 117 ∷ 120 ∷ 85 ∷ 68 ∷ 70 ∷ 0 ∷ 17
    ∷ []

abbrev unknown : List ℕ
unknown = 9 ∷ 48 ∷ 49 ∷ 3 ∷ []

uuid_runs :
    (gen_uuid_from_vol_set_ident ident 19
      ≡ ok (
          some (
            48 ∷ 49 ∷ 50 ∷ 51 ∷ 97 ∷ 98 ∷ 99 ∷ 100 ∷ 52 ∷ 99 ∷ 54 ∷ 57 ∷ 54 ∷ 101 ∷ 55 ∷ 53 ∷ [],
            8,
          )))
    × (gen_uuid_from_vol_set_ident unknown 4 ≡ ok (some (replicate 16 48, 0)))
    × (gen_uuid_from_vol_set_ident (8 ∷ 48 ∷ 2 ∷ []) 3 ≡ ok none)
unfolding gen_uuid_from_vol_set_ident uuid_from finish_uuid buffer_of nonhexpos isxdigit uuid_of
    lower_all hex_all digit tolower decode_utf8 decode_loop take_unit take_char utf8_of
uuid_runs = (refl, refl, refl)

gen_uuid_from_vol_set_ident-Uuid_example : Returns (gen_uuid_from_vol_set_ident ident 19) Uuid
gen_uuid_from_vol_set_ident-Uuid_example =
    gen_uuid_from_vol_set_ident-Uuid ident 19 (omega arith) (omega arith)

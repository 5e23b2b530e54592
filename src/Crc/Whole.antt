-- ===== src/Crc/Whole.antt =====
-- What `udf_crc` computes on a whole block of bytes.
use udftools.Base.{ℕ, ◌<◌, ◌≡◌, refl, sym, ap, ◌∙◌, List, [], ◌∷◌, ◌++◌, length, ok}
use mathlib.Core.List.{append-nil}
use udftools.Crc.{udf_crc, crc_step}
use udftools.Crc.Serial.{crc_step-lt}

-- The steps over all bytes of a list.
unfoldable pub crc_of : List ℕ → ℕ → ℕ
crc_of [] crc = crc
crc_of (b ∷ bytes) crc = crc_of bytes (crc_step crc b)

pub crc_of-lt : (bytes : List ℕ) (crc : ℕ) → crc < 65536 → crc_of bytes crc < 65536
unfolding crc_of
crc_of-lt [] crc small = small
crc_of-lt (b ∷ bytes) crc small = crc_of-lt bytes (crc_step crc b) (crc_step-lt crc b)

pub crc_of-append : (a b : List ℕ) (crc : ℕ) → crc_of (a ++ b) crc ≡ crc_of b (crc_of a crc)
unfolding crc_of
crc_of-append [] b crc = refl
crc_of-append (x ∷ a) b crc = crc_of-append a b (crc_step crc x)

-- `udf_crc` reads as many bytes as it is told to.
pub udf_crc-front : (a b : List ℕ) (crc : ℕ) → udf_crc (a ++ b) (length a) crc ≡ ok (crc_of a crc)
unfolding crc_of udf_crc
udf_crc-front [] b crc = refl
udf_crc-front (x ∷ a) b crc = udf_crc-front a b (crc_step crc x)

pub udf_crc-whole : (a : List ℕ) (crc : ℕ) → udf_crc a (length a) crc ≡ ok (crc_of a crc)
udf_crc-whole a crc =
    ap (λ t. udf_crc t (length a) crc) (sym (append-nil a)) ∙ udf_crc-front a [] crc

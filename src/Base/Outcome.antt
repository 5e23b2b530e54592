-- ===== src/Base/Outcome.antt =====
-- What a C function of this repository can do: return, leave by `exit(1)` after a message, or
-- meet undefined behaviour (a null pointer, an access out of bounds, a division by zero). A loop
-- on fuel can also run out of it; the theorems show that it does not.
use mathlib.Core.Bool.{Bool, true, false}
use mathlib.Core.Path.{◌≡◌, refl}
use mathlib.Core.Option.{Option, none, some}

pub data Run {ℓ} (A : Type ℓ) : Type ℓ where
  ok : A → Run A
  exit_failure : Run A
  fault : Run A
  out_of_fuel : Run A

infixl 5 ◌>>=◌ ◌>>◌
abbrev pub ◌>>=◌ {ℓ κ} : {A : Type ℓ} {B : Type κ} → Run A → (A → Run B) → Run B
ok a >>= f = f a
exit_failure >>= f = exit_failure
fault >>= f = fault
out_of_fuel >>= f = out_of_fuel

abbrev pub ◌>>◌ {ℓ} : {B : Type ℓ} → Run (Unit {0}) → Run B → Run B
m >> k = m >>= λ _. k

-- A read or a dereference that must succeed.
abbrev pub deref {ℓ} : {A : Type ℓ} → Option A → Run A
deref none = fault
deref (some a) = ok a

-- `if (!b) exit(1);`
abbrev pub require : Bool → Run (Unit {0})
require true = ok tt
require false = exit_failure

-- The run returns, with a value that satisfies `P`.
abbrev pub Returns {ℓ} : {A : Type ℓ} → Run A → (A → Type 0) → Type 0
Returns (ok a) P = P a
Returns exit_failure P = ⊥
Returns fault P = ⊥
Returns out_of_fuel P = ⊥

pub Returns->>= {ℓ κ} :
    {A : Type ℓ} {B : Type κ} (m : Run A) (f : A → Run B) (P : A → Type 0) (Q : B → Type 0)
    → Returns m P
    → ((a : A) → P a → Returns (f a) Q)
    → Returns (m >>= f) Q
Returns->>= (ok a) f P Q h next = next a h
Returns->>= exit_failure f P Q h next = h
Returns->>= fault f P Q h next = h
Returns->>= out_of_fuel f P Q h next = h

pub Returns_mono {ℓ} :
    {A : Type ℓ} (m : Run A) (P Q : A → Type 0) → Returns m P → ((a : A) → P a → Q a) → Returns m Q
Returns_mono (ok a) P Q h next = next a h
Returns_mono exit_failure P Q h next = h
Returns_mono fault P Q h next = h
Returns_mono out_of_fuel P Q h next = h

-- The run returns a value that satisfies `P`, or leaves by `exit(1)`, and this only if `E` holds: it
-- meets no undefined behaviour and no loop goes on for ever.
abbrev pub EndsOr {ℓ} : {A : Type ℓ} → Run A → (A → Type 0) → Type 0 → Type 0
EndsOr (ok a) P E = P a
EndsOr exit_failure P E = E
EndsOr fault P E = ⊥
EndsOr out_of_fuel P E = ⊥

pub EndsOr_of_Returns {ℓ} :
    {A : Type ℓ} (m : Run A) (P : A → Type 0) (E : Type 0) → Returns m P → EndsOr m P E
EndsOr_of_Returns (ok a) P E h = h
EndsOr_of_Returns exit_failure P E h = absurd h
EndsOr_of_Returns fault P E h = h
EndsOr_of_Returns out_of_fuel P E h = h

pub EndsOr->>= {ℓ κ} :
    {A : Type ℓ} {B : Type κ} (m : Run A) (f : A → Run B) (P : A → Type 0) (Q : B → Type 0)
    (E : Type 0)
    → EndsOr m P E
    → ((a : A) → m ≡ ok a → P a → EndsOr (f a) Q E)
    → EndsOr (m >>= f) Q E
EndsOr->>= (ok a) f P Q E h next = next a refl h
EndsOr->>= exit_failure f P Q E h next = h
EndsOr->>= fault f P Q E h next = h
EndsOr->>= out_of_fuel f P Q E h next = h

pub EndsOr_mono {ℓ} :
    {A : Type ℓ} (m : Run A) (P Q : A → Type 0) (E F : Type 0)
    → EndsOr m P E
    → ((a : A) → P a → Q a)
    → (E → F)
    → EndsOr m Q F
EndsOr_mono (ok a) P Q E F h next leave = next a h
EndsOr_mono exit_failure P Q E F h next leave = leave h
EndsOr_mono fault P Q E F h next leave = h
EndsOr_mono out_of_fuel P Q E F h next leave = h

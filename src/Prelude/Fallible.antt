-- ===== src/Prelude/Fallible.antt =====
-- A Go result with an `error`: a value, or an error of the package's own type.
use mathlib.Core.Path.{◌≡◌, refl}

pub data Result {ℓ} (E : Type 0) (A : Type ℓ) : Type ℓ where
  ok : A → Result E A
  err : E → Result E A

abbrev pub and_then {ℓ κ} :
    {E : Type 0} {A : Type ℓ} {B : Type κ} → Result E A → (A → Result E B) → Result E B
and_then (err e) f = err e
and_then (ok a) f = f a

-- What holds of the value of a result, if it has one.
abbrev pub Holds {ℓ} : {E : Type 0} {A : Type ℓ} → (A → Type 0) → Result E A → Type 0
Holds P (err e) = Unit
Holds P (ok a) = P a

pub and_then-Holds {ℓ κ} :
    {E : Type 0} {A : Type ℓ} {B : Type κ} {P : A → Type 0} (Q : B → Type 0) (r : Result E A)
    (f : A → Result E B)
    → Holds P r
    → ((a : A) → P a → Holds Q (f a))
    → Holds Q (and_then r f)
and_then-Holds Q (err e) f h k = tt
and_then-Holds Q (ok a) f h k = k a h

-- Both parts of a chain that gave a value gave one.
pub and_then_ok {ℓ κ} :
    {E : Type 0} {A : Type ℓ} {B : Type κ} (r : Result E A) (f : A → Result E B) (b : B)
    → and_then r f ≡ ok b
    → (a : A) × (r ≡ ok a) × (f a ≡ ok b)
and_then_ok (err e) f b h = cc h
and_then_ok (ok a) f b h = (a, refl, h)

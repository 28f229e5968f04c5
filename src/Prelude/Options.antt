-- ===== src/Prelude/Options.antt =====
-- Chains of Option results: a do block stops at the first `none`. What holds of a result, if there is one.
use Prim.Native.Nat.{suc}
use mathlib.Core.Path.{◌≡◌, refl, subst, ap}
use mathlib.Core.Bool.{Bool, true, false}
use mathlib.Core.Option.{Option, none, some}
use mathlib.Core.List.{List, [], ◌∷◌}
use shipmunk_runner.Prelude.Lists.{All, length}

module _ {ℓ κ} {A : Type ℓ} {B : Type κ} where
  infixl 10 ◌>>=◌
  abbrev pub ◌>>=◌ : Option A → (A → Option B) → Option B
  none >>= f = none
  some a >>= f = f a

-- `if !b { return …, false }`.
abbrev pub require : Bool → Option (Unit {0})
require true = some tt
require false = none

abbrev pub Given {ℓ} : {A : Type ℓ} → (A → Type 0) → Option A → Type 0
Given P none = Unit
Given P (some a) = P a

pub bind-Given {ℓ κ} :
    {A : Type ℓ} {B : Type κ} {P : A → Type 0} (Q : B → Type 0) (o : Option A) (f : A → Option B)
    → Given P o
    → ((a : A) → P a → Given Q (f a))
    → Given Q (o >>= f)
bind-Given Q none f h k = tt
bind-Given Q (some a) f h k = k a h

-- Chains agree where their second parts do, on what the first may give.
pub bind_cong {ℓ κ} :
    {A : Type ℓ} {B : Type κ} {P : A → Type 0} (o : Option A) (f g : A → Option B)
    → Given P o
    → ((a : A) → P a → f a ≡ g a)
    → (o >>= f) ≡ (o >>= g)
bind_cong none f g h k = refl
bind_cong (some a) f g h k = k a h

-- A chain goes on with what its first part gave.
pub then-Given {ℓ κ} :
    {A : Type ℓ} {B : Type κ} (Q : B → Type 0) (o : Option A) (f : A → Option B)
    → ((a : A) → o ≡ some a → Given Q (f a))
    → Given Q (o >>= f)
then-Given Q none f k = tt
then-Given Q (some a) f k = k a refl

pub require-Given {κ} :
    {B : Type κ} (Q : B → Type 0) (b : Bool) (o : Option B)
    → (b ≡ true → Given Q o)
    → Given Q (require b >>= λ _. o)
require-Given Q true o k = k refl
require-Given Q false o k = tt

pub Given_some {ℓ} :
    {A : Type ℓ} (P : A → Type 0) {o : Option A} {a : A} → Given P o → o ≡ some a → P a
Given_some P h e = subst (Given P) e h

-- One after the other, all or none.
abbrev pub and_cons {ℓ} : {A : Type ℓ} → A → Option (List A) → Option (List A)
and_cons a none = none
and_cons a (some xs) = some (a ∷ xs)

unfoldable pub traverse {ℓ κ} :
    {A : Type ℓ} {B : Type κ} → (A → Option B) → List A → Option (List B)
traverse f [] = some []
traverse f (x ∷ xs) = f x >>= λ y. and_cons y (traverse f xs)

pub traverse-Given {ℓ κ} :
    {A : Type ℓ} {B : Type κ} (P : B → Type 0) (f : A → Option B)
    → ((a : A) → Given P (f a))
    → (xs : List A) → Given (All P) (traverse f xs)
unfolding traverse
traverse-Given {B = B} P f h [] = tt
traverse-Given {B = B} P f h (x ∷ xs) =
    bind-Given (All P) (f x) (λ y. and_cons y (traverse f xs)) (h x)
      (λ y p. added y p (traverse f xs) (traverse-Given P f h xs))
  where
    added : (y : B) → P y → (o : Option (List B)) → Given (All P) o → Given (All P) (and_cons y o)
    added y p none k = tt
    added y p (some ys) k = (p, k)

pub and-Given {ℓ} :
    {A : Type ℓ} (P Q : A → Type 0) (o : Option A)
    → Given P o
    → Given Q o
    → Given (λ a. P a × Q a) o
and-Given P Q none h k = tt
and-Given P Q (some a) h k = (h, k)

-- A list that comes out is as long as the one that went in.
pub traverse-length {ℓ κ} :
    {A : Type ℓ} {B : Type κ} (f : A → Option B) (xs : List A)
    → Given (λ ys. length ys ≡ length xs) (traverse f xs)
unfolding traverse
traverse-length f [] = refl
traverse-length {B = B} f (x ∷ xs) =
    then-Given _ (f x) _ (λ y e. added y (traverse f xs) (traverse-length f xs))
  where
    added :
        (y : B) (o : Option (List B))
        → Given (λ ys. length ys ≡ length xs) o
        → Given (λ ys. length ys ≡ suc (length xs)) (and_cons y o)
    added y none k = tt
    added y (some ys) k = ap suc k

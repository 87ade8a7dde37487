-- ===== src/Base/Results.antt =====
-- A call that returns a value or raises.

use mathlib.Core.Path.{◌≡◌, refl, subst}
use mathlib.Core.List.{List, [], ◌∷◌}

pub data Result {ℓ κ} (E : Type ℓ) (A : Type κ) : Type (ℓ ⊔ κ) where
  ok : A → Result E A
  err : E → Result E A

-- `raise … from e`
abbrev pub or_raise {ℓ κ μ} :
    {E : Type ℓ} {F : Type κ} {A : Type μ} → (E → F) → Result E A → Result F A
or_raise f (ok a) = ok a
or_raise f (err e) = err (f e)

-- What follows a call, where it returns.
abbrev pub and_then {ℓ κ μ} :
    {E : Type ℓ} {A : Type κ} {B : Type μ} → Result E A → (A → Result E B) → Result E B
and_then (ok a) f = f a
and_then (err e) f = err e

-- `[f(x) for x in xs]`, which ends at the first call that raises
unfoldable pub traverse {ℓ κ μ} :
    {E : Type ℓ} {A : Type κ} {B : Type μ} → (A → Result E B) → List A → Result E (List B)
traverse f [] = ok []
traverse f (x ∷ xs) =
    let rest = traverse f xs in and_then (f x) (λ y. and_then rest (λ ys. ok (y ∷ ys)))

-- What is returned, where anything is.
abbrev pub Returns : {E A : Type 0} → (A → Type 0) → Result E A → Type 0
Returns Q (ok a) = Q a
Returns Q (err e) = Unit

pub Returns-any : {E A : Type 0} → (r : Result E A) → Returns (λ a. Unit {0}) r
Returns-any (ok a) = tt
Returns-any (err e) = tt

pub and_then-Returns :
    {E A B : Type 0}
    → (P : A → Type 0) (Q : B → Type 0) (r : Result E A) (f : A → Result E B) → Returns P r
    → ((a : A) → P a → Returns Q (f a))
    → Returns Q (and_then r f)
and_then-Returns P Q (ok a) f p k = k a p
and_then-Returns P Q (err e) f p k = tt

-- Of a call that is known to return.
pub Returns-ok :
    {E A : Type 0} → (Q : A → Type 0) (r : Result E A) (a : A) → r ≡ ok a → Returns Q r → Q a
Returns-ok Q r a e h = subst (Returns Q) e h

pub Returns-itself : {E A : Type 0} → (r : Result E A) → Returns (λ a. r ≡ ok a) r
Returns-itself (ok a) = refl
Returns-itself (err e) = tt

pub Returns-weaken :
    {E A : Type 0}
    → (P Q : A → Type 0) (r : Result E A) → ((a : A) → P a → Q a)
    → Returns P r
    → Returns Q r
Returns-weaken P Q (ok a) f h = f a h
Returns-weaken P Q (err e) f h = tt

pub or_raise-Returns :
    {E F A : Type 0}
    → (Q : A → Type 0) (f : E → F) (r : Result E A) → Returns Q r
    → Returns Q (or_raise f r)
or_raise-Returns Q f (ok a) h = h
or_raise-Returns Q f (err e) h = tt

pub Returns-both :
    {E A : Type 0}
    → (P Q : A → Type 0) (r : Result E A) → Returns P r
    → Returns Q r
    → Returns (λ a. P a × Q a) r
Returns-both P Q (ok a) h k = (h, k)
Returns-both P Q (err e) h k = tt

-- ===== src/Base/Action.antt =====
-- A method on a mutable state: it returns or raises, and what it wrote stays written.
pub mod Hoare
use holahost.Base.{◌≡◌, Bool, Result, ok, err, if◌then◌else◌}

abbrev pub Action : Type 0 → Type 0 → Type 0 → Type 0
Action S E A = S → Result E A × S

module _ {S E A : Type 0} where
  unfoldable pub pure : A → Action S E A
  pure a s = (ok a, s)

  unfoldable pub raise : E → Action S E A
  raise e s = (err e, s)

  unfoldable pub gets : (S → A) → Action S E A
  gets f s = (ok (f s), s)

  -- A value that a constructor may refuse.
  unfoldable pub lift : Result E A → Action S E A
  lift r s = (r, s)

module _ {S E A B : Type 0} where
  abbrev pub continue : Result E A → (A → Action S E B) → Action S E B
  continue (ok a) f s = f a s
  continue (err e) f s = (err e, s)

  infixl 10 ◌>>=◌ ◌>>◌
  unfoldable pub ◌>>=◌ : Action S E A → (A → Action S E B) → Action S E B
  ◌>>=◌ m f s = let (r, s') = m s in continue r f s'

  abbrev pub ◌>>◌ : Action S E A → Action S E B → Action S E B
  m >> n = m >>= λ _. n

-- `if test: raise …`
abbrev pub refuse_if : {S E : Type 0} → Bool → E → Action S E (Unit {0})
refuse_if test e = if test then raise e else pure tt

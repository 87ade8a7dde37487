-- ===== src/Base/Action/Hoare.antt =====
-- What actions keep, and what they yield.
use holahost.Base.{Bool, true, false, Result, ok, err, if◌then◌else◌}
use holahost.Base.Action.{Action, pure, raise, gets, lift, continue, ◌>>=◌}

-- The action keeps the predicate, however it ends.
pub record Keeps {S E A : Type 0} (P : S → Type 0) (m : Action S E A) : Type 0 where
  pub keeps : (s : S) → P s → P (m s).1

-- What holds of a result that is returned and of the state with it; of an error, the other.
abbrev pub Ends : {S E A : Type 0} → (A → S → Type 0) → (S → Type 0) → Result E A × S → Type 0
Ends Q R (ok a, s) = Q a s
Ends Q R (err e, s) = R s

module _ {S E A : Type 0} {P : S → Type 0} where
  pub pure-Keeps : (a : A) → Keeps {E = E} P (pure a)
  unfolding pure
  pure-Keeps a = record { keeps = λ s h. h }

  pub raise-Keeps : (e : E) → Keeps {A = A} P (raise e)
  unfolding raise
  raise-Keeps e = record { keeps = λ s h. h }

  pub gets-Keeps : (f : S → A) → Keeps {E = E} P (gets f)
  unfolding gets
  gets-Keeps f = record { keeps = λ s h. h }

  pub lift-Keeps : (r : Result E A) → Keeps P (lift r)
  unfolding lift
  lift-Keeps r = record { keeps = λ s h. h }

  pub if-Keeps :
      (b : Bool) (m n : Action S E A) → Keeps P m → Keeps P n → Keeps P (if b then m else n)
  if-Keeps true m n km kn = km
  if-Keeps false m n km kn = kn

module _ {S E A B : Type 0} {P : S → Type 0} where
  continue-Keeps :
      (r : Result E A) (f : A → Action S E B) (s : S)
      → ((a : A) → Keeps P (f a))
      → P s
      → P (continue r f s).1
  continue-Keeps (ok a) f s k h = (k a).keeps s h
  continue-Keeps (err e) f s k h = h

  pub bind-Keeps :
      (m : Action S E A) (f : A → Action S E B)
      → Keeps P m
      → ((a : A) → Keeps P (f a))
      → Keeps P (m >>= f)
  unfolding ◌>>=◌
  bind-Keeps m f km kf = record {
    keeps = λ s h. let (r, s') = m s in continue-Keeps r f s' kf (km.keeps s h);
  }

pub ruleset keeps_rules = (pure-Keeps, raise-Keeps, gets-Keeps, lift-Keeps, if-Keeps, bind-Keeps)

module _ {S E A B : Type 0} (Q : A → S → Type 0) (R : B → S → Type 0) (F : S → Type 0) where
  continue-Ends :
      (r : Result E A) (f : A → Action S E B) (s : S)
      → Ends Q F (r, s)
      → ((a : A) (s : S) → Q a s → Ends R F (f a s))
      → Ends R F (continue r f s)
  continue-Ends (ok a) f s h k = k a s h
  continue-Ends (err e) f s h k = h

  pub bind-Ends :
      (m : Action S E A) (f : A → Action S E B) (s : S)
      → Ends Q F (m s)
      → ((a : A) (s : S) → Q a s → Ends R F (f a s))
      → Ends R F ((m >>= f) s)
  unfolding ◌>>=◌
  bind-Ends m f s h k = let (r, s') = m s in continue-Ends r f s' h k

-- ===== src/Rag/Ports/Gives.antt =====
-- What a value that is returned satisfies, whatever else runs and whatever fails.
use mathlib.Core.Path.{subst}
use holahost.Base.{◌≡◌, Option, none, some, Bool, true, false, Result, ok, err, if◌then◌else◌}
use holahost.Base.Action.{gets, raise, lift, pure, continue, ◌>>=◌}
use holahost.Db.{StorageError}
use holahost.Rag.Values.{Valid}
use holahost.Rag.Values.Accepted.{Returns, Returns-any}
use holahost.Rag.Storage.{Tables, Setting}
use holahost.Rag.Data.{World, Env, Raised, runtime_error, M}
use holahost.Rag.Ports.{
  checked, enter, exit, left, closing, with_uow, asked, answered, done, statement, at_statement,
}

abbrev pub Gives : {A : Type 0} → (A → Type 0) → Result Raised A × World → Type 0
Gives Q (r, w) = Returns Q r

module _ {A : Type 0} (Q : A → Type 0) (env : Env) where
  left-Gives :
      (o : Option StorageError) (r : Result Raised A) (w : World)
      → Returns Q r
      → Gives Q (left env o r w)
  left-Gives none r w h = h
  left-Gives (some e) r w h = tt

  closing-Gives :
      (r : Result Raised (Unit {0})) (m : M A) (w : World)
      → ((w : World) → Gives Q (m w))
      → Gives Q (closing env r m w)
  unfolding exit
  closing-Gives (ok _) m w h = let (r, w') = m w in left-Gives (env.leave w'.units) r w' (h w)
  closing-Gives (err e) m w h = tt

  pub with_uow-Gives :
      (m : M A) (w : World) → ((w : World) → Gives Q (m w)) → Gives Q (with_uow env m w)
  unfolding with_uow
  with_uow-Gives m w h = let (r, w') = enter env w in closing-Gives r m w' h

  done-Gives :
      (w : World) (x : Result StorageError (A × Tables))
      → Returns (λ (y : A × Tables). Q y.0) x
      → Gives Q (done env w x)
  done-Gives w (ok (a, t)) h = h
  done-Gives w (err e) h = tt

  answered-Gives :
      (o : Option StorageError) (f : Setting → Tables → Result StorageError (A × Tables))
      (w : World)
      → ((setting : Setting) (t : Tables) → Returns (λ (y : A × Tables). Q y.0) (f setting t))
      → Gives Q (answered env o f w)
  answered-Gives none f w h = done-Gives w (f w.setting w.visible) (h w.setting w.visible)
  answered-Gives (some e) f w h = tt

  pub statement-Gives :
      (f : Setting → Tables → Result StorageError (A × Tables)) (w : World)
      → ((setting : Setting) (t : Tables) → Returns (λ (y : A × Tables). Q y.0) (f setting t))
      → Gives Q (statement env f w)
  unfolding statement gets raise ◌>>=◌
  statement-Gives f w h = both w.in_transaction
    where
      both : (b : Bool) → Gives Q ((if b then asked env f else raise runtime_error) w)
      both true = answered-Gives (env.query w.statements) f (at_statement env w) h
      both false = tt

module _ {A B : Type 0} (P : A → Type 0) (Q : B → Type 0) where
  continue-Gives :
      (r : Result Raised A) (f : A → M B) (w : World)
      → Returns P r
      → ((a : A) (w : World) → P a → Gives Q (f a w))
      → Gives Q (continue r f w)
  continue-Gives (ok a) f w h k = k a w h
  continue-Gives (err e) f w h k = tt

  pub bind-Gives :
      (m : M A) (f : A → M B) (w : World)
      → Gives P (m w)
      → ((a : A) (w : World) → P a → Gives Q (f a w))
      → Gives Q ((m >>= f) w)
  unfolding ◌>>=◌
  bind-Gives m f w h k = let (r, w') = m w in continue-Gives r f w' h k

module _ {A B : Type 0} (Q : B → Type 0) where
  pub skip-Gives :
      (m : M A) (f : A → M B) (w : World)
      → ((a : A) (w : World) → Gives Q (f a w))
      → Gives Q ((m >>= f) w)
  skip-Gives m f w k = bind-Gives (λ a. Unit) Q m f w (Returns-any _) (λ a w _. k a w)

pub checked-Gives :
    {A : Type 0} → (Q : A → Type 0) (v : Valid A) (w : World) → Returns Q v → Gives Q (checked v w)
unfolding checked lift
checked-Gives Q (ok a) w h = h
checked-Gives Q (err e) w h = tt

pub pure-Gives : {A : Type 0} → (Q : A → Type 0) (a : A) (w : World) → Q a → Gives Q (pure a w)
unfolding pure
pure-Gives Q a w h = h

-- Of a call that is known to return.
pub returned-Gives :
    {A : Type 0}
    → (Q : A → Type 0) (x : Result Raised A × World) (a : A) (w : World) → x ≡ (ok a, w)
    → Gives Q x
    → Q a
returned-Gives Q x a w e h = subst (Gives Q) e h

-- ===== src/Rag/Ports/Effects.antt =====
-- What a unit of work that returns has committed, where no other request runs and no storage fault
-- occurs.
pub mod Writes
use mathlib.Core.Path.{subst}
use holahost.Base.{
  ℕ, ◌≡◌, refl, Bool, true, false, Option, none, some, List, [], ◌∷◌, Result, ok, err,
  if◌then◌else◌, arith, map, ◌==◌,
}
use holahost.Base.Equality.{string_eq, nat_eq}
use holahost.Base.Dict.{get as get_row, get-put_self, get-remove, =?_refl}
use holahost.Base.Action.{pure, raise, gets, ◌>>=◌, refuse_if}
use holahost.Base.Action.Hoare.{Ends, bind-Ends}
use holahost.Db.{StorageError}
use holahost.Rag.Values.{DocumentId, OwnerSubject}
use holahost.Rag.Entities.{Document, Chunk}
use holahost.Rag.Storage.{
  DocumentRow, ChunkRow, Tables, Setting, insert_document, insert_chunk, insert_chunks,
  update_document, delete_chunks, delete_document,
}
use holahost.Rag.Data.{World, Env, Raised, not_found, runtime_error, M}
use holahost.Rag.Ports.{
  document_values, chunk_values, enter, exit, with_uow, statement, asked, done, changed, insert_all,
  add_chunks, add, replace_chunks, update, delete,
}

-- The environment without other requests and without faults.
abbrev pub undisturbed : Env → Env
undisturbed env = record env {
  others = λ n t. t;
  meanwhile = λ n t. t;
  connect = λ n. none;
  leave = λ n. none;
  query = λ n. none;
}

-- What holds of a value that is returned, and of the world then.
abbrev pub Yields : {A : Type 0} → (A → World → Type 0) → Result Raised A × World → Type 0
Yields Q = Ends Q (λ w. Unit)

-- What a statement returns, and the tables then.
abbrev pub Answers :
    {A : Type 0} → (A → Tables → Type 0) → Result StorageError (A × Tables) → Type 0
Answers Q (ok (a, t)) = Q a t
Answers Q (err e) = Unit

module _ {A B : Type 0} (Q : A → World → Type 0) (R : B → World → Type 0) where
  pub bind-Yields :
      (m : M A) (f : A → M B) (w : World)
      → Yields Q (m w)
      → ((a : A) (w : World) → Q a w → Yields R (f a w))
      → Yields R ((m >>= f) w)
  bind-Yields = bind-Ends Q R (λ w. Unit)

abbrev pub Any : {A : Type 0} → A → World → Type 0
Any a w = Unit

always : {A : Type 0} → (x : Result Raised A × World) → Yields Any x
always (ok a, w') = tt
always (err e, w') = tt

-- What follows from no matter what.
pub skip-Yields :
    {A B : Type 0}
    → (R : B → World → Type 0) (m : M A) (f : A → M B) (w : World)
    → ((a : A) (w' : World) → Yields R (f a w'))
    → Yields R ((m >>= f) w)
skip-Yields R m f w h = bind-Yields Any R m f w (always (m w)) (λ a w' _. h a w')

pub imply-Yields :
    {A : Type 0}
    → (Q R : A → World → Type 0) (x : Result Raised A × World)
    → ((a : A) (w : World) → Q a w → R a w)
    → Yields Q x
    → Yields R x
imply-Yields Q R (ok a, w) k h = k a w h
imply-Yields Q R (err e, w) k h = tt

-- Of a call that is known to return.
pub returned-Yields :
    {A : Type 0}
    → (Q : A → World → Type 0) (x : Result Raised A × World) (a : A) (w : World) → x ≡ (ok a, w)
    → Yields Q x
    → Q a w
returned-Yields Q x a w e h = subst (Yields Q) e h

module _ (env : Env) where
  done-Yields :
      {A : Type 0}
      → (Q : A → Setting → Tables → Type 0) (w : World) (x : Result StorageError (A × Tables))
      → Answers (λ a t. Q a w.setting t) x
      → Yields (λ a w'. Q a w'.setting w'.visible) (done (undisturbed env) w x)
  done-Yields Q w (ok (a, t)) h = h
  done-Yields Q w (err e) h = tt

  -- A statement is under the transaction's setting, which it keeps.
  pub statement_set-Yields :
      {A : Type 0}
      → (Q : A → Setting → Tables → Type 0)
        (f : Setting → Tables → Result StorageError (A × Tables)) (w : World)
      → Answers (λ a t. Q a w.setting t) (f w.setting w.visible)
      → Yields (λ a w'. Q a w'.setting w'.visible) (statement (undisturbed env) f w)
  unfolding statement gets raise ◌>>=◌
  statement_set-Yields Q f w h = both w.in_transaction
    where
      both :
          (b : Bool)
          → Yields
              (λ a w'. Q a w'.setting w'.visible)
              ((if b then asked (undisturbed env) f else raise runtime_error) w)
      both true = done-Yields Q _ (f w.setting w.visible) h
      both false = tt

  pub statement_now-Yields :
      {A : Type 0}
      → (Q : A → Tables → Type 0) (f : Setting → Tables → Result StorageError (A × Tables))
        (w : World)
      → Answers Q (f w.setting w.visible)
      → Yields (λ a w'. Q a w'.visible) (statement (undisturbed env) f w)
  statement_now-Yields Q f w h = statement_set-Yields (λ a _ t. Q a t) f w h

  -- Of any setting.
  pub statement-Yields :
      {A : Type 0}
      → (Q : A → Tables → Type 0) (f : Setting → Tables → Result StorageError (A × Tables))
        (w : World)
      → ((setting : Setting) → Answers Q (f setting w.visible))
      → Yields (λ a w'. Q a w'.visible) (statement (undisturbed env) f w)
  statement-Yields Q f w h = statement_now-Yields Q f w (h w.setting)

  pub with_uow-Yields :
      {A : Type 0}
      → (Q : A → Tables → Type 0) (m : M A) (w : World)
      → ((w' : World) → w'.visible ≡ w.committed → Yields (λ a w''. Q a w''.visible) (m w'))
      → Yields (λ a w'. Q a w'.committed) (with_uow (undisturbed env) m w)
  unfolding with_uow enter exit
  with_uow-Yields {A = A} Q m w h = leaving _ (h _ refl)
    where
      leaving :
          (x : Result Raised A × World)
          → Yields (λ a w''. Q a w''.visible) x
          → Yields (λ a w'. Q a w'.committed) (exit (undisturbed env) x.0 x.1)
      leaving (ok a, w') k = k
      leaving (err e, w') k = tt

  pub refuse-Yields :
      (test : Bool) (e : Raised) (Q : World → Type 0) (w : World)
      → (test ≡ false → Q w)
      → Yields (λ _ w'. Q w') (refuse_if test e w)
  unfolding raise pure
  refuse-Yields true e Q w h = tt
  refuse-Yields false e Q w h = h refl

-- ===== src/Rag/UseCases/Atomic.antt =====
-- Every request either commits tables in which the documents count their chunks, or nothing, where
-- no other request runs and no storage fault occurs.
use holahost.Base.{
  ℕ, zero, suc, ◌+◌, ◌≡◌, Bool, true, Option, none, some, List, [], ◌∷◌, Result, ok, err, if-cases,
  arith,
}
use holahost.Base.Action.{pure, lift, ◌>>=◌}
use holahost.Base.Action.Hoare.{
  Keeps, Ends, bind-Ends, keeps_rules, pure-Keeps, raise-Keeps, bind-Keeps,
}
use holahost.Db.Retry.{retry_on_concurrent_update}
use holahost.Rag.Values.{DocumentId, DocumentName, Embedding}
use holahost.Rag.Values.Accepted.{Returns}
use holahost.Rag.Entities.{Document}
use holahost.Rag.Storage.{Tables}
use holahost.Rag.Storage.Consistency.{IsConsistent}
use holahost.Rag.Data.{World, Env, Raised, M, TextFragment}
use holahost.Rag.Ports.Effects.{undisturbed}
use holahost.Rag.Ports.Rollback.{IsOver, IsOpen, now_utc-Keeps, fresh_uuid-Keeps, checked-Keeps}
use holahost.Rag.UseCases.{required, rename_to, new_chunk, new_chunks, is_conflict}

module _ (env : Env) (t : Tables) (V : Tables → Type 0) where
  pub required-Keeps : (d : Option Document) → Keeps (IsOver t V) (required d)
  required-Keeps none = raise-Keeps _
  required-Keeps (some d) = pure-Keeps d

  pub rename_to-Keeps :
      (name : Option DocumentName) (d : Document)
      → Keeps (IsOver t V) (rename_to (undisturbed env) name d)
  rename_to-Keeps none d = pure-Keeps d
  rename_to-Keeps (some name) d = bind-Keeps _ _ (now_utc-Keeps env t V) (λ now. pure-Keeps _)

  new_chunk-Keeps :
      (j : DocumentId) (i : ℕ) (f : TextFragment) (e : Embedding)
      → Keeps (IsOver t V) (new_chunk (undisturbed env) j i f e)
  unfolding new_chunk
  new_chunk-Keeps j i f e = search (keeps_rules, checked-Keeps env t V, fresh_uuid-Keeps)

  pub new_chunks-Keeps :
      (j : DocumentId) (i : ℕ) (fs : List TextFragment) (es : List Embedding)
      → Keeps (IsOver t V) (new_chunks (undisturbed env) j i fs es)
  unfolding new_chunks
  new_chunks-Keeps j i [] [] = pure-Keeps []
  new_chunks-Keeps j i (f ∷ fs) (e ∷ es) =
      bind-Keeps _ _ (new_chunk-Keeps j i f e)
        (λ c. bind-Keeps _ _ (new_chunks-Keeps j (i + 1) fs es) (λ cs. pure-Keeps _))
  new_chunks-Keeps j i [] (e ∷ es) = raise-Keeps _
  new_chunks-Keeps j i (f ∷ fs) [] = raise-Keeps _

-- What a request ends in: its tables are consistent, or what was committed is.
module _ (env : Env) (t : Tables) where
  abbrev pub Settles : {A : Type 0} → Result Raised A × World → Type 0
  Settles = Ends (λ a w. IsConsistent w.committed) (λ w. w.committed ≡ t)

  -- A step that commits nothing, and what it returns.
  abbrev pub Leaves : {A : Type 0} → (A → Type 0) → Result Raised A × World → Type 0
  Leaves Q = Ends (λ a w. (w.committed ≡ t) × Q a) (λ w. w.committed ≡ t)

  leaves :
      {A : Type 0}
      → (m : M A) (w : World) → Keeps (IsOpen env t) m
      → w.committed ≡ t
      → Leaves (λ a. Unit) (m w)
  leaves m w k e = both (m w) (k.keeps w (record { committed = e; visible = tt }))
    where
      both : {A : Type 0} (x : Result Raised A × World) → IsOpen env t x.1 → Leaves (λ a. Unit) x
      both (ok a, w') h = (h.committed, tt)
      both (err e, w') h = h.committed

  pub lift-Leaves :
      {A : Type 0}
      → (Q : A → Type 0) (r : Result Raised A) (w : World) → Returns Q r
      → w.committed ≡ t
      → Leaves Q (lift r w)
  unfolding lift
  lift-Leaves Q (ok a) w h e = (e, h)
  lift-Leaves Q (err x) w h e = e

  pub next-Settles :
      {A B : Type 0}
      → (Q : A → Type 0) (m : M A) (f : A → M B) (w : World) → Leaves Q (m w)
      → ((a : A) (w : World) → w.committed ≡ t → Q a → Settles (f a w))
      → Settles ((m >>= f) w)
  next-Settles Q m f w h k =
      bind-Ends (λ a w. (w.committed ≡ t) × Q a) (λ b w. IsConsistent w.committed)
        (λ w. w.committed ≡ t) m f w h (λ a w h. k a w h.0 h.1)

  pub step-Settles :
      {A B : Type 0}
      → (m : M A) (f : A → M B) (w : World) → Keeps (IsOpen env t) m
      → w.committed ≡ t
      → ((a : A) (w : World) → w.committed ≡ t → Settles (f a w))
      → Settles ((m >>= f) w)
  step-Settles m f w k e h = next-Settles (λ a. Unit) m f w (leaves m w k e) (λ a w e _. h a w e)

  pub finish-Settles :
      {A B : Type 0}
      → (m : M A) (b : A → B) (w : World) → Settles (m w)
      → Settles ((m >>= λ a. pure (b a)) w)
  unfolding pure
  finish-Settles m b w h =
      bind-Ends (λ a w. IsConsistent w.committed) (λ b w. IsConsistent w.committed)
        (λ w. w.committed ≡ t) m (λ a. pure (b a)) w h (λ a w h. h)

  pub retry-Settles :
      {A : Type 0}
      → (conflict : Result Raised A → Bool) (n : ℕ) (m : M A) (w : World) → w.committed ≡ t
      → ((w : World) → w.committed ≡ t → Settles (m w))
      → ((x : Result Raised A × World) → conflict x.0 ≡ true → Settles x → x.1.committed ≡ t)
      → Settles (retry_on_concurrent_update conflict n m w)
  unfolding retry_on_concurrent_update
  retry-Settles conflict zero m w e h k = h w e
  retry-Settles {A = A} conflict (suc n) m w e h k =
      if-cases Settles (conflict (m w).0) (retry_on_concurrent_update conflict n m (m w).1) (m w)
        (λ c. retry-Settles conflict n m (m w).1 (k (m w) c (h w e)) h k) (λ _. h w e)

  pub conflict-kept :
      {A : Type 0}
      → (x : Result Raised A × World) → is_conflict x.0 ≡ true
      → Settles x
      → x.1.committed ≡ t
  unfolding is_conflict
  conflict-kept (ok a, w) c h = ground (arith, c)
  conflict-kept (err e, w) c h = h

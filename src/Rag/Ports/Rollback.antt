-- ===== src/Rag/Ports/Rollback.antt =====
-- What stays committed while a transaction is open, where no other request runs and no storage fault
-- occurs.
use holahost.Base.{ℕ, ◌≡◌, refl, Option, none, some, List, Result, ok, err}
use holahost.Base.Action.{raise}
use holahost.Base.Action.Hoare.{
  Keeps, keeps_rules, Ends, bind-Keeps, pure-Keeps, raise-Keeps, lift-Keeps, gets-Keeps, if-Keeps,
}
use holahost.Db.{StorageError}
use holahost.Rag.Values.{DocumentId, OwnerSubject, Valid}
use holahost.Rag.Entities.{Document, Chunk}
use holahost.Rag.Storage.{DocumentRow, Tables, Setting}
use holahost.Rag.Data.{World, Env, Raised, runtime_error, M}
use holahost.Rag.Ports.{
  checked, document_from_row, now_utc, fresh_uuid, enter, exit, with_uow, done, at_statement,
  statement, asked, bind_owner, set_owner, add_chunks, add, found, get, replace_chunks, update,
  delete,
}
use holahost.Rag.Ports.Effects.{undisturbed, Answers}

-- The tables `t` are committed, and what the transaction sees satisfies the predicate.
pub record IsOver (t : Tables) (V : Tables → Type 0) (w : World) : Type 0 where
  pub committed : w.committed ≡ t
  pub visible : V w.visible

module _ (env : Env) (t : Tables) (V : Tables → Type 0) where
  abbrev P : World → Type 0
  P = IsOver t V

  pub now_utc-Keeps : Keeps P (now_utc (undisturbed env))
  unfolding now_utc
  now_utc-Keeps = record { keeps = λ w h. record { committed = h.committed; visible = h.visible } }

  pub fresh_uuid-Keeps : Keeps P (fresh_uuid (undisturbed env))
  unfolding fresh_uuid
  fresh_uuid-Keeps = record {
    keeps = λ w h. record { committed = h.committed; visible = h.visible };
  }

  pub checked-Keeps : {A : Type 0} → (v : Valid A) → Keeps P (checked v)
  unfolding checked
  checked-Keeps v = lift-Keeps _

  done-IsOver :
      {A : Type 0}
      → (w : World) (x : Result StorageError (A × Tables)) → P w
      → Answers (λ _ s. V s) x
      → P (done (undisturbed env) w x).1
  done-IsOver w (ok (a, s)) h k = record { committed = h.committed; visible = k }
  done-IsOver w (err e) h k = h

  pub statement-Keeps :
      {A : Type 0}
      → (f : Setting → Tables → Result StorageError (A × Tables))
      → ((setting : Setting) (s : Tables) → V s → Answers (λ _ s'. V s') (f setting s))
      → Keeps P (statement (undisturbed env) f)
  unfolding statement
  statement-Keeps f k = bind-Keeps _ _ (gets-Keeps _) (λ inside.
      if-Keeps inside (asked (undisturbed env) f) (raise runtime_error)
        (record {
          keeps = λ w h.
              done-IsOver (at_statement (undisturbed env) w) (f w.setting w.visible)
                (record { committed = h.committed; visible = h.visible })
                (k w.setting w.visible h.visible);
        })
        (raise-Keeps _))

  set-Keeps : (owner : OwnerSubject) → Keeps P (set_owner (undisturbed env) owner)
  set-Keeps owner = record {
    keeps = λ w h. record { committed = h.committed; visible = h.visible };
  }

  pub bind_owner-Keeps : (owner : OwnerSubject) → Keeps P (bind_owner (undisturbed env) owner)
  unfolding bind_owner
  bind_owner-Keeps owner =
      bind-Keeps _ _ (statement-Keeps _ (λ setting s h. h)) (λ _. set-Keeps owner)

  found-Keeps : (id : ℕ) (r : Option DocumentRow) → Keeps P (found (undisturbed env) id r)
  unfolding document_from_row checked
  found-Keeps id none = pure-Keeps none
  found-Keeps id (some r) = search (keeps_rules)

  pub get-Keeps :
      (owner : OwnerSubject) (id : DocumentId) → Keeps P (get (undisturbed env) owner id)
  unfolding get
  get-Keeps owner id =
      bind-Keeps _ _ (bind_owner-Keeps owner)
        (λ _. bind-Keeps _ _ (statement-Keeps _ (λ setting s h. h)) (λ r. found-Keeps id.value r))

module _ (env : Env) (t : Tables) where
  -- Whatever the transaction sees.
  abbrev pub IsOpen : World → Type 0
  IsOpen = IsOver t (λ s. Unit)

  any-Answers : {A : Type 0} → (x : Result StorageError (A × Tables)) → Answers (λ _ s. Unit) x
  any-Answers (ok (a, s)) = tt
  any-Answers (err e) = tt

  any-Keeps :
      {A : Type 0}
      → (f : Setting → Tables → Result StorageError (A × Tables))
      → Keeps IsOpen (statement (undisturbed env) f)
  any-Keeps f = statement-Keeps env t (λ s. Unit) f (λ setting s _. any-Answers (f setting s))

  add_chunks-Keeps :
      (chunks : Option (List Chunk)) (first : M (Unit {0}))
      → Keeps IsOpen first
      → Keeps IsOpen (add_chunks (undisturbed env) chunks first)
  add_chunks-Keeps none first k = raise-Keeps _
  add_chunks-Keeps (some chunks) first k = bind-Keeps _ _ k (λ _. any-Keeps _)

  replace_chunks-Keeps :
      (id : ℕ) (chunks : Option (List Chunk))
      → Keeps IsOpen (replace_chunks (undisturbed env) id chunks)
  replace_chunks-Keeps id none = pure-Keeps tt
  replace_chunks-Keeps id (some chunks) = bind-Keeps _ _ (any-Keeps _) (λ _. any-Keeps _)

  pub add-Keeps :
      (owner : OwnerSubject) (document : Document)
      → Keeps IsOpen (add (undisturbed env) owner document)
  unfolding add
  add-Keeps owner document = bind-Keeps _ _ (bind_owner-Keeps env t _ owner) (λ _.
      bind-Keeps _ _ (if-Keeps _ _ _ (raise-Keeps _) (pure-Keeps tt))
        (λ _. add_chunks-Keeps document.chunks _ (any-Keeps _)))

  pub update-Keeps :
      (owner : OwnerSubject) (document : Document)
      → Keeps IsOpen (update (undisturbed env) owner document)
  unfolding update
  update-Keeps owner document = bind-Keeps _ _ (bind_owner-Keeps env t _ owner) (λ _.
      bind-Keeps _ _ (if-Keeps _ _ _ (raise-Keeps _) (pure-Keeps tt)) (λ _.
        bind-Keeps _ _ (any-Keeps _) (λ count.
          bind-Keeps _ _ (if-Keeps _ _ _ (raise-Keeps _) (pure-Keeps tt))
            (λ _. replace_chunks-Keeps document.id.value document.chunks))))

  pub delete-Keeps :
      (owner : OwnerSubject) (id : DocumentId) → Keeps IsOpen (delete (undisturbed env) owner id)
  unfolding delete
  delete-Keeps owner id =
      bind-Keeps _ _ (bind_owner-Keeps env t _ owner) (λ _.
        bind-Keeps _ _ (any-Keeps _) (λ count. if-Keeps _ _ _ (raise-Keeps _) (pure-Keeps tt)))

  -- What is committed once a unit of work has ended: what it saw last, or what was.
  pub with_uow-Ends :
      {A : Type 0}
      → (Q : A → Tables → Type 0) (m : M A) (w : World) → w.committed ≡ t
      → Keeps IsOpen m
      → ((w' : World)
          → w'.visible ≡ w.committed
          → Ends (λ a w''. Q a w''.visible) (λ w''. Unit) (m w'))
      → Ends (λ a w'. Q a w'.committed) (λ w'. w'.committed ≡ t) (with_uow (undisturbed env) m w)
  unfolding with_uow enter exit
  with_uow-Ends {A = A} Q m w e k h =
      leaving (m _) (h _ refl) ((k.keeps _ (record { committed = e; visible = tt })).committed)
    where
      leaving :
          (x : Result Raised A × World)
          → Ends (λ a w''. Q a w''.visible) (λ w''. Unit) x
          → x.1.committed ≡ t
          → Ends
              (λ a w'. Q a w'.committed)
              (λ w'. w'.committed ≡ t)
              (exit (undisturbed env) x.0 x.1)
      leaving (ok a, w') q c = q
      leaving (err e, w') q c = c

-- ===== src/Rag/Ports/Isolation.antt =====
-- What no port touches: another owner's document, in the committed tables and in those that the
-- transaction sees.
use holahost.Base.{ℕ, ◌≡◌, refl, false, Option, none, some, List, Result, ok, err, map}
use holahost.Base.Action.{raise}
use holahost.Base.Action.Hoare.{
  Keeps, keeps_rules, pure-Keeps, raise-Keeps, lift-Keeps, if-Keeps, bind-Keeps, gets-Keeps,
}
use holahost.Db.{StorageError}
use holahost.Rag.Values.{DocumentId, OwnerSubject, Valid}
use holahost.Rag.Entities.{Document, Chunk}
use holahost.Rag.Storage.{DocumentRow, ChunkRow, Tables, Setting, permits}
use holahost.Rag.Storage.Isolation.{
  Stores, StoresOk, StoresCount, insert_document-Stores, insert_chunks-Stores,
  update_document-Stores, delete_chunks-Stores, delete_document-Stores,
}
use holahost.Rag.Data.{World, Env, Raised, runtime_error, M}
use holahost.Rag.Ports.{
  checked, document_from_row, now_utc, fresh_uuid, enter, exit, outcome, closing, with_uow, entered,
  left, asked, set_owner, answered, done, at_statement, statement, bind_owner, changed, insert_all,
  add_chunks, add, found, get, replace_chunks, update, delete, chunk_values, document_values,
}

-- The document stands in both tables, and the policy hides it from the transaction.
pub record IsApart (id : ℕ) (row : DocumentRow) (rows : List ChunkRow) (w : World) : Type 0 where
  pub committed : Stores id row rows w.committed
  pub visible : Stores id row rows w.visible
  pub hidden : permits w.setting row ≡ false

-- Of what a statement yields.
abbrev pub StoresDone :
    {A : Type 0} → ℕ → DocumentRow → List ChunkRow → Result StorageError (A × Tables) → Type 0
StoresDone id row rows (ok (a, t)) = Stores id row rows t
StoresDone id row rows (err e) = Unit

-- The other requests leave the document as it is.
pub record Spares (env : Env) (id : ℕ) (row : DocumentRow) (rows : List ChunkRow) : Type 0 where
  pub others : (n : ℕ) (t : Tables) → Stores id row rows t → Stores id row rows (env.others n t)
  pub meanwhile :
      (n : ℕ) (t : Tables) → Stores id row rows t → Stores id row rows (env.meanwhile n t)

module _ (env : Env) (id : ℕ) (row : DocumentRow) (rows : List ChunkRow)
    (spares : Spares env id row rows) where
  abbrev P : World → Type 0
  P = IsApart id row rows

  pub now_utc-Keeps : Keeps P (now_utc env)
  unfolding now_utc
  now_utc-Keeps = record {
    keeps = λ w h. record { committed = h.committed; visible = h.visible; hidden = h.hidden };
  }

  pub fresh_uuid-Keeps : Keeps P (fresh_uuid env)
  unfolding fresh_uuid
  fresh_uuid-Keeps = record {
    keeps = λ w h. record { committed = h.committed; visible = h.visible; hidden = h.hidden };
  }

  pub checked-Keeps : {A : Type 0} → (v : Valid A) → Keeps P (checked v)
  unfolding checked
  checked-Keeps v = lift-Keeps _

  entered-IsApart : (o : Option StorageError) (w : World) → P w → P (entered env o w).1
  entered-IsApart none w h = record {
    committed = spares.others w.units w.committed h.committed;
    visible = spares.others w.units w.committed h.committed;
    hidden = refl;
  }
  entered-IsApart (some e) w h = record {
    committed = h.committed;
    visible = h.visible;
    hidden = h.hidden;
  }

  outcome-Stores :
      {A : Type 0} → (r : Result Raised A) (w : World) → P w → Stores id row rows (outcome env r w)
  outcome-Stores (ok a) w h = h.visible
  outcome-Stores (err e) w h = h.committed

  left-IsApart :
      {A : Type 0}
      → (o : Option StorageError) (r : Result Raised A) (w : World) → P w
      → P (left env o r w).1
  left-IsApart none r w h = record {
    committed = outcome-Stores r w h;
    visible = outcome-Stores r w h;
    hidden = refl;
  }
  left-IsApart (some e) r w h = record {
    committed = h.committed;
    visible = h.committed;
    hidden = refl;
  }

  closing-IsApart :
      {A : Type 0}
      → (r : Result Raised (Unit {0})) (m : M A) (w : World) → Keeps P m
      → P w
      → P (closing env r m w).1
  unfolding exit
  closing-IsApart (ok _) m w k h =
      let (r', w'') = m w in left-IsApart (env.leave w''.units) r' w'' (k.keeps w h)
  closing-IsApart (err e) m w k h = h

  pub with_uow-Keeps : {A : Type 0} → (m : M A) → Keeps P m → Keeps P (with_uow env m)
  unfolding with_uow enter
  with_uow-Keeps m k = record {
    keeps = λ w h.
        let (r, w') = enter env w in
        closing-IsApart r m w' k (entered-IsApart (env.connect w.units) w h);
  }

  done-IsApart :
      {A : Type 0}
      → (x : Result StorageError (A × Tables)) (w : World) → StoresDone id row rows x
      → P w
      → P (done env w x).1
  done-IsApart (ok (a, t)) w s h = record {
    committed = h.committed;
    visible = s;
    hidden = h.hidden;
  }
  done-IsApart (err e) w s h = h

  at_statement-IsApart : (w : World) → P w → P (at_statement env w)
  at_statement-IsApart w h = record {
    committed = spares.meanwhile w.statements w.committed h.committed;
    visible = spares.meanwhile w.statements w.visible h.visible;
    hidden = h.hidden;
  }

  -- What a statement under a setting that hides the document leaves of it.
  abbrev pub Harmless :
      {A : Type 0} → (Setting → Tables → Result StorageError (A × Tables)) → Type 0
  Harmless f =
      (setting : Setting) (t : Tables)
      → permits setting row ≡ false
      → Stores id row rows t
      → StoresDone id row rows (f setting t)

  answered-IsApart :
      {A : Type 0}
      → (o : Option StorageError) (f : Setting → Tables → Result StorageError (A × Tables))
        (w : World)
      → Harmless f
      → P w
      → P (answered env o f w).1
  answered-IsApart none f w k h =
      done-IsApart (f w.setting w.visible) w (k w.setting w.visible h.hidden h.visible) h
  answered-IsApart (some e) f w k h = h

  pub statement-Keeps :
      {A : Type 0}
      → (f : Setting → Tables → Result StorageError (A × Tables)) → Harmless f
      → Keeps P (statement env f)
  unfolding statement
  statement-Keeps f k = bind-Keeps _ _ (gets-Keeps _) (λ inside.
      if-Keeps inside (asked env f) (raise runtime_error)
        (record {
          keeps = λ w h.
              answered-IsApart (env.query w.statements) f (at_statement env w) k
                (at_statement-IsApart w h);
        })
        (raise-Keeps _))

  set-Keeps :
      (owner : OwnerSubject)
      → permits (some owner.value) row ≡ false
      → Keeps P (set_owner env owner)
  set-Keeps owner k = record {
    keeps = λ w h. record { committed = h.committed; visible = h.visible; hidden = k };
  }

  -- Binding an owner that the policy hides the document from.
  pub bind_owner-Keeps :
      (owner : OwnerSubject)
      → permits (some owner.value) row ≡ false
      → Keeps P (bind_owner env owner)
  unfolding bind_owner
  bind_owner-Keeps owner k =
      bind-Keeps _ _ (statement-Keeps _ (λ setting t h s. s)) (λ _. set-Keeps owner k)

  ok-Done :
      {A : Type 0}
      → (a : A) (x : Result StorageError Tables) → StoresOk id row rows x
      → StoresDone id row rows (changed env x)
  ok-Done a (ok t) h = h
  ok-Done a (err e) h = h

  count-Done :
      (x : Result StorageError (ℕ × Tables)) → StoresCount id row rows x → StoresDone id row rows x
  count-Done (ok (n, t)) h = h
  count-Done (err e) h = h

  insert_all-Keeps : (chunks : List Chunk) → Keeps P (insert_all env chunks)
  insert_all-Keeps chunks = statement-Keeps _ (λ setting t k s.
      ok-Done tt _ (insert_chunks-Stores setting id row rows k (map chunk_values chunks) t s))

  add_chunks-Keeps :
      (chunks : Option (List Chunk)) (first : M (Unit {0}))
      → Keeps P first
      → Keeps P (add_chunks env chunks first)
  add_chunks-Keeps none first k = raise-Keeps _
  add_chunks-Keeps (some chunks) first k = bind-Keeps _ _ k (λ _. insert_all-Keeps chunks)

  replace_chunks-Keeps :
      (j : ℕ) (chunks : Option (List Chunk)) → Keeps P (replace_chunks env j chunks)
  replace_chunks-Keeps j none = pure-Keeps tt
  replace_chunks-Keeps j (some chunks) =
      bind-Keeps _ _
        (statement-Keeps _ (λ setting t k s. delete_chunks-Stores setting id row rows k j t s))
        (λ _. insert_all-Keeps chunks)

  found-Keeps : (j : ℕ) (r : Option DocumentRow) → Keeps P (found env j r)
  unfolding document_from_row checked
  found-Keeps j none = pure-Keeps none
  found-Keeps j (some r) = search (keeps_rules)

  module _ (owner : OwnerSubject) (hidden : permits (some owner.value) row ≡ false) where
    pub get-Keeps : (j : DocumentId) → Keeps P (get env owner j)
    unfolding get
    get-Keeps j =
        bind-Keeps _ _ (bind_owner-Keeps owner hidden) (λ _.
          bind-Keeps _ _ (statement-Keeps _ (λ setting t k s. s)) (λ r. found-Keeps j.value r))

    pub add-Keeps : (document : Document) → Keeps P (add env owner document)
    unfolding add
    add-Keeps document = bind-Keeps _ _ (bind_owner-Keeps owner hidden) (λ _.
        bind-Keeps _ _ (if-Keeps _ _ _ (raise-Keeps _) (pure-Keeps tt)) (λ _.
          add_chunks-Keeps document.chunks _ (
            statement-Keeps _ (λ setting t k s. ok-Done tt _ (
              insert_document-Stores setting id row rows k document.id.value
                (document_values document) t s)))))

    pub update-Keeps : (document : Document) → Keeps P (update env owner document)
    unfolding update
    update-Keeps document = bind-Keeps _ _ (bind_owner-Keeps owner hidden) (λ _.
        bind-Keeps _ _ (if-Keeps _ _ _ (raise-Keeps _) (pure-Keeps tt)) (λ _.
          bind-Keeps _ _
            (statement-Keeps _ (λ setting t k s. count-Done _ (
              update_document-Stores setting id row rows k document.id.value
                (document_values document) t s)))
            (λ count.
              bind-Keeps _ _ (if-Keeps _ _ _ (raise-Keeps _) (pure-Keeps tt))
                (λ _. replace_chunks-Keeps document.id.value document.chunks))))

    pub delete-Keeps : (j : DocumentId) → Keeps P (delete env owner j)
    unfolding delete
    delete-Keeps j = bind-Keeps _ _ (bind_owner-Keeps owner hidden) (λ _.
        bind-Keeps _ _
          (statement-Keeps _
            (λ setting t k s. delete_document-Stores setting id row rows k j.value t s))
          (λ count. if-Keeps _ _ _ (raise-Keeps _) (pure-Keeps tt)))

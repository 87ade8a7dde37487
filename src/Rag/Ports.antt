-- ===== src/Rag/Ports.antt =====
-- The unit of work (libs/holahost-db/holahost_db/uow.py) with row-level security
-- (holahost_db/rls.py), and the adapters of the repository and of the search (infrastructure/db,
-- infrastructure/vector).
pub mod Isolation
pub mod Whole
pub mod Counts
pub mod Rollback
pub mod Gives
pub mod Effects
use holahost.Base.{
  ℕ, ◌+◌, String, Bool, true, false, ◌&&◌, not, Option, none, some, List, [], ◌∷◌, map, keep,
  Result, ok, err, leb, ◌==◌, if◌then◌else◌,
}
use holahost.Base.Int.{ℤ, pos, ◌-ℤ◌, sub_ℕ, leb_ℤ}
use holahost.Base.Equality.{Eq, ◌=?◌, string_eq}
use holahost.Base.Action.{pure, raise, gets, lift, ◌>>=◌, ◌>>◌, refuse_if}
use holahost.Db.{StorageError}
use holahost.Rag.Values.{
  Valid, DocumentId, ChunkId, OwnerSubject, Embedding, make_owner_subject, make_document_name,
  make_mime_type, make_page_number, make_similarity_score, billion,
}
use holahost.Rag.Entities.{Document, Chunk, document_from_repo}
use holahost.Rag.Storage.{
  DocumentRow, ChunkRow, Tables, Setting, sees, insert_document, insert_chunks, select_document,
  update_document, delete_chunks, delete_document, chunks_of,
}
use holahost.Rag.Data.{M, World, Env, Raised, domain, not_found, storage, runtime_error, SearchHit}

-- A value that a domain constructor may refuse.
abbrev pub or_domain : {A : Type 0} → Valid A → Result Raised A
or_domain (ok a) = ok a
or_domain (err e) = err (domain e)

unfoldable pub checked : {A : Type 0} → Valid A → M A
checked v = lift (or_domain v)

-- `_document_values`
abbrev pub document_values : Document → DocumentRow
document_values d = record {
  owner_subject = d.owner.value;
  name = d.name.value;
  mime_type = d.mime_type.value;
  chunk_count = d.chunk_count;
  created_at = d.created_at;
  updated_at = d.updated_at;
}

-- `_chunk_values`
abbrev pub chunk_values : Chunk → ChunkRow
chunk_values c = record {
  id = c.id.value;
  document_id = c.document_id.value;
  idx = c.index.value;
  text = c.text;
  page = c.page.value;
  embedding = c.embedding.value;
}

-- `_document_from_row`
unfoldable pub document_from_row : ℕ → DocumentRow → M Document
document_from_row id row = do
  owner ← checked (make_owner_subject row.owner_subject)
  name ← checked (make_document_name row.name)
  mime_type ← checked (make_mime_type row.mime_type)
  pure (
      document_from_repo (record { value = id }) owner name mime_type row.chunk_count row.created_at
        row.updated_at)

module _ (env : Env) where
  unfoldable pub now_utc : M ℕ
  now_utc w = (ok (env.now w.instants), record w { instants = w.instants + 1 })

  unfoldable pub fresh_uuid : M ℕ
  fresh_uuid w = (ok (env.fresh w.identifiers), record w { identifiers = w.identifiers + 1 })

  abbrev pub entered : Option StorageError → M (Unit {0})
  entered (some e) w = (err (storage e), record w { units = w.units + 1 })
  entered none w =
      let t = env.others w.units w.committed in
      (
        ok tt,
        record w {
          units = w.units + 1;
          in_transaction = true;
          setting = none;
          committed = t;
          visible = t;
        },
      )

  -- `SqlAlchemyUnitOfWork.__enter__`
  unfoldable pub enter : M (Unit {0})
  enter w = entered (env.connect w.units) w

  abbrev pub closed : World → Tables → World
  closed w t = record w { in_transaction = false; setting = none; committed = t; visible = t }

  -- What leaving commits: the transaction's tables, or nothing of it.
  abbrev pub outcome : {A : Type 0} → Result Raised A → World → Tables
  outcome (ok _) w = w.visible
  outcome (err _) w = w.committed

  abbrev pub left : {A : Type 0} → Option StorageError → Result Raised A → M A
  left (some e) r w = (err (storage e), closed w w.committed)
  left none r w = (r, closed w (outcome r w))

  -- `SqlAlchemyUnitOfWork.__exit__`
  unfoldable pub exit : {A : Type 0} → Result Raised A → M A
  exit r w = left (env.leave w.units) r w

  abbrev pub closing : {A : Type 0} → Result Raised (Unit {0}) → M A → M A
  closing (ok _) m w = let (r, w') = m w in exit r w'
  closing (err e) m w = (err e, w)

  -- `with self.uow: …`
  unfoldable pub with_uow : {A : Type 0} → M A → M A
  with_uow m w = let (r, w') = enter w in closing r m w'

  abbrev pub done :
      {A : Type 0} → World → Result StorageError (A × Tables) → Result Raised A × World
  done w (ok (a, t)) = (ok a, record w { visible = t })
  done w (err e) = (err (storage e), w)

  -- The world in which the next statement runs.
  abbrev pub at_statement : World → World
  at_statement w = record w {
    statements = w.statements + 1;
    committed = env.meanwhile w.statements w.committed;
    visible = env.meanwhile w.statements w.visible;
  }

  abbrev pub answered :
      {A : Type 0}
      → Option StorageError
      → (Setting → Tables → Result StorageError (A × Tables))
      → M A
  answered (some e) f w = (err (storage e), w)
  answered none f w = done w (f w.setting w.visible)

  abbrev pub asked : {A : Type 0} → (Setting → Tables → Result StorageError (A × Tables)) → M A
  asked f w = answered (env.query w.statements) f (at_statement w)

  -- A statement on `uow.connection()`, under `translate_db_errors`.
  unfoldable pub statement :
      {A : Type 0} → (Setting → Tables → Result StorageError (A × Tables)) → M A
  statement f = do
    inside ← gets (λ (w : World). w.in_transaction)
    if inside then asked f else raise runtime_error

  abbrev pub set_owner : OwnerSubject → M (Unit {0})
  set_owner owner w = (ok tt, record w { setting = some owner.value })

  -- `bind_rls_owner`: `set_config` of the setting, local to the transaction
  unfoldable pub bind_owner : OwnerSubject → M (Unit {0})
  bind_owner owner = do statement (λ setting t. ok (tt, t)); set_owner owner

  -- Statements that change the tables or fail.
  abbrev pub changed : Result StorageError Tables → Result StorageError (Unit {0} × Tables)
  changed (ok t) = ok (tt, t)
  changed (err e) = err e

  abbrev pub insert_all : List Chunk → M (Unit {0})
  insert_all chunks =
      statement (λ setting t. changed (insert_chunks setting (map chunk_values chunks) t))

  abbrev pub add_chunks : Option (List Chunk) → M (Unit {0}) → M (Unit {0})
  add_chunks none first = raise runtime_error
  add_chunks (some chunks) first = first >> insert_all chunks

  -- `DocumentsRepo.add`, with `_add_impl`
  unfoldable pub add : OwnerSubject → Document → M (Unit {0})
  add owner document = do
    bind_owner owner
    refuse_if (not (document.owner.value =? owner.value)) runtime_error
    add_chunks document.chunks (
        statement (λ setting t.
          changed (insert_document setting document.id.value (document_values document) t)))

  abbrev pub found : ℕ → Option DocumentRow → M (Option Document)
  found id none = pure none
  found id (some row) = do document ← document_from_row id row; pure (some document)

  -- `DocumentsRepo.get`, with `_get_impl`; a lock changes nothing that is read
  unfoldable pub get : OwnerSubject → DocumentId → M (Option Document)
  get owner id = do
    bind_owner owner
    row ← statement (λ setting t. ok (select_document setting id.value t, t))
    found id.value row

  abbrev pub replace_chunks : ℕ → Option (List Chunk) → M (Unit {0})
  replace_chunks id none = pure tt
  replace_chunks id (some chunks) = do
    statement (λ setting t. ok (tt, delete_chunks setting id t))
    insert_all chunks

  -- `DocumentsRepo.update`, with `_update_impl`
  unfoldable pub update : OwnerSubject → Document → M (Unit {0})
  update owner document = do
    bind_owner owner
    refuse_if (not (document.owner.value =? owner.value)) runtime_error
    rowcount ←
        statement
          (λ setting t. update_document setting document.id.value (document_values document) t)
    refuse_if (rowcount == 0) not_found
    replace_chunks document.id.value document.chunks

  -- `DocumentsRepo.delete`, with `_delete_impl`
  unfoldable pub delete : OwnerSubject → DocumentId → M (Unit {0})
  delete owner id = do
    bind_owner owner
    rowcount ← statement (λ setting t. ok (delete_document setting id.value t))
    refuse_if (rowcount == 0) not_found

-- ===== src/Rag/Storage.antt =====
-- The two tables (infrastructure/db/schema.py) under the row-level security of the migration
-- (migrations/versions/20260809_1200_create_documents_and_chunks.py), and what the statements of the adapters do to
-- them. The documents are keyed by their primary key; a setting is `app.current_owner` of the
-- transaction, if it is set. A statement that breaks a constraint or a policy changes nothing.
pub mod Isolation
pub mod Consistency
pub mod Counting
use Prim.Native.Char.{code}
use holahost.Base.{
  ℕ, ◌+◌, String, Bool, true, false, ◌&&◌, ◌||◌, not, Option, none, some, List, [], ◌∷◌, ◌++◌,
  Result, ok, err, ltb, leb, ◌==◌, any, keep, is_some, if◌then◌else◌,
}
use holahost.Base.Equality.{Eq, ◌=?◌, string_eq, nat_eq}
use holahost.Base.Dict.{Dict, get, put, remove}
use holahost.Rag.Values.{Float}
use holahost.Db.{StorageError, integrity}

pub record DocumentRow : Type 0 where
  pub owner_subject : String
  pub name : String
  pub mime_type : String
  pub chunk_count : ℕ
  pub created_at : ℕ
  pub updated_at : ℕ

pub record ChunkRow : Type 0 where
  pub id : ℕ
  pub document_id : ℕ
  pub idx : ℕ
  pub text : String
  pub page : Option ℕ
  pub embedding : List Float

pub record Tables : Type 0 where
  pub documents : Dict ℕ DocumentRow
  pub chunks : List ChunkRow

abbrev pub Setting : Type 0
Setting = Option String

-- The policy of `documents`: `owner_subject = current_setting('app.current_owner', true)`
abbrev pub permits : Setting → DocumentRow → Bool
permits none row = false
permits (some owner) row = row.owner_subject =? owner

abbrev pub permits_some : Setting → Option DocumentRow → Bool
permits_some setting none = false
permits_some setting (some row) = permits setting row

-- `SELECT id FROM documents` has it, as the setting sees the table.
abbrev pub sees : Setting → ℕ → Tables → Bool
sees setting id t = permits_some setting (get id t.documents)

-- `btrim(value) = ''`, which trims spaces only
unfoldable pub is_btrim_blank : String → Bool
is_btrim_blank String.[] = true
is_btrim_blank (String.◌∷◌ c s) = code c == 32 && is_btrim_blank s

-- The check constraints of `documents`, and of `chunks`.
abbrev pub document_checks : DocumentRow → Bool
document_checks row =
    not (is_btrim_blank row.name) && leb 1 row.chunk_count && leb row.created_at row.updated_at

abbrev pub page_check : Option ℕ → Bool
page_check none = true
page_check (some page) = leb 1 page

abbrev pub chunk_checks : ChunkRow → Bool
chunk_checks row = not (is_btrim_blank row.text) && page_check row.page

-- `INSERT INTO documents`
unfoldable pub insert_document : Setting → ℕ → DocumentRow → Tables → Result StorageError Tables
insert_document setting id row t =
    if permits setting row && not (is_some (get id t.documents)) && document_checks row
    then ok (record t { documents = put id row t.documents })
    else err integrity

-- The primary key of `chunks`, and `chunks_document_idx_uniq`.
abbrev pub clashes : ChunkRow → ChunkRow → Bool
clashes row other =
    other.id == row.id || other.document_id == row.document_id && other.idx == row.idx

-- `INSERT INTO chunks`, of one row
unfoldable pub insert_chunk : Setting → ChunkRow → Tables → Result StorageError Tables
unfolding any
insert_chunk setting row t =
    if sees setting row.document_id t && not (any (clashes row) t.chunks) && chunk_checks row
    then ok (record t { chunks = t.chunks ++ row ∷ [] })
    else err integrity

-- `INSERT INTO chunks`, of each row in turn
unfoldable pub insert_chunks : Setting → List ChunkRow → Tables → Result StorageError Tables
insert_chunks setting [] t = ok t
insert_chunks setting (row ∷ rows) t = elim (insert_chunk setting row t) [
  | ok t' ↦ insert_chunks setting rows t'
  | err e ↦ err e
]

-- `SELECT … FROM documents WHERE id = …`
unfoldable pub select_document : Setting → ℕ → Tables → Option DocumentRow
select_document setting id t = if sees setting id t then get id t.documents else none

-- `UPDATE documents SET … WHERE id = …`: the number of rows, and the tables
unfoldable pub update_document :
    Setting → ℕ → DocumentRow → Tables → Result StorageError (ℕ × Tables)
update_document setting id row t =
    if not (sees setting id t)
    then ok (0, t)
    else if permits setting row && document_checks row
    then ok (1, record t { documents = put id row t.documents })
    else err integrity

-- `DELETE FROM chunks WHERE document_id = …`
unfoldable pub delete_chunks : Setting → ℕ → Tables → Tables
unfolding keep
delete_chunks setting id t =
    if sees setting id t
    then record t { chunks = keep (λ (row : ChunkRow). not (row.document_id == id)) t.chunks }
    else t

-- `DELETE FROM documents WHERE id = …`, with the cascade to the chunks
unfoldable pub delete_document : Setting → ℕ → Tables → ℕ × Tables
unfolding keep
delete_document setting id t =
    if sees setting id t
    then (
      1,
      record {
        documents = remove id t.documents;
        chunks = keep (λ (row : ChunkRow). not (row.document_id == id)) t.chunks;
      },
    )
    else (0, t)

-- The chunks of a document.
unfoldable pub chunks_of : ℕ → Tables → List ChunkRow
unfolding keep
chunks_of id t = keep (λ (row : ChunkRow). row.document_id == id) t.chunks

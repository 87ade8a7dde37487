-- ===== src/Rag/Entities.antt =====
-- `Chunk` and `Document` (domain/entities). The clock and the fresh identifiers are arguments.
use holahost.Base.{
  ℕ, String, not, Option, none, some, List, ok, err, ltb, ◌==◌, any, length, if◌then◌else◌,
}
use holahost.Base.Text.{is_blank}
use holahost.Rag.Values.{
  Valid, chunk_count_exceeded, defect, DocumentId, ChunkId, OwnerSubject, DocumentName, MimeType,
  ChunkIndex, PageNumber, Embedding,
}

pub record Chunk : Type 0 where
  pub id : ChunkId
  pub document_id : DocumentId
  pub index : ChunkIndex
  pub text : String
  pub embedding : Embedding
  pub page : PageNumber

-- `Chunk.create`, given its fresh identifier, with `__post_init__`
unfoldable pub create_chunk :
    ChunkId → DocumentId → ChunkIndex → String → Embedding → PageNumber → Valid Chunk
create_chunk id document_id index text embedding page =
    if is_blank text
    then defect
    else ok (record {
      id = id;
      document_id = document_id;
      index = index;
      text = text;
      embedding = embedding;
      page = page;
    })

-- Instants are microseconds since the epoch, UTC.
pub record Document : Type 0 where
  pub id : DocumentId
  pub owner : OwnerSubject
  pub name : DocumentName
  pub mime_type : MimeType
  pub chunk_count : ℕ
  pub created_at : ℕ
  pub updated_at : ℕ
  pub chunks : Option (List Chunk)

abbrev pub max_chunks_per_document : ℕ
max_chunks_per_document = 500

-- `_validate_chunks`
unfoldable pub validate_chunks : DocumentId → List Chunk → Valid (Unit {0})
unfolding any
validate_chunks document_id chunks =
    if length chunks == 0
    then defect
    else if ltb max_chunks_per_document (length chunks)
    then err (chunk_count_exceeded max_chunks_per_document)
    else if any (λ (chunk : Chunk). not (chunk.document_id.value == document_id.value)) chunks
    then defect
    else ok tt

abbrev pub when_valid : {A : Type 0} → Valid (Unit {0}) → A → Valid A
when_valid (ok _) a = ok a
when_valid (err e) a = err e

-- `Document.create`
unfoldable pub create_document :
    DocumentId → OwnerSubject → DocumentName → MimeType → List Chunk → ℕ → Valid Document
unfolding validate_chunks
create_document id owner name mime_type chunks now =
    when_valid (validate_chunks id chunks) (record {
      id = id;
      owner = owner;
      name = name;
      mime_type = mime_type;
      chunk_count = length chunks;
      created_at = now;
      updated_at = now;
      chunks = some chunks;
    })

-- `Document.from_repo`
unfoldable pub document_from_repo :
    DocumentId → OwnerSubject → DocumentName → MimeType → ℕ → ℕ → ℕ → Document
document_from_repo id owner name mime_type chunk_count created_at updated_at = record {
  id = id;
  owner = owner;
  name = name;
  mime_type = mime_type;
  chunk_count = chunk_count;
  created_at = created_at;
  updated_at = updated_at;
  chunks = none;
}

-- `Document.rename`
unfoldable pub rename : DocumentName → ℕ → Document → Document
rename name now document = record document { name = name; updated_at = now }

-- `Document.replace_content`
unfoldable pub replace_content : MimeType → List Chunk → ℕ → Document → Valid Document
unfolding validate_chunks
replace_content mime_type chunks now document =
    when_valid (validate_chunks document.id chunks) (record document {
      mime_type = mime_type;
      chunk_count = length chunks;
      chunks = some chunks;
      updated_at = now;
    })

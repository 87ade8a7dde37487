-- ===== src/Rag/UseCases.antt =====
-- The use cases of application/use_cases, application/limits.py and `DocumentView.of`
-- (application/dto/documents.py).
pub mod Isolation
pub mod Settled
pub mod Atomic
pub mod Unseen
pub mod Reread
pub mod Replaced
pub mod RoundTrip
use Prim.Native.String.{count}
use holahost.Base.{
  ℕ, ◌+◌, String, Bool, true, false, ◌||◌, Option, none, some, List, [], ◌∷◌, map, Result, ok, err,
  ltb, ◌==◌, length, or_raise, and_then, if◌then◌else◌,
}
use holahost.Base.Int.{ℤ, pos}
use holahost.Base.Text.{is_blank}
use holahost.Base.Action.{pure, raise, lift, ◌>>=◌, ◌>>◌, refuse_if}
use holahost.Db.{concurrent_update}
use holahost.Db.Retry.{retry_on_concurrent_update, default_max_retries}
use holahost.Rag.Values.{
  DomainError, domain_validation, chunk_count_exceeded, field_of, DocumentId, MimeType,
  DocumentName, max_document_name_length, Embedding, OwnerSubject, make_mime_type,
  make_document_name, make_owner_subject, make_chunk_index, allowed_mime_types,
}
use holahost.Rag.Entities.{
  Document, Chunk, create_chunk, create_document, rename, replace_content, max_chunks_per_document,
}
use holahost.Rag.Data.{
  Bytes, M, Env, Raised, domain, not_found, unsupported_media_type, invalid_payload,
  upload_too_large, parsed_text_too_large, empty_document, too_many_chunks, storage, value_error,
  TextFragment, DocumentView, SearchHit, SearchHitView, CreateDocumentCmd, ReplaceDocumentCmd,
  GetDocumentCmd, DeleteDocumentCmd, SearchCmd,
}
use holahost.Rag.Ports.{checked, now_utc, fresh_uuid, with_uow, add, get, update, delete}
use holahost.Rag.Ingestion.{parse, split, embed_texts, embed_query}
use holahost.Rag.Search.{top_k}

abbrev pub max_upload_size : ℕ
max_upload_size = 8_388_608

abbrev pub min_extracted_text_chars : ℕ
min_extracted_text_chars = 200

abbrev pub max_parsed_text_length : ℕ
max_parsed_text_length = 200_000

unfoldable pub supported_mime_type : String → Result Raised MimeType
supported_mime_type value =
    or_raise (λ _. unsupported_media_type allowed_mime_types) (make_mime_type value)

-- `e.field or "name"`
abbrev or_name : Option String → String
or_name none = "name"
or_name (some field) = field

unfoldable pub acceptable_name : String → Result Raised DocumentName
acceptable_name value =
    or_raise (λ e. invalid_payload (or_name (field_of e)) max_document_name_length)
      (make_document_name value)

unfoldable pub acceptable_new_name : Option String → Result Raised (Option DocumentName)
acceptable_new_name none = ok none
acceptable_new_name (some value) = and_then (acceptable_name value) (λ name. ok (some name))

-- `sum(len(f.text) for f in fragments)`
unfoldable pub total_chars : List TextFragment → ℕ
total_chars [] = 0
total_chars (f ∷ fs) = count f.text + total_chars fs

-- `except ChunkCountExceededError`; the other invariants are internal defects
abbrev pub chunk_error : ℕ → DomainError → Raised
chunk_error actual (chunk_count_exceeded limit) = too_many_chunks max_chunks_per_document actual
chunk_error actual (domain_validation field) = domain (domain_validation field)

abbrev pub required : Option Document → M Document
required none = raise not_found
required (some document) = pure document

unfoldable pub is_conflict : {A : Type 0} → Result Raised A → Bool
is_conflict (err (storage concurrent_update)) = true
is_conflict _ = false

module _ (env : Env) where
  -- `DocumentId.from_str`
  unfoldable pub document_id_from_str : String → Result Raised DocumentId
  document_id_from_str s = elim (env.parse_uuid s) [
    | none ↦ err value_error
    | some value ↦ ok (record { value = value })
  ]

  -- `DocumentView.of`
  unfoldable pub view_of : Document → DocumentView
  view_of d = record {
    document_id = env.print_uuid d.id.value;
    name = d.name.value;
    mime_type = d.mime_type.value;
    chunk_count = d.chunk_count;
    created_at = d.created_at;
    updated_at = d.updated_at;
  }

  -- The pipeline of create and of replace: the chunks' texts and pages, and their embeddings.
  unfoldable pub prepare : Bytes → MimeType → Result Raised (List TextFragment × List Embedding)
  unfolding total_chars
  prepare content mime_type =
      if ltb max_upload_size (length content)
      then err (upload_too_large max_upload_size (length content))
      else and_then (parse env content mime_type) (λ fragments.
        if ltb (total_chars fragments) min_extracted_text_chars
        then err (empty_document min_extracted_text_chars)
        else if ltb max_parsed_text_length (total_chars fragments)
        then err (parsed_text_too_large max_parsed_text_length (total_chars fragments))
        else and_then (split env fragments) (λ chunks.
          if ltb max_chunks_per_document (length chunks)
          then err (too_many_chunks max_chunks_per_document (length chunks))
          else and_then (embed_texts env (map (λ (c : TextFragment). c.text) chunks))
              (λ embeddings. ok (chunks, embeddings))))

  -- `Chunk.create(document_id, ChunkIndex(i), fragment.text, embedding, fragment.page)`
  unfoldable pub new_chunk : DocumentId → ℕ → TextFragment → Embedding → M Chunk
  new_chunk document_id i fragment embedding = do
    index ← checked (make_chunk_index (pos i))
    id ← fresh_uuid env
    checked (
        create_chunk (record { value = id }) document_id index fragment.text embedding
          fragment.page)

  -- `new_chunks`, of `enumerate(zip(chunks, embeddings, strict=True))`
  unfoldable pub new_chunks : DocumentId → ℕ → List TextFragment → List Embedding → M (List Chunk)
  new_chunks document_id i [] [] = pure []
  new_chunks document_id i (fragment ∷ fragments) (embedding ∷ embeddings) = do
    chunk ← new_chunk document_id i fragment embedding
    chunks ← new_chunks document_id (i + 1) fragments embeddings
    pure (chunk ∷ chunks)
  new_chunks document_id i [] (embedding ∷ embeddings) = raise value_error
  new_chunks document_id i (fragment ∷ fragments) [] = raise value_error

  -- `CreateDocumentUseCase.execute`
  unfoldable pub create_document_use_case : CreateDocumentCmd → M DocumentView
  create_document_use_case cmd = do
    mime_type ← lift (supported_mime_type cmd.mime_type)
    name ← lift (acceptable_name cmd.name)
    (chunks, embeddings) ← lift (prepare cmd.content mime_type)
    owner ← checked (make_owner_subject cmd.owner)
    id ← fresh_uuid env
    parts ← new_chunks (record { value = id }) 0 chunks embeddings
    now ← now_utc env
    document ← lift (
        or_raise (chunk_error (length chunks))
          (create_document (record { value = id }) owner name mime_type parts now))
    with_uow env (add env owner document)
    pure (view_of document)

  -- `if new_name is not None: document.rename(new_name)`
  abbrev pub rename_to : Option DocumentName → Document → M Document
  rename_to none document = pure document
  rename_to (some name) document = do now ← now_utc env; pure (rename name now document)

  -- `_write`
  unfoldable pub write :
      OwnerSubject → DocumentId → Option DocumentName → MimeType → List Chunk → M Document
  write owner id new_name mime_type chunks = with_uow env (do
    existing ← get env owner id
    found ← required existing
    renamed ← rename_to new_name found
    now ← now_utc env
    document ←
        lift (or_raise (chunk_error (length chunks)) (replace_content mime_type chunks now renamed))
    update env owner document
    pure document)

  -- `ReplaceDocumentUseCase.execute`
  unfoldable pub replace_document_use_case : ReplaceDocumentCmd → M DocumentView
  replace_document_use_case cmd = do
    owner ← checked (make_owner_subject cmd.owner)
    id ← lift (document_id_from_str cmd.document_id)
    with_uow env (get env owner id >>= required)
    mime_type ← lift (supported_mime_type cmd.mime_type)
    new_name ← lift (acceptable_new_name cmd.name)
    (chunks, embeddings) ← lift (prepare cmd.content mime_type)
    parts ← new_chunks id 0 chunks embeddings
    document ←
        retry_on_concurrent_update is_conflict default_max_retries
          (write owner id new_name mime_type parts)
    pure (view_of document)

  -- `GetDocumentUseCase.execute`
  unfoldable pub get_document_use_case : GetDocumentCmd → M DocumentView
  get_document_use_case cmd = do
    owner ← checked (make_owner_subject cmd.owner)
    document ← with_uow env (do
      id ← lift (document_id_from_str cmd.document_id)
      existing ← get env owner id
      required existing)
    pure (view_of document)

  -- `_delete`
  unfoldable pub delete_once : OwnerSubject → DocumentId → M (Unit {0})
  delete_once owner id =
      with_uow env (do existing ← get env owner id; required existing; delete env owner id)

  -- `DeleteDocumentUseCase.execute`
  unfoldable pub delete_document_use_case : DeleteDocumentCmd → M (Unit {0})
  delete_document_use_case cmd = do
    id ← lift (document_id_from_str cmd.document_id)
    owner ← checked (make_owner_subject cmd.owner)
    retry_on_concurrent_update is_conflict default_max_retries (delete_once owner id)

  -- `SearchHitView(…)` of a hit
  abbrev pub hit_view : SearchHit → SearchHitView
  hit_view h = record {
    chunk_id = env.print_uuid h.chunk_id.value;
    text = h.text;
    page = h.page.value;
    score = h.score.value;
  }

  -- `SearchDocumentUseCase.execute`, of its three parameters
  unfoldable pub search_document_use_case : ℕ → ℤ → ℕ → SearchCmd → M (List SearchHitView)
  search_document_use_case k similarity_threshold max_query_length cmd = do
    owner ← checked (make_owner_subject cmd.owner)
    id ← lift (document_id_from_str cmd.document_id)
    refuse_if (is_blank cmd.query || ltb max_query_length (count cmd.query))
        (invalid_payload "query" max_query_length)
    query ← lift (embed_query env cmd.query)
    hits ← with_uow env (do
      existing ← get env owner id
      required existing
      top_k env owner id query k similarity_threshold)
    pure (map hit_view hits)

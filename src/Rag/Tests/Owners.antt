-- ===== src/Rag/Tests/Owners.antt =====
-- Examples of what owners see, and of what requests leave behind.
use Prim.Native.String.{count}
use holahost.Base.Text.{is_blank, is_space}
use holahost.Base.{keep, any, false, ◌||◌, ltb, ◌≡◌, refl, none, some, [], ◌∷◌, ok, err}
use holahost.Base.Equality.{nat_eq}
use holahost.Base.Dict.{get}
use holahost.Base.Int.{pos}
use holahost.Rag.Values.{Embedding, OwnerSubject, make_owner_subject, make_embedding}
use holahost.Rag.Storage.{DocumentRow, ChunkRow, Tables, chunks_of, select_document}
use holahost.Rag.Storage.Consistency.{IsConsistent}
use holahost.Rag.Storage.Isolation.{Stores}
use holahost.Rag.Data.{not_found, ReplaceDocumentCmd, DeleteDocumentCmd}
use holahost.Rag.Ports.Effects.{undisturbed}
use holahost.Rag.Ingestion.{embed_query}
use holahost.Rag.UseCases.{
  create_document_use_case, replace_document_use_case, get_document_use_case,
  delete_document_use_case, search_document_use_case,
}
use holahost.Rag.UseCases.Atomic.{Settles}
use holahost.Rag.UseCases.Settled.{writes-Settles}
use holahost.Rag.UseCases.Unseen.{unseen-not_found}
use holahost.Rag.Requests.{at_rest, serve_all, replace, delete, serve_all-Stores}
use holahost.Rag.Samples.{
  sample_env, no_tables, create_manual, print_id, id_size, unit_vector, long_text,
}

abbrev pub manual_row : DocumentRow
manual_row = record {
  owner_subject = "ann";
  name = "Manual";
  mime_type = "text/plain";
  chunk_count = 1;
  created_at = 0;
  updated_at = 0;
}

abbrev pub manual_chunk : ChunkRow
manual_chunk = record {
  id = 1;
  document_id = 0;
  idx = 0;
  text = long_text;
  page = none;
  embedding = unit_vector;
}

abbrev pub manual_tables : Tables
manual_tables = record { documents = (0, manual_row) ∷ []; chunks = manual_chunk ∷ [] }

abbrev delete_by_bob : DeleteDocumentCmd
delete_by_bob = record { document_id = print_id 0; owner = "bob" }

abbrev replace_by_bob : ReplaceDocumentCmd
replace_by_bob = record {
  document_id = print_id 0;
  owner = "bob";
  content = [];
  mime_type = "text/plain";
  name = none;
}

manual-Stores : Stores 0 manual_row (manual_chunk ∷ []) manual_tables
unfolding get chunks_of keep
manual-Stores = record { document = refl; parts = refl }

serve_all-Stores_example :
    Stores 0 manual_row
      (manual_chunk ∷ [])
      (serve_all sample_env 5
        (pos 0)
        100
        (replace replace_by_bob ∷ delete delete_by_bob ∷ [])
        (at_rest manual_tables)).committed
serve_all-Stores_example =
    serve_all-Stores sample_env 5 (pos 0) 100 0 manual_row (manual_chunk ∷ [])
      (record { others = λ n t h. h; meanwhile = λ n t h. h }) manual_tables
      (replace replace_by_bob ∷ delete delete_by_bob ∷ []) manual-Stores (refl, (refl, tt))

no_tables-IsConsistent : IsConsistent no_tables
unfolding get chunks_of keep
no_tables-IsConsistent id = refl

writes-Settles_example :
    (Settles sample_env no_tables
        (create_document_use_case (undisturbed sample_env) create_manual (at_rest no_tables))
      × Settles sample_env no_tables
          (replace_document_use_case (undisturbed sample_env) replace_by_bob (at_rest no_tables)))
    × Settles sample_env no_tables
        (delete_document_use_case (undisturbed sample_env) delete_by_bob (at_rest no_tables))
writes-Settles_example =
    writes-Settles sample_env (at_rest no_tables) create_manual replace_by_bob delete_by_bob
      no_tables-IsConsistent

abbrev bob : OwnerSubject
bob = record { value = "bob" }

abbrev pub unit_embedding : Embedding
unit_embedding = record { value = unit_vector }

bob-accepted : make_owner_subject "bob" ≡ ok bob
unfolding make_owner_subject is_blank is_space
bob-accepted = refl

pub first_id : some (id_size (print_id 0)) ≡ some 0
unfolding id_size print_id
first_id = refl

manual-unseen : select_document (some "bob") 0 manual_tables ≡ none
unfolding select_document get
manual-unseen = refl

pub short_question : (is_blank "pool?" || ltb 100 (count "pool?")) ≡ false
unfolding is_blank is_space
short_question = refl

pub question-embedded : embed_query (undisturbed sample_env) "pool?" ≡ ok unit_embedding
unfolding embed_query make_embedding any
question-embedded = refl

unseen-not_found_example :
    (((get_document_use_case
          (undisturbed sample_env)
          (record { document_id = print_id 0; owner = "bob" })
          (at_rest manual_tables)).0
        ≡ err not_found)
      × ((delete_document_use_case (undisturbed sample_env) delete_by_bob (at_rest manual_tables)).0
          ≡ err not_found))
    × (((replace_document_use_case
            (undisturbed sample_env)
            replace_by_bob
            (at_rest manual_tables)).0
          ≡ err not_found)
        × ((search_document_use_case
              (undisturbed sample_env)
              5
              (pos 0)
              100
              (record { document_id = print_id 0; owner = "bob"; query = "pool?" })
              (at_rest manual_tables)).0
            ≡ err not_found))
unseen-not_found_example =
    unseen-not_found sample_env 0 (print_id 0) bob (at_rest manual_tables) bob-accepted first_id
      manual-unseen [] "text/plain" none 5 (pos 0) 100 "pool?" unit_embedding short_question
      question-embedded

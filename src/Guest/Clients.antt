-- ===== src/Guest/Clients.antt =====
-- The clients of the two services (guest_reply/clients/documents.py, guest_reply/clients/generation.py).
-- What pydantic makes of an answer's body is the environment's.
use Prim.Native.String.{◌++◌ as ◌⧺◌}
use holahost.Base.{ℕ, String, Option, none, some, List, [], ◌∷◌}
use holahost.Base.Int.{ℤ}
use holahost.Base.Dict.{Dict}
use holahost.Auth.{Json, Items, text, array, object, item, end, member, last}
use holahost.Guest.World.{M, Bytes}
use holahost.Guest.Caller.{Env, ServiceCaller, Call, fetch, send}

pub record CreatedDocument : Type 0 where
  pub document_id : String
  pub chunk_count : ℤ

-- Its score in billionths
pub record Chunk : Type 0 where
  pub chunk_id : String
  pub text : String
  pub page : Option ℤ
  pub score : ℤ

pub record Message : Type 0 where
  pub role : String
  pub content : String

pub record Usage : Type 0 where
  pub input_tokens : ℤ
  pub output_tokens : ℤ

pub record Generated : Type 0 where
  pub text : String
  pub usage : Usage
  pub provider : String
  pub model : String

-- `model_validate` of each model that an answer is read into.
pub record Models : Type 0 where
  pub created_document : Json → Option CreatedDocument
  pub search_result : Json → Option (List Chunk)
  pub generated : Json → Option Generated

abbrev pub documents_api_base : String
documents_api_base = "/api/rag-documents"

abbrev pub generation_api_base : String
generation_api_base = "/api/llm-client"

abbrev pub search_read_timeout : ℕ
search_read_timeout = 10

abbrev pub ingest_read_timeout : ℕ
ingest_read_timeout = 35

abbrev pub generate_read_timeout : ℕ
generate_read_timeout = 35

-- `{} if name is None else {"name": name}`
abbrev pub name_field : Option String → Dict String String
name_field none = []
name_field (some name) = ("name", name) ∷ []

-- `f"/documents/{document_id}"`
abbrev pub document_path : String → String
document_path document_id = "/documents/" ⧺ document_id

abbrev pub create_call : Bytes → String → String → Call
create_call content filename name = record {
  verb = "POST";
  path = "/documents";
  read_timeout = ingest_read_timeout;
  json = none;
  data_fields = ("name", name) ∷ [];
  file = some (record { filename = filename; content = content });
}

abbrev pub replace_call : String → Bytes → String → Option String → Call
replace_call document_id content filename name = record {
  verb = "PUT";
  path = document_path document_id;
  read_timeout = ingest_read_timeout;
  json = none;
  data_fields = name_field name;
  file = some (record { filename = filename; content = content });
}

abbrev pub search_call : String → String → Call
search_call document_id query = record {
  verb = "POST";
  path = document_path document_id ⧺ "/search";
  read_timeout = search_read_timeout;
  json = some (object (member "query" (text query) last));
  data_fields = [];
  file = none;
}

abbrev pub delete_call : String → Call
delete_call document_id = record {
  verb = "DELETE";
  path = document_path document_id;
  read_timeout = search_read_timeout;
  json = none;
  data_fields = [];
  file = none;
}

-- `message.model_dump()`, of each message
unfoldable pub dumped : List Message → Items
dumped [] = end
dumped (m ∷ ms) =
    item (object (member "role" (text m.role) (member "content" (text m.content) last))) (dumped ms)

abbrev pub generate_call : String → List Message → String → Call
generate_call system messages model = record {
  verb = "POST";
  path = "/generate";
  read_timeout = generate_read_timeout;
  json = some (
      object (
        member "model" (text model)
          (member "system" (text system) (member "messages" (array (dumped messages)) last))));
  data_fields = [];
  file = none;
}

module _ (env : Env) (models : Models) (caller : ServiceCaller) where
  -- `DocumentsClient.create`
  unfoldable pub create : Bytes → String → String → M CreatedDocument
  create content filename name =
      fetch env caller models.created_document (create_call content filename name)

  -- `DocumentsClient.replace`
  unfoldable pub replace_document : String → Bytes → String → Option String → M CreatedDocument
  replace_document document_id content filename name =
      fetch env caller models.created_document (replace_call document_id content filename name)

  -- `DocumentsClient.search`
  unfoldable pub search_chunks : String → String → M (List Chunk)
  search_chunks document_id query =
      fetch env caller models.search_result (search_call document_id query)

  -- `GenerationClient.generate`
  unfoldable pub generate : String → List Message → String → M Generated
  generate system messages model =
      fetch env caller models.generated (generate_call system messages model)

-- `DocumentsClient.delete`
unfoldable pub delete : Env → ServiceCaller → String → M (Unit {0})
delete env caller document_id = send env caller (delete_call document_id)

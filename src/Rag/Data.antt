-- ===== src/Rag/Data.antt =====
-- The data of the use cases: commands and views (application/dto), what they raise
-- (application/exceptions, application/ports/exceptions.py), the transit types of the ports, and the
-- world that the ports act on.
use holahost.Base.{ℕ, String, Bool, Option, List, ok}
use holahost.Base.Int.{ℤ}
use holahost.Base.Action.{Action}
use holahost.Base.Text.{is_blank}
use holahost.Base.{if◌then◌else◌}
use holahost.Db.{StorageError}
use holahost.Rag.Values.{DomainError, Valid, defect, PageNumber, SimilarityScore, ChunkId, Float}
use holahost.Rag.Storage.{Tables, Setting}

-- Octets.
abbrev pub Bytes : Type 0
Bytes = List ℕ

pub record CreateDocumentCmd : Type 0 where
  pub owner : String
  pub name : String
  pub content : Bytes
  pub mime_type : String

pub record ReplaceDocumentCmd : Type 0 where
  pub document_id : String
  pub owner : String
  pub content : Bytes
  pub mime_type : String
  pub name : Option String

pub record GetDocumentCmd : Type 0 where
  pub document_id : String
  pub owner : String

pub record DeleteDocumentCmd : Type 0 where
  pub document_id : String
  pub owner : String

pub record SearchCmd : Type 0 where
  pub document_id : String
  pub owner : String
  pub query : String

pub record DocumentView : Type 0 where
  pub document_id : String
  pub name : String
  pub mime_type : String
  pub chunk_count : ℕ
  pub created_at : ℕ
  pub updated_at : ℕ

-- A score is in billionths.
pub record SearchHitView : Type 0 where
  pub chunk_id : String
  pub text : String
  pub page : Option ℕ
  pub score : ℤ

-- `TextFragment`, and its `__post_init__`
pub record TextFragment : Type 0 where
  pub text : String
  pub page : PageNumber

unfoldable pub make_text_fragment : String → PageNumber → Valid TextFragment
make_text_fragment text page =
    if is_blank text then defect else ok (record { text = text; page = page })

pub record SearchHit : Type 0 where
  pub chunk_id : ChunkId
  pub text : String
  pub page : PageNumber
  pub score : SimilarityScore

-- What a use case may raise; the last three are a malformed identifier or a length mismatch
-- (`ValueError`), a port that is used wrongly (`RuntimeError`), and the model's failure.
pub data Raised : Type 0 where
  domain : DomainError → Raised
  not_found : Raised
  unsupported_media_type : List String → Raised
  invalid_payload : String → ℕ → Raised
  upload_too_large : ℕ → ℕ → Raised
  parsed_text_too_large : ℕ → ℕ → Raised
  empty_document : ℕ → Raised
  document_parse : Raised
  too_many_chunks : ℕ → ℕ → Raised
  storage : StorageError → Raised
  value_error : Raised
  runtime_error : Raised
  embedding_failed : Raised

-- What the ports act on. The counters say how often each source of the environment was asked; the
-- tables are those that are committed and those that the open transaction sees.
pub record World : Type 0 where
  pub units : ℕ
  pub statements : ℕ
  pub instants : ℕ
  pub identifiers : ℕ
  pub in_transaction : Bool
  pub setting : Setting
  pub committed : Tables
  pub visible : Tables

abbrev pub M : Type 0 → Type 0
M A = Action World Raised A

-- What answers for the code that is not of the program: the database's faults and the other
-- requests, the clock, fresh identifiers, the parsers' libraries, the splitter, the model.
pub record Env : Type 0 where
  -- what other requests committed before a unit of work was entered, and before a statement in it
  pub others : ℕ → Tables → Tables
  pub meanwhile : ℕ → Tables → Tables
  -- whether entering a unit of work, leaving it, or a statement fails, translated
  pub connect : ℕ → Option StorageError
  pub leave : ℕ → Option StorageError
  pub query : ℕ → Option StorageError
  pub now : ℕ → ℕ
  pub fresh : ℕ → ℕ
  -- `uuid.UUID(text)`, where it does not raise, and `str` of it
  pub parse_uuid : String → Option ℕ
  pub print_uuid : ℕ → String
  -- the texts of a PDF's pages and of a DOCX file's paragraphs, where they can be opened, and UTF-8
  pub pdf_pages : Bytes → Option (List String)
  pub docx_paragraphs : Bytes → Option (List String)
  pub decode : Bytes → Option String
  -- `split_documents`, of texts with their page
  pub split_documents : List (String × Option ℕ) → List (String × Option ℕ)
  -- the vectors of `TextEmbedding.embed` and `query_embed`, normalized by numpy, where neither raises
  pub embed : List String → Option (List (List Float))
  pub query_embed : String → Option (List Float)
  -- in billionths
  pub cosine_distance : List Float → List Float → ℕ

-- ===== src/Rag/Samples.antt =====
-- A small service for the tests: any text is a document of one chunk, and the one embedding is a unit
-- vector.
use Prim.Native.Char.{nul}
use holahost.Base.{ap, ℕ, zero, suc, ◌≡◌, refl, String, none, some, List, [], ◌∷◌, map}
use holahost.Base.Int.{pos}
use holahost.Rag.Values.{Float, finite, float_one}
use holahost.Rag.Storage.{Tables}
use holahost.Rag.Data.{Env, CreateDocumentCmd}

-- As many characters as the number.
unfoldable pub print_id : ℕ → String
print_id zero = String.[]
print_id (suc n) = String.◌∷◌ nul (print_id n)

-- The number of characters.
unfoldable pub id_size : String → ℕ
id_size String.[] = zero
id_size (String.◌∷◌ c s) = suc (id_size s)

id_size-print_id : (n : ℕ) → id_size (print_id n) ≡ n
unfolding print_id id_size
id_size-print_id zero = refl
id_size-print_id (suc n) = ap suc (id_size-print_id n)

pub parse-print_id : (n : ℕ) → some (id_size (print_id n)) ≡ some n
parse-print_id n = ap some (id_size-print_id n)

abbrev zeros : ℕ → List Float
zeros zero = []
zeros (suc n) = finite (pos 0) ∷ zeros n

abbrev pub unit_vector : List Float
unit_vector = finite (pos float_one) ∷ zeros 383

abbrev pub long_text : String
long_text =
    "A text of two hundred characters and more is what a document has to have, since a shorter one is refused as empty; this one has several words, and none of them matters. It stands for a page of a manual, say."

abbrev pub sample_env : Env
sample_env = record {
  others = λ n t. t;
  meanwhile = λ n t. t;
  connect = λ n. none;
  leave = λ n. none;
  query = λ n. none;
  now = λ n. n;
  fresh = λ n. n;
  parse_uuid = λ s. some (id_size s);
  print_uuid = print_id;
  pdf_pages = λ content. none;
  docx_paragraphs = λ content. none;
  decode = λ content. some long_text;
  split_documents = λ pieces. pieces;
  embed = λ texts. some (map (λ text. unit_vector) texts);
  query_embed = λ text. some unit_vector;
  cosine_distance = λ a b. 0;
}

abbrev pub no_tables : Tables
no_tables = record { documents = []; chunks = [] }

abbrev pub create_manual : CreateDocumentCmd
create_manual = record { owner = "ann"; name = " Manual "; content = []; mime_type = "text/plain" }

-- ===== src/Rag/Values.antt =====
-- The value objects of domain/value_objects, each with the constructor that validates it, and
-- domain/exceptions.py. The messages, which only the log shows, are left out.
pub mod Accepted
use Prim.Native.Char.{code}
use Prim.Native.String.{count}
use holahost.Base.{
  ℕ, ◌+◌, ◌*◌, ◌≡◌, ◌↔◌, String, Bool, true, false, ◌&&◌, ◌||◌, not, Option, none, some, List, [],
  ◌∷◌, Result, ok, err, ltb, leb, ◌==◌, any, if◌then◌else◌, arith, length,
}
use holahost.Base.Int.{ℤ, pos, negsuc, ltb_ℤ}
use holahost.Base.Equality.{Eq, ◌=?◌, string_eq}
use holahost.Base.Text.{is_blank, strip}

-- `DomainValidationError`, by the request field that it traces back to, and its subclass
-- `ChunkCountExceededError`, by the limit.
pub data DomainError : Type 0 where
  domain_validation : Option String → DomainError
  chunk_count_exceeded : ℕ → DomainError

-- `e.field`
abbrev pub field_of : DomainError → Option String
field_of (domain_validation field) = field
field_of (chunk_count_exceeded limit) = some "chunk_count"

abbrev pub Valid : Type 0 → Type 0
Valid A = Result DomainError A

-- An internal defect, of no request field.
abbrev pub defect : {A : Type 0} → Valid A
defect = err (domain_validation none)

-- The 128 bits of a UUID.
pub record DocumentId : Type 0 where
  pub value : ℕ

pub record ChunkId : Type 0 where
  pub value : ℕ

pub record OwnerSubject : Type 0 where
  pub value : String

unfoldable pub make_owner_subject : String → Valid OwnerSubject
make_owner_subject value = if is_blank value then defect else ok (record { value = value })

pub record MimeType : Type 0 where
  pub value : String

abbrev pub pdf : String
pdf = "application/pdf"

abbrev pub docx : String
docx = "application/vnd.openxmlformats-officedocument.wordprocessingml.document"

-- `ALLOWED_MIME_TYPES`, sorted
abbrev pub allowed_mime_types : List String
allowed_mime_types = pdf ∷ docx ∷ "text/markdown" ∷ "text/plain" ∷ []

unfoldable pub make_mime_type : String → Valid MimeType
unfolding any
make_mime_type value =
    if any (λ allowed. allowed =? value) allowed_mime_types
    then ok (record { value = value })
    else err (domain_validation (some "mime_type"))

pub record DocumentName : Type 0 where
  pub value : String

abbrev pub max_document_name_length : ℕ
max_document_name_length = 200

-- `unicodedata.category(ch) == "Cc"`
abbrev is_control : ℕ → Bool
is_control c = leb c 31 || leb 127 c && leb c 159

has_control : String → Bool
has_control String.[] = false
has_control (String.◌∷◌ c s) = is_control (code c) || has_control s

-- The constructor strips the name.
unfoldable pub make_document_name : String → Valid DocumentName
unfolding has_control
make_document_name value =
    let stripped = strip value in
    if count stripped == 0 || ltb max_document_name_length (count stripped) || has_control stripped
    then err (domain_validation (some "name"))
    else ok (record { value = stripped })

pub record ChunkIndex : Type 0 where
  pub value : ℕ

unfoldable pub make_chunk_index : ℤ → Valid ChunkIndex
make_chunk_index (pos n) = ok (record { value = n })
make_chunk_index (negsuc n) = defect

pub record PageNumber : Type 0 where
  pub value : Option ℕ

unfoldable pub make_page_number : Option ℤ → Valid PageNumber
make_page_number none = ok (record { value = none })
make_page_number (some (pos n)) = if ltb n 1 then defect else ok (record { value = some n })
make_page_number (some (negsuc n)) = defect

-- A float: a finite one is a number of units of 2 ^ -149, which is exact for what the embedding model
-- computes, in single precision.
pub data Float : Type 0 where
  finite : ℤ → Float
  infinite nan : Float

pub record Embedding : Type 0 where
  pub value : List Float

abbrev pub embedding_dim : ℕ
embedding_dim = 384

is_finite : Float → Bool
is_finite (finite n) = true
is_finite infinite = false
is_finite nan = false

abbrev square : ℤ → ℕ
square (pos n) = n * n
square (negsuc n) = (n + 1) * (n + 1)

sum_squares : List Float → ℕ
sum_squares [] = 0
sum_squares (finite n ∷ xs) = square n + sum_squares xs
sum_squares (infinite ∷ xs) = sum_squares xs
sum_squares (nan ∷ xs) = sum_squares xs

-- `abs(norm - 1.0) <= 1e-6` of the exact norm, by its square, for a length of `one` units
is_normalized : ℕ → List Float → Bool
unfolding sum_squares
is_normalized one xs =
    let s = sum_squares xs * 1_000_000_000_000 in
    leb (999_999 * one * (999_999 * one)) s && leb s (1_000_001 * one * (1_000_001 * one))

abbrev pub float_one : ℕ
float_one = 713_623_846_352_979_940_529_142_984_724_747_568_191_373_312

unfoldable pub make_embedding : List Float → Valid Embedding
unfolding is_finite is_normalized any
make_embedding value =
    if not (length value == embedding_dim)
    then defect
    else if any (λ x. not (is_finite x)) value
    then defect
    else if not (is_normalized float_one value)
    then defect
    else ok (record { value = value })

-- `SimilarityScore` (application/ports/vector.py), in billionths.
pub record SimilarityScore : Type 0 where
  pub value : ℤ

abbrev pub billion : ℕ
billion = 1_000_000_000

unfoldable pub make_similarity_score : ℤ → Valid SimilarityScore
make_similarity_score value =
    if ltb_ℤ value (negsuc (999_999_999)) || ltb_ℤ (pos billion) value
    then defect
    else ok (record { value = value })

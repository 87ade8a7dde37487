-- ===== src/Rag/Values/Accepted.antt =====
-- The constructors accept again what they returned.
pub use holahost.Base.{Returns, Returns-any, and_then-Returns}
use holahost.Base.Int.{ℤ}
use holahost.Base.{◌≡◌, String, Result, ok, err, arith}
use holahost.Base.Equality.{string_eq}
use holahost.Base.Text.Strip.{strip-twice}
use holahost.Rag.Values.{
  OwnerSubject, make_owner_subject, make_mime_type, make_document_name, SimilarityScore,
  make_similarity_score,
}

Returns-and :
    {E A : Type 0}
    → (P Q : A → Type 0) (r : Result E A) → Returns P r
    → Returns Q r
    → Returns (λ a. P a × Q a) r
Returns-and P Q (ok a) p q = (p, q)
Returns-and P Q (err e) p q = tt

make_owner_subject-twice :
    (s : String) → Returns (λ o. make_owner_subject o.value ≡ ok o) (make_owner_subject s)
unfolding make_owner_subject
make_owner_subject-twice s = ground arith

make_owner_subject-value : (s : String) → Returns (λ o. o.value ≡ s) (make_owner_subject s)
unfolding make_owner_subject
make_owner_subject-value s = ground arith

pub make_owner_subject-Returns :
    (s : String)
    → Returns
        (λ (o : OwnerSubject). (make_owner_subject o.value ≡ ok o) × (o.value ≡ s))
        (make_owner_subject s)
make_owner_subject-Returns s =
    Returns-and _ _ (make_owner_subject s) (make_owner_subject-twice s) (make_owner_subject-value s)

pub make_mime_type-Returns :
    (s : String) → Returns (λ m. make_mime_type m.value ≡ ok m) (make_mime_type s)
unfolding make_mime_type
make_mime_type-Returns s = ground arith

pub make_document_name-Returns :
    (s : String) → Returns (λ n. make_document_name n.value ≡ ok n) (make_document_name s)
unfolding make_document_name
make_document_name-Returns s = ground (arith, strip-twice s)

pub make_similarity_score-Returns :
    (value : ℤ) → Returns (λ (s : SimilarityScore). s.value ≡ value) (make_similarity_score value)
unfolding make_similarity_score
make_similarity_score-Returns value = ground arith

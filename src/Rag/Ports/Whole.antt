-- ===== src/Rag/Ports/Whole.antt =====
-- A document that the entity's methods return is whole.
use holahost.Base.{
  ℕ, suc, ◌≡◌, refl, ap, sym, false, not, List, [], ◌∷◌, map, ok, err, length, ◌==◌, any, if-cases,
  arith, ltb,
}
use holahost.Rag.Values.{
  Valid, DomainError, chunk_count_exceeded, defect, DocumentId, OwnerSubject, DocumentName,
  MimeType,
}
use holahost.Rag.Values.Accepted.{Returns}
use holahost.Rag.Entities.{
  Document, Chunk, create_document, replace_content, validate_chunks, when_valid,
  max_chunks_per_document,
}
use holahost.Rag.Storage.Consistency.{OfDocument}
use holahost.Rag.Ports.{chunk_values}
use holahost.Rag.Ports.Counts.{IsWhole}

length-map : {A B : Type 0} → (f : A → B) (xs : List A) → length (map f xs) ≡ length xs
length-map f [] = refl
length-map f (x ∷ xs) = ap suc (length-map f xs)

own-OfDocument :
    (id : ℕ) (chunks : List Chunk)
    → any (λ (chunk : Chunk). not (chunk.document_id.value == id)) chunks ≡ false
    → OfDocument id (map chunk_values chunks)
unfolding any
own-OfDocument id [] h = tt
own-OfDocument id (c ∷ cs) h = (ground (arith, h), own-OfDocument id cs (ground (arith, h)))

validate_chunks-own :
    (id : DocumentId) (chunks : List Chunk)
    → Returns (λ _. OfDocument id.value (map chunk_values chunks)) (validate_chunks id chunks)
unfolding validate_chunks
validate_chunks-own id chunks =
    let Own =
      Returns {E = DomainError} {A = Unit {0}}
        (λ _. OfDocument id.value (map chunk_values chunks)) in
    if-cases Own (length chunks == 0) defect _ (λ _. tt)
      (λ _.
        if-cases Own (ltb max_chunks_per_document (length chunks))
          (err (chunk_count_exceeded max_chunks_per_document)) _ (λ _. tt)
          (λ _.
            if-cases Own (any (λ (chunk : Chunk). not (chunk.document_id.value == id.value)) chunks)
              defect (ok tt) (λ _. tt) (λ e. own-OfDocument id.value chunks e)))

when-Returns :
    {A : Type 0}
    → (P : Type 0) (Q : A → Type 0) (v : Valid (Unit {0})) (a : A) → Returns (λ _. P) v
    → (P → Q a)
    → Returns Q (when_valid v a)
when-Returns P Q (ok _) a p k = k p
when-Returns P Q (err e) a p k = tt

pub create_document-IsWhole :
    (id : DocumentId) (owner : OwnerSubject) (name : DocumentName) (mime_type : MimeType)
    (chunks : List Chunk) (now : ℕ)
    → Returns IsWhole (create_document id owner name mime_type chunks now)
unfolding create_document
create_document-IsWhole id owner name mime_type chunks now =
    when-Returns _ IsWhole (validate_chunks id chunks) _ (validate_chunks-own id chunks) (λ own.
      record {
        parts = chunks;
        chunks = refl;
        count = sym (length-map chunk_values chunks);
        own = own;
      })

pub replace_content-IsWhole :
    (mime_type : MimeType) (chunks : List Chunk) (now : ℕ) (d : Document)
    → Returns IsWhole (replace_content mime_type chunks now d)
unfolding replace_content
replace_content-IsWhole mime_type chunks now d =
    when-Returns _ IsWhole (validate_chunks d.id chunks) _ (validate_chunks-own d.id chunks) (λ own.
      record {
        parts = chunks;
        chunks = refl;
        count = sym (length-map chunk_values chunks);
        own = own;
      })

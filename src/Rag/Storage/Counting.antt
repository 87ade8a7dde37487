-- ===== src/Rag/Storage/Counting.antt =====
-- How each statement changes what the documents' rows say of their chunks.
use holahost.Base.{
  ℕ, ◌+◌, ◌≡◌, ◌∙◌, ap, sym, true, false, not, ◌&&◌, List, Result, ok, err, ◌==◌, length,
  length-append, if◌then◌else◌, arith, if-cases,
}
use holahost.Base.Equality.{nat_eq}
use holahost.Base.Dict.{get, put, get-put, get-remove}
use holahost.Db.{StorageError, integrity}
use holahost.Rag.Storage.{
  DocumentRow, ChunkRow, Tables, Setting, sees, permits, document_checks, insert_document,
  insert_chunks, update_document, delete_chunks, delete_document, chunks_of,
}
use holahost.Rag.Storage.Consistency.{
  expected, IsConsistent, OfDocument, Adds, insert_chunks-Adds, keep-drop,
}

-- The document `id` waits for `n` more chunks; every other document has those that its row says.
abbrev pub Awaits : ℕ → ℕ → Tables → Type 0
Awaits id n t =
    (j : ℕ) → expected (get j t.documents) ≡ length (chunks_of j t) + (if j == id then n else 0)

-- The row of the document `id` says `n`; every other document has the chunks that its row says.
abbrev pub Says : ℕ → ℕ → Tables → Type 0
Says id n t =
    (j : ℕ) → expected (get j t.documents) ≡ (if j == id then n else length (chunks_of j t))

abbrev pub Then : (Tables → Type 0) → Result StorageError Tables → Type 0
Then Q (ok t) = Q t
Then Q (err e) = Unit

abbrev pub ThenCount : (ℕ → Tables → Type 0) → Result StorageError (ℕ × Tables) → Type 0
ThenCount Q (ok (n, t)) = Q n t
ThenCount Q (err e) = Unit

pub insert_document-Awaits :
    (setting : Setting) (id : ℕ) (row : DocumentRow) (t : Tables)
    → IsConsistent t
    → Then (Awaits id row.chunk_count) (insert_document setting id row t)
unfolding insert_document chunks_of
insert_document-Awaits setting id row t h =
    if-cases (Then (Awaits id row.chunk_count)) _
      (ok (record t { documents = put id row t.documents })) (err integrity)
      (λ e j. ground (arith, get-put id j row t.documents, h j, h id, e)) (λ _. tt)

pub insert_chunks-IsConsistent :
    (setting : Setting) (id : ℕ) (rows : List ChunkRow) (t : Tables)
    → OfDocument id rows
    → Awaits id (length rows) t
    → Then IsConsistent (insert_chunks setting rows t)
insert_chunks-IsConsistent setting id rows t o h =
    both (insert_chunks setting rows t) (insert_chunks-Adds setting id rows t o)
  where
    both : (r : Result StorageError Tables) → Adds id rows t r → Then IsConsistent r
    both (ok t') a = λ j.
        ap length (a.1 j)
        ∙ ground (arith, h j, length-append (chunks_of j t) rows)
        ∙ sym (ap (λ d. expected (get j d)) a.0)
    both (err e) a = tt

pub update_document-Says :
    (setting : Setting) (id : ℕ) (row : DocumentRow) (t : Tables)
    → IsConsistent t
    → ThenCount
        (λ n t'. (n == 0) ≡ false → (sees setting id t' ≡ true) × Says id row.chunk_count t')
        (update_document setting id row t)
unfolding update_document chunks_of
update_document-Says setting id row t h =
    if-cases
      (ThenCount
        (λ n t'. (n == 0) ≡ false → (sees setting id t' ≡ true) × Says id row.chunk_count t'))
      (not (sees setting id t)) (ok (0, t)) _ (λ _ e. ground (arith, e))
      (λ _.
        if-cases
          (ThenCount
            (λ n t'. (n == 0) ≡ false → (sees setting id t' ≡ true) × Says id row.chunk_count t'))
          (permits setting row && document_checks row)
          (ok (1, record t { documents = put id row t.documents })) (err integrity)
          (λ e _. (
            ground (arith, get-put id id row t.documents, e),
            λ j. ground (arith, get-put id j row t.documents, h j),
          ))
          (λ _. tt))

pub delete_chunks-Awaits :
    (setting : Setting) (id n : ℕ) (t : Tables)
    → sees setting id t ≡ true
    → Says id n t
    → Awaits id n (delete_chunks setting id t)
unfolding delete_chunks chunks_of
delete_chunks-Awaits setting id n t s h j = ground (arith, s, keep-drop j id t.chunks, h j)

pub delete_document-IsConsistent :
    (setting : Setting) (id : ℕ) (t : Tables)
    → IsConsistent t
    → IsConsistent (delete_document setting id t).1
unfolding delete_document chunks_of
delete_document-IsConsistent setting id t h j =
    ground (arith, keep-drop j id t.chunks, get-remove id j t.documents, h j)

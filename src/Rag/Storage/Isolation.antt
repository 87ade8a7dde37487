-- ===== src/Rag/Storage/Isolation.antt =====
-- What a statement cannot touch: a document that the policy hides from the setting, and its chunks.
use holahost.Base.{
  ℕ, ◌≡◌, refl, false, not, some, List, [], ◌∷◌, ◌++◌, Result, ok, err, ◌==◌, keep, arith,
}
use holahost.Base.Equality.{string_eq, nat_eq}
use holahost.Base.Dict.{get, get-put, get-remove}
use holahost.Db.{StorageError}
use holahost.Rag.Storage.{
  DocumentRow, ChunkRow, Tables, Setting, permits, insert_document, insert_chunk, insert_chunks,
  update_document, delete_chunks, delete_document, chunks_of,
}

-- The document's row, and its chunks.
pub record Stores (id : ℕ) (row : DocumentRow) (rows : List ChunkRow) (t : Tables) : Type 0 where
  pub document : get id t.documents ≡ some row
  pub parts : chunks_of id t ≡ rows

-- A statement that is refused stores what was stored.
abbrev pub StoresOk : ℕ → DocumentRow → List ChunkRow → Result StorageError Tables → Type 0
StoresOk id row rows (ok t) = Stores id row rows t
StoresOk id row rows (err e) = Unit

abbrev pub StoresCount : ℕ → DocumentRow → List ChunkRow → Result StorageError (ℕ × Tables) → Type 0
StoresCount id row rows (ok (n, t)) = Stores id row rows t
StoresCount id row rows (err e) = Unit

keep-append_other :
    (id : ℕ) (xs : List ChunkRow) (row : ChunkRow)
    → (row.document_id == id) ≡ false
    → keep (λ (r : ChunkRow). r.document_id == id) (xs ++ row ∷ [])
      ≡ keep (λ (r : ChunkRow). r.document_id == id) xs
unfolding keep
keep-append_other id [] row h = ground (arith, h)
keep-append_other id (x ∷ xs) row h = ground (arith, keep-append_other id xs row h)

keep-drop_other :
    (id j : ℕ) (xs : List ChunkRow)
    → (id == j) ≡ false
    → keep
        (λ (r : ChunkRow). r.document_id == id)
        (keep (λ (r : ChunkRow). not (r.document_id == j)) xs)
      ≡ keep (λ (r : ChunkRow). r.document_id == id) xs
unfolding keep
keep-drop_other id j [] h = refl
keep-drop_other id j (x ∷ xs) h = ground (arith, keep-drop_other id j xs h)

next-StoresOk :
    (id : ℕ) (row : DocumentRow) (rows : List ChunkRow) (x : Result StorageError Tables)
    (f : Tables → Result StorageError Tables)
    → ((t : Tables) → Stores id row rows t → StoresOk id row rows (f t))
    → StoresOk id row rows x
    → StoresOk id row rows (elim x [ ok t ↦ f t | err e ↦ err e ])
next-StoresOk id row rows (ok t) f k h = k t h
next-StoresOk id row rows (err e) f k h = tt

module _ (setting : Setting) (id : ℕ) (row : DocumentRow) (rows : List ChunkRow)
    (hidden : permits setting row ≡ false) where
  pub insert_document-Stores :
      (j : ℕ) (r : DocumentRow) (t : Tables)
      → Stores id row rows t
      → StoresOk id row rows (insert_document setting j r t)
  unfolding insert_document chunks_of
  insert_document-Stores j r t h = ground (arith, get-put j id r t.documents, h.document, h.parts)

  pub insert_chunk-Stores :
      (r : ChunkRow) (t : Tables)
      → Stores id row rows t
      → StoresOk id row rows (insert_chunk setting r t)
  unfolding insert_chunk chunks_of
  insert_chunk-Stores r t h =
      ground (arith, keep-append_other id t.chunks r, h.document, h.parts, hidden)

  pub insert_chunks-Stores :
      (rs : List ChunkRow) (t : Tables)
      → Stores id row rows t
      → StoresOk id row rows (insert_chunks setting rs t)
  unfolding insert_chunks
  insert_chunks-Stores [] t h = h
  insert_chunks-Stores (r ∷ rs) t h =
      next-StoresOk id row rows (insert_chunk setting r t) (insert_chunks setting rs)
        (insert_chunks-Stores rs) (insert_chunk-Stores r t h)

  pub update_document-Stores :
      (j : ℕ) (r : DocumentRow) (t : Tables)
      → Stores id row rows t
      → StoresCount id row rows (update_document setting j r t)
  unfolding update_document chunks_of
  update_document-Stores j r t h =
      ground (arith, get-put j id r t.documents, h.document, h.parts, hidden)

  pub delete_chunks-Stores :
      (j : ℕ) (t : Tables) → Stores id row rows t → Stores id row rows (delete_chunks setting j t)
  unfolding delete_chunks chunks_of
  delete_chunks-Stores j t h =
      ground (arith, keep-drop_other id j t.chunks, h.document, h.parts, hidden)

  pub delete_document-Stores :
      (j : ℕ) (t : Tables)
      → Stores id row rows t
      → Stores id row rows (delete_document setting j t).1
  unfolding delete_document chunks_of
  delete_document-Stores j t h = ground (
    arith,
    keep-drop_other id j t.chunks,
    get-remove j id t.documents,
    h.document,
    h.parts,
    hidden,
  )

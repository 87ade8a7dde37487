-- ===== src/Rag/Storage/Consistency.antt =====
-- A document's row counts its chunks, and no chunk outlives its document.
use holahost.Base.{
  ℕ, ◌≡◌, refl, ◌∙◌, Bool, true, false, not, Option, none, some, List, [], ◌∷◌, ◌++◌, Result, ok,
  err, ◌==◌, keep, length, All, if◌then◌else◌, arith,
}
use mathlib.Core.List.{append-nil, append_assoc}
use holahost.Base.Equality.{nat_eq}
use holahost.Base.Dict.{get}
use holahost.Db.{StorageError, integrity}
use holahost.Rag.Storage.{
  DocumentRow, ChunkRow, Tables, Setting, insert_chunk, insert_chunks, chunks_of,
}

abbrev pub expected : Option DocumentRow → ℕ
expected none = 0
expected (some row) = row.chunk_count

-- Of every identifier there are as many chunks as the document's row says, and none without a row.
abbrev pub IsConsistent : Tables → Type 0
IsConsistent t = (id : ℕ) → length (chunks_of id t) ≡ expected (get id t.documents)

abbrev pub OfDocument : ℕ → List ChunkRow → Type 0
OfDocument j = All (λ (row : ChunkRow). (row.document_id == j) ≡ true)

-- The rows are added to those of the document `j`, and to no others.
abbrev pub Adds : ℕ → List ChunkRow → Tables → Result StorageError Tables → Type 0
Adds j rs t (ok t') =
    (t'.documents ≡ t.documents)
    × ((id : ℕ) → chunks_of id t' ≡ (if id == j then chunks_of id t ++ rs else chunks_of id t))
Adds j rs t (err e) = Unit

keep-append :
    (id : ℕ) (xs : List ChunkRow) (row : ChunkRow)
    → keep (λ (r : ChunkRow). r.document_id == id) (xs ++ row ∷ []) ≡ (
        if row.document_id == id
        then keep (λ (r : ChunkRow). r.document_id == id) xs ++ row ∷ []
        else keep (λ (r : ChunkRow). r.document_id == id) xs)
unfolding keep
keep-append id [] row = ground arith
keep-append id (x ∷ xs) row = ground (arith, keep-append id xs row)

pub keep-drop :
    (id j : ℕ) (xs : List ChunkRow)
    → keep
        (λ (r : ChunkRow). r.document_id == id)
        (keep (λ (r : ChunkRow). not (r.document_id == j)) xs)
      ≡ (if id == j then [] else keep (λ (r : ChunkRow). r.document_id == id) xs)
unfolding keep
keep-drop id j [] = ground arith
keep-drop id j (x ∷ xs) = ground (arith, keep-drop id j xs)

if-Adds :
    (j : ℕ) (rs : List ChunkRow) (t t' : Tables) (b : Bool)
    → Adds j rs t (ok t')
    → Adds j rs t (if b then ok t' else err integrity)
if-Adds j rs t t' true h = h
if-Adds j rs t t' false h = tt

chunks_of-append :
    (j id : ℕ) (r : ChunkRow) (t : Tables)
    → (r.document_id == j) ≡ true
    → chunks_of id (record t { chunks = t.chunks ++ r ∷ [] })
      ≡ (if id == j then chunks_of id t ++ r ∷ [] else chunks_of id t)
unfolding chunks_of
chunks_of-append j id r t h = ground (arith, keep-append id t.chunks r)

insert_chunk-Adds :
    (setting : Setting) (j : ℕ) (r : ChunkRow) (t : Tables)
    → (r.document_id == j) ≡ true
    → Adds j (r ∷ []) t (insert_chunk setting r t)
unfolding insert_chunk
insert_chunk-Adds setting j r t h =
    if-Adds j (r ∷ []) t (record t { chunks = t.chunks ++ r ∷ [] }) _
      (refl, λ id. chunks_of-append j id r t h)

if_append :
    (b : Bool) (xs ys zs : List ChunkRow)
    → (if b then (if b then xs ++ ys else xs) ++ zs else (if b then xs ++ ys else xs))
      ≡ (if b then xs ++ (ys ++ zs) else xs)
if_append true xs ys zs = append_assoc xs ys zs
if_append false xs ys zs = refl

next-Adds :
    (j : ℕ) (rs ss : List ChunkRow) (t : Tables) (x : Result StorageError Tables)
    (f : Tables → Result StorageError Tables)
    → Adds j rs t x
    → ((t' : Tables) → Adds j ss t' (f t'))
    → Adds j (rs ++ ss) t (elim x [ ok t' ↦ f t' | err e ↦ err e ])
next-Adds j rs ss t (err e) f h k = tt
next-Adds j rs ss t (ok t') f h k = both (f t') (k t')
  where
    both : (y : Result StorageError Tables) → Adds j ss t' y → Adds j (rs ++ ss) t y
    both (ok t'') m =
        (m.0 ∙ h.0, λ id. m.1 id ∙ rw (h.1 id) (if_append (id == j) (chunks_of id t) rs ss))
    both (err e) m = tt

pub insert_chunks-Adds :
    (setting : Setting) (j : ℕ) (rs : List ChunkRow) (t : Tables)
    → OfDocument j rs
    → Adds j rs t (insert_chunks setting rs t)
unfolding insert_chunks
insert_chunks-Adds setting j [] t h = (refl, λ id. ground (arith, append-nil (chunks_of id t)))
insert_chunks-Adds setting j (r ∷ rs) t h =
    next-Adds j (r ∷ []) rs t (insert_chunk setting r t) (insert_chunks setting rs)
      (insert_chunk-Adds setting j r t h.0) (λ t'. insert_chunks-Adds setting j rs t' h.1)

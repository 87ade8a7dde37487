-- ===== src/Rag/Search/Finding.antt =====
-- The rows of a search against the chunks that are stored
-- (infrastructure/vector/pgvector_search.py, and the policies of the migration).
use mathlib.Core.List.{Memᴰ}
use mathlib.Core.List.Memᴰ.{head, tail}
use holahost.Base.{
  ℕ, ◌≤◌, ◌≡◌, refl, sym, ◌⊎◌, inl, inr, String, Bool, true, some, List, [], ◌∷◌, keep, length, All,
  All-weaken, All-keep, keep-All, Bool-cases, ◌==◌, arith,
}
use holahost.Base.Equality.{string_eq, nat_eq}
use holahost.Base.Dict.{get}
use holahost.Base.Int.{ℤ, pos, ◌-ℤ◌, ◌≤ℤ◌, -ℤ_parts}
use holahost.Base.Sorting.{take-All}
use holahost.Base.Sorting.Ranked.{sort_by-All, sort_by-IsSorted, sort_by-Mem, take-Best}
use holahost.Rag.Values.{billion, Float}
use holahost.Rag.Storage.{ChunkRow, DocumentRow, Tables, chunks_of}
use holahost.Rag.Data.{Env}
use holahost.Rag.Search.{visible_chunks, nearest, distance, is_near}

module _ (env : Env) (owner : String) (id : ℕ) (query : List Float) (threshold : ℤ)
    (t : Tables) where
  -- The chunk is stored, of the document, the document is the owner's, and the chunk's similarity, one less
  -- the cosine distance to the query, is at least the threshold.
  pub record IsMatch (row : ChunkRow) : Type 0 where
    pub stored : Memᴰ row t.chunks
    pub of_document : row.document_id ≡ id
    pub document : DocumentRow
    pub has_document : get id t.documents ≡ some document
    pub owned : document.owner_subject ≡ owner
    pub similar : threshold ≤ℤ (pos billion -ℤ pos (env.cosine_distance row.embedding query))

  Mem-keep :
      (test : ChunkRow → Bool) (row : ChunkRow) (rows : List ChunkRow)
      → Memᴰ row rows
      → test row ≡ true
      → Memᴰ row (keep test rows)
  unfolding keep
  Mem-keep test row [] m h = elim m [ ]
  Mem-keep test row (r ∷ rows) (head e) h = rw (sym e) (rw h (head refl))
  Mem-keep test row (r ∷ rows) (tail m) h = elim (Bool-cases (test r)) [
    | inl kept ↦ rw kept (tail (Mem-keep test row rows m h))
    | inr left ↦ rw left (Mem-keep test row rows m h)
  ]

  -- Each element is one of the list.
  All-Mem : (rows : List ChunkRow) → All (λ row. Memᴰ row rows) rows
  All-Mem [] = tt
  All-Mem (row ∷ rows) =
      (head refl, All-weaken _ (λ r. Memᴰ r (row ∷ rows)) (λ r m. tail m) rows (All-Mem rows))

  near : (row : ChunkRow) → IsMatch row → is_near env query threshold row ≡ true
  near row m = ground (
    arith,
    -ℤ_parts (pos billion) threshold,
    -ℤ_parts (pos billion) (pos (distance env query row)),
    m.similar,
  )

  visible : (row : ChunkRow) → IsMatch row → visible_chunks (some owner) id t ≡ chunks_of id t
  unfolding visible_chunks
  visible row m =
      rw m.has_document (rw ((string_eq.beq_iff m.document.owner_subject owner).1 m.owned) refl)

  All-IsMatch :
      (row : ChunkRow)
      → IsMatch row
      → (rows : List ChunkRow) → All (λ r. Memᴰ r t.chunks) rows
      → All (λ r. (r.document_id == id) ≡ true) rows
      → All (λ r. is_near env query threshold r ≡ true) rows
      → All IsMatch rows
  All-IsMatch row m [] a b c = tt
  All-IsMatch row m (r ∷ rows) a b c = (
    record {
      stored = a.0;
      of_document = ground (arith, b.0);
      document = m.document;
      has_document = m.has_document;
      owned = m.owned;
      similar = ground (
        arith,
        -ℤ_parts (pos billion) threshold,
        -ℤ_parts (pos billion) (pos (distance env query r)),
        c.0,
      );
    },
    All-IsMatch row m rows a.1 b.1 c.1,
  )

  -- Where a stored chunk of the owner's document has a similarity to the query of at least the threshold,
  -- each row of a search is such a chunk, and this one is among them, or they are `k` and none of them is
  -- further from the query.
  pub nearest-Finds :
      (k : ℕ) (row : ChunkRow)
      → IsMatch row
      → let rows = nearest env (some owner) id query k threshold t in
        All IsMatch rows
        × (Memᴰ row rows
            ⊎ ((length rows ≡ k)
                × All
                    (λ found.
                      env.cosine_distance found.embedding query
                      ≤ env.cosine_distance row.embedding query)
                    rows))
  unfolding nearest chunks_of
  nearest-Finds k row m =
      let test = is_near env query threshold in
      let chunks = keep (λ (r : ChunkRow). r.document_id == id) t.chunks in
      let found = keep test chunks in
      let matches =
        All-IsMatch row m found
          (All-keep _ test chunks
            (All-keep _ (λ r. r.document_id == id) t.chunks (All-Mem t.chunks)))
          (All-keep _ test chunks (keep-All (λ r. r.document_id == id) t.chunks))
          (keep-All test chunks) in
      let among =
        Mem-keep test row chunks
          (Mem-keep (λ r. r.document_id == id) row t.chunks m.stored
            (ground (arith, m.of_document)))
          (near row m) in
      rw (visible row m) (
        take-All IsMatch k _ (sort_by-All (distance env query) IsMatch found matches),
        take-Best (distance env query) k row _ (sort_by-IsSorted (distance env query) found)
            (sort_by-Mem (distance env query) row found among),
      )

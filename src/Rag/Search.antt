-- ===== src/Rag/Search.antt =====
-- `PgVectorSearch.top_k` (application/ports/vector.py, infrastructure/vector). Rows at one distance
-- come in the table's order. Distances, scores and thresholds are in billionths.
pub mod Ranking
pub mod Finding
pub mod Answers
use holahost.Base.{
  ℕ, ◌-◌, String, Option, none, some, List, [], ◌∷◌, map, keep, Result, ok, err, traverse, and_then,
  Bool, if◌then◌else◌,
}
use holahost.Base.Int.{ℤ, pos, ◌-ℤ◌, leb_ℤ}
use holahost.Base.Sorting.{sort_by, take}
use holahost.Base.Action.{◌>>=◌, ◌>>◌}
use holahost.Rag.Values.{
  Valid, DocumentId, OwnerSubject, Embedding, make_page_number, make_similarity_score, billion,
  Float,
}
use holahost.Rag.Storage.{ChunkRow, Tables, Setting, sees, chunks_of}
use holahost.Rag.Data.{M, Env, SearchHit}
use holahost.Rag.Ports.{checked, bind_owner, statement}

-- The policy of `chunks`: those of the documents that the setting sees.
unfoldable pub visible_chunks : Setting → ℕ → Tables → List ChunkRow
visible_chunks setting id t = if sees setting id t then chunks_of id t else []

module _ (env : Env) where
  -- The label `distance` of a row.
  abbrev pub distance : List Float → ChunkRow → ℕ
  distance query row = env.cosine_distance row.embedding query

  -- `distance <= max_distance`
  abbrev pub is_near : List Float → ℤ → ChunkRow → Bool
  is_near query threshold row = leb_ℤ (pos (distance query row)) (pos billion -ℤ threshold)

  -- `stmt`
  unfoldable pub nearest : Setting → ℕ → List Float → ℕ → ℤ → Tables → List ChunkRow
  unfolding keep
  nearest setting id query k threshold t =
      take k
        (sort_by (distance query) (keep (is_near query threshold) (visible_chunks setting id t)))

  abbrev pub page_value : Option ℕ → Option ℤ
  page_value none = none
  page_value (some page) = some (pos page)

  -- `SearchHit(…)` of a row
  unfoldable pub hit : List Float → ChunkRow → Valid SearchHit
  hit query row = and_then (make_page_number (page_value row.page)) (λ page.
      and_then (make_similarity_score (pos billion -ℤ pos (distance query row))) (λ score.
        ok (record {
          chunk_id = record { value = row.id };
          text = row.text;
          page = page;
          score = score;
        })))

  -- `VectorSearch.top_k`, with `_top_k_impl`
  unfoldable pub top_k : OwnerSubject → DocumentId → Embedding → ℕ → ℤ → M (List SearchHit)
  top_k owner id query k threshold = do
    bind_owner env owner
    rows ← statement env (λ setting t. ok (nearest setting id.value query.value k threshold t, t))
    checked (traverse (hit query.value) rows)

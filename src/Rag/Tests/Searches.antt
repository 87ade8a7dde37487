-- ===== src/Rag/Tests/Searches.antt =====
-- Examples of searches.
use mathlib.Core.List.{Memᴰ}
use mathlib.Core.List.Memᴰ.{head}
use holahost.Base.{
  ◌≤◌, ◌⊎◌, All, length, arith, ℕ, ◌+◌, ◌≡◌, refl, Bool, false, Option, none, some, List, [], ◌∷◌,
  ◌||◌, keep, any, ltb, ◌==◌, if◌then◌else◌, Result, ok, err,
}
use holahost.Base.Equality.{nat_eq}
use holahost.Base.Int.{ℤ, pos}
use holahost.Base.Text.{is_blank, is_space}
use holahost.Rag.Values.{
  Embedding, OwnerSubject, DocumentId, DocumentName, MimeType, make_owner_subject,
  make_document_name, make_mime_type,
}
use holahost.Rag.Entities.{Document}
use holahost.Rag.Storage.{Tables, ChunkRow, select_document, sees}
use holahost.Rag.Data.{World, SearchCmd, SearchHitView}
use holahost.Rag.Ports.{document_values}
use holahost.Rag.Ingestion.{embed_query}
use holahost.Rag.Search.{nearest, distance, is_near, visible_chunks}
use holahost.Rag.Search.Ranking.{IsRanked}
use holahost.Rag.Search.Finding.{IsMatch, nearest-Finds}
use holahost.Rag.Search.Answers.{scores_of, search_document_use_case-IsRanked}
use holahost.Rag.UseCases.{search_document_use_case}
use holahost.Rag.Requests.{at_rest}
use holahost.Rag.Samples.{sample_env, print_id, id_size, unit_vector, long_text}
use holahost.Rag.Tests.Owners.{manual_tables, manual_chunk, manual_row}

abbrev ask : SearchCmd
ask = record { document_id = print_id 0; owner = "ann"; query = "pool?" }

abbrev answer : List SearchHitView
answer =
    record { chunk_id = print_id 1; text = long_text; page = none; score = pos 1_000_000_000 } ∷ []

abbrev searched : World
searched = (search_document_use_case sample_env 5 (pos 0) 100 ask (at_rest manual_tables)).1

ask-answers :
    search_document_use_case sample_env 5 (pos 0) 100 ask (at_rest manual_tables)
    ≡ (ok answer, searched)
unfolding search_document_use_case holahost.Base.Action.◌>>=◌ holahost.Rag.Ports.checked
    holahost.Base.Action.lift make_owner_subject is_blank is_space
    holahost.Rag.UseCases.document_id_from_str holahost.Base.Action.pure holahost.Base.Action.raise
    holahost.Base.Action.gets embed_query holahost.Rag.Values.make_embedding
    holahost.Rag.Ports.with_uow holahost.Rag.Ports.enter holahost.Rag.Ports.exit
    holahost.Rag.Ports.get holahost.Rag.Ports.bind_owner holahost.Rag.Ports.statement
    select_document holahost.Rag.Ports.document_from_row holahost.Rag.Entities.document_from_repo
    make_document_name make_mime_type holahost.Base.Text.strip holahost.Base.Dict.get any keep
    holahost.Base.traverse holahost.Rag.Search.top_k nearest visible_chunks holahost.Rag.Search.hit
    holahost.Base.Sorting.take holahost.Base.Sorting.sort_by holahost.Rag.Storage.chunks_of
    holahost.Rag.Values.make_page_number holahost.Rag.Values.make_similarity_score
    holahost.Base.Int.◌-ℤ◌ id_size print_id
ask-answers = refl

search_document_use_case-IsRanked_example :
    IsRanked 5 (pos 0) (scores_of sample_env 5 (pos 0) answer)
search_document_use_case-IsRanked_example =
    search_document_use_case-IsRanked sample_env 5 (pos 0) 100 ask (at_rest manual_tables) answer
      searched ask-answers

manual_chunk-IsMatch : IsMatch sample_env "ann" 0 unit_vector (pos 0) manual_tables manual_chunk
unfolding holahost.Base.Dict.get holahost.Base.Int.◌-ℤ◌
manual_chunk-IsMatch = record {
  stored = head refl;
  of_document = refl;
  document = manual_row;
  has_document = refl;
  owned = refl;
  similar = omega arith;
}

nearest-Finds_example :
    let rows = nearest sample_env (some "ann") 0 unit_vector 5 (pos 0) manual_tables in
    All (IsMatch sample_env "ann" 0 unit_vector (pos 0) manual_tables) rows
    × (Memᴰ manual_chunk rows
        ⊎ ((length rows ≡ 5)
            × All
                (λ (found : ChunkRow).
                  sample_env.cosine_distance found.embedding unit_vector
                  ≤ sample_env.cosine_distance manual_chunk.embedding unit_vector)
                rows))
nearest-Finds_example =
    nearest-Finds sample_env "ann" 0 unit_vector (pos 0) manual_tables 5 manual_chunk
      manual_chunk-IsMatch

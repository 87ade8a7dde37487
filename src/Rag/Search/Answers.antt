-- ===== src/Rag/Search/Answers.antt =====
-- What a search answers with.
use holahost.Base.{ℕ, ◌≡◌, refl, ap, sym, List, [], ◌∷◌, map, ok}
use mathlib.Core.Path.{subst}
use holahost.Base.Int.{ℤ}
use holahost.Rag.Values.{DocumentId, OwnerSubject, Embedding}
use holahost.Rag.Data.{Env, World, SearchHit, SearchHitView, SearchCmd}
use holahost.Rag.Ports.Gives.{
  Gives, with_uow-Gives, statement-Gives, skip-Gives, bind-Gives, checked-Gives, pure-Gives,
  returned-Gives,
}
use holahost.Rag.Search.{top_k}
use holahost.Rag.Search.Ranking.{
  IsRanked, IsRankedHits, score_of, nearest-IsRanked, rows-IsRankedHits,
}
use holahost.Rag.UseCases.{search_document_use_case, hit_view}

module _ (env : Env) (k : ℕ) (threshold : ℤ) where
  top_k-IsRankedHits :
      (owner : OwnerSubject) (id : DocumentId) (query : Embedding) (w : World)
      → Gives (IsRankedHits env query.value k threshold) (top_k env owner id query k threshold w)
  unfolding top_k
  top_k-IsRankedHits owner id query w = skip-Gives _ _ _ w (λ _ w.
      bind-Gives (λ rows. IsRanked k threshold (map (score_of env query.value k threshold) rows)) _
        _ _ w
        (statement-Gives _ env _ w
          (λ setting t. nearest-IsRanked env query.value k threshold setting id.value t))
        (λ rows w h. checked-Gives _ _ w (rows-IsRankedHits env query.value k threshold rows h)))

  abbrev pub scores_of : List SearchHitView → List ℤ
  scores_of views = map (λ (v : SearchHitView). v.score) views

  map-hit_view :
      (hits : List SearchHit)
      → scores_of (map (hit_view env) hits) ≡ map (λ (h : SearchHit). h.score.value) hits
  map-hit_view [] = refl
  map-hit_view (h ∷ hits) = ap (λ xs. h.score.value ∷ xs) (map-hit_view hits)

  search_document_use_case-Gives :
      (max_query_length : ℕ) (cmd : SearchCmd) (w : World)
      → Gives
          (λ views. IsRanked k threshold (scores_of views))
          (search_document_use_case env k threshold max_query_length cmd w)
  unfolding search_document_use_case IsRankedHits
  search_document_use_case-Gives max_query_length cmd w = skip-Gives _ _ _ w (λ owner w.
      skip-Gives _ _ _ w (λ id w. skip-Gives _ _ _ w (λ _ w. skip-Gives _ _ _ w (λ query w.
        bind-Gives (IsRankedHits env query.value k threshold) _ _ _ w
          (with_uow-Gives _ env _ w (λ w.
            skip-Gives _ _ _ w
              (λ existing w. skip-Gives _ _ _ w (λ found w. top_k-IsRankedHits owner id query w))))
          (λ hits w h.
            pure-Gives _ _ w (subst (IsRanked k threshold) (sym (map-hit_view hits)) h))))))

  -- Whatever runs beside it: what a search returns are at most `k` chunks, each of at least the threshold's
  -- score, in the order of descending scores.
  pub search_document_use_case-IsRanked :
      (max_query_length : ℕ) (cmd : SearchCmd) (w : World) (views : List SearchHitView) (w' : World)
      → search_document_use_case env k threshold max_query_length cmd w ≡ (ok views, w')
      → IsRanked k threshold (scores_of views)
  search_document_use_case-IsRanked max_query_length cmd w views w' e =
      returned-Gives _ _ views w' e (search_document_use_case-Gives max_query_length cmd w)

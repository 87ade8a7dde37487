-- ===== src/Rag/Search/Ranking.antt =====
-- Which chunks a search answers with, and in what order.
use mathlib.Core.Path.{subst}
use holahost.Base.{
  ℕ, suc, ◌≤◌, ◌≡◌, refl, ap, sym, true, List, [], ◌∷◌, map, keep, ok, err, length, All, traverse,
  and_then, arith, keep-All,
}
use holahost.Base.Int.{ℤ, pos, ◌-ℤ◌, ◌≤ℤ◌, -ℤ_parts}
use holahost.Base.Sorting.{sort_by, take, IsSorted, length-take, take-All}
use holahost.Base.Sorting.Ranked.{sort_by-IsSorted, sort_by-All, take-IsSorted}
use holahost.Rag.Values.{
  Valid, SimilarityScore, make_page_number, make_similarity_score, billion, Float,
}
use holahost.Rag.Values.Accepted.{
  Returns, Returns-any, and_then-Returns, make_similarity_score-Returns,
}
use holahost.Rag.Storage.{ChunkRow, Tables, Setting}
use holahost.Rag.Data.{Env, SearchHit}
use holahost.Rag.Search.{visible_chunks, nearest, distance, is_near, page_value, hit}

-- Each is at least those after it.
abbrev pub IsDescending : List ℤ → Type 0
IsDescending [] = Unit
IsDescending (x ∷ xs) = All (λ y. y ≤ℤ x) xs × IsDescending xs

-- The scores of what a search may answer with.
pub record IsRanked (k : ℕ) (threshold : ℤ) (scores : List ℤ) : Type 0 where
  pub size : length scores ≤ k
  pub above : All (λ score. threshold ≤ℤ score) scores
  pub descending : IsDescending scores

module _ (env : Env) where
  module _ (query : List Float) (k : ℕ) (threshold : ℤ) where
    abbrev pub score_of : ChunkRow → ℤ
    score_of row = pos billion -ℤ pos (distance env query row)

    scores-above :
        (rows : List ChunkRow)
        → All (λ row. is_near env query threshold row ≡ true) rows
        → All (λ score. threshold ≤ℤ score) (map score_of rows)
    scores-above [] h = tt
    scores-above (row ∷ rows) h = (
      ground (
        arith,
        -ℤ_parts (pos billion) threshold,
        -ℤ_parts (pos billion) (pos (distance env query row)),
        h.0,
      ),
      scores-above rows h.1,
    )

    scores-below :
        (row : ChunkRow) (rows : List ChunkRow)
        → All (λ y. distance env query row ≤ distance env query y) rows
        → All (λ score. score ≤ℤ score_of row) (map score_of rows)
    scores-below row [] h = tt
    scores-below row (r ∷ rows) h = (
      ground (
        arith,
        -ℤ_parts (pos billion) (pos (distance env query r)),
        -ℤ_parts (pos billion) (pos (distance env query row)),
        h.0,
      ),
      scores-below row rows h.1,
    )

    scores-IsDescending :
        (rows : List ChunkRow)
        → IsSorted (distance env query) rows
        → IsDescending (map score_of rows)
    scores-IsDescending [] h = tt
    scores-IsDescending (row ∷ rows) h = (scores-below row rows h.0, scores-IsDescending rows h.1)

    length-map : (rows : List ChunkRow) → length (map score_of rows) ≡ length rows
    length-map [] = refl
    length-map (row ∷ rows) = ap suc (length-map rows)

    pub nearest-IsRanked :
        (setting : Setting) (id : ℕ) (t : Tables)
        → IsRanked k threshold (map score_of (nearest env setting id query k threshold t))
    unfolding nearest
    nearest-IsRanked setting id t =
        let found = keep (is_near env query threshold) (visible_chunks setting id t) in
        let sorted = sort_by (distance env query) found in
        record {
          size = omega (arith, length-map (take k sorted), length-take k sorted);
          above = scores-above (take k sorted) (
              take-All _ k sorted (
                sort_by-All (distance env query) _ found
                  (keep-All (is_near env query threshold) (visible_chunks setting id t))));
          descending = scores-IsDescending (take k sorted) (
              take-IsSorted (distance env query) k sorted
                (sort_by-IsSorted (distance env query) found));
        }

    hit-score :
        (row : ChunkRow)
        → Returns (λ (h : SearchHit). h.score.value ≡ score_of row) (hit env query row)
    unfolding hit
    hit-score row =
        and_then-Returns (λ page. Unit) _ (make_page_number (page_value env row.page)) _
          (Returns-any _)
          (λ page _.
            and_then-Returns (λ (s : SimilarityScore). s.value ≡ score_of row) _
              (make_similarity_score (score_of row)) _
              (make_similarity_score-Returns (score_of row)) (λ score e. e))

    -- The hits have the rows' scores.
    hits-scores :
        (rows : List ChunkRow)
        → Returns
            (λ hits. map (λ (h : SearchHit). h.score.value) hits ≡ map score_of rows)
            (traverse (hit env query) rows)
    unfolding traverse
    hits-scores [] = refl
    hits-scores (row ∷ rows) =
        next (hit env query row) (traverse (hit env query) rows) (hit-score row) (hits-scores rows)
      where
        next :
            (x : Valid SearchHit) (rest : Valid (List SearchHit))
            → Returns (λ (h : SearchHit). h.score.value ≡ score_of row) x
            → Returns (λ hits. map (λ (h : SearchHit). h.score.value) hits ≡ map score_of rows) rest
            → Returns
                (λ hits. map (λ (h : SearchHit). h.score.value) hits ≡ map score_of (row ∷ rows))
                (and_then x (λ y. and_then rest (λ ys. ok (y ∷ ys))))
        next (ok h) (ok hs) e es = rw (e, es) refl
        next (ok h) (err x) e es = tt
        next (err x) rest e es = tt

    unfoldable pub IsRankedHits : List SearchHit → Type 0
    IsRankedHits hits = IsRanked k threshold (map (λ (h : SearchHit). h.score.value) hits)

    pub rows-IsRankedHits :
        (rows : List ChunkRow)
        → IsRanked k threshold (map score_of rows)
        → Returns IsRankedHits (traverse (hit env query) rows)
    unfolding IsRankedHits
    rows-IsRankedHits rows h = both (traverse (hit env query) rows) (hits-scores rows)
      where
        both :
            (r : Valid (List SearchHit))
            → Returns (λ hits. map (λ (h : SearchHit). h.score.value) hits ≡ map score_of rows) r
            → Returns IsRankedHits r
        both (ok hits) e = subst (IsRanked k threshold) (sym e) h
        both (err e) _ = tt

-- ===== src/Search/Retrieve/Inside.antt =====
-- An answer from the index of the rows is never an `IndexError`.
use enterprise_angular_nest.Base.{
  ℕ, suc, ◌+◌, String, Option, some, List, [], ◌∷◌, ◌≡◌, refl, map, length, All, ◌≤◌, ◌<◌, arith,
  Bool-cases, inl, inr,
}
use enterprise_angular_nest.Base.Floats.{Floats}
use enterprise_angular_nest.Base.Sort.Laws.{All-sort_desc}
use enterprise_angular_nest.Base.Text.{Unicode}
use enterprise_angular_nest.Keyword.Lookup.{document}
use enterprise_angular_nest.Keyword.Lookup.Laws.{
  IsProjected, IsSearch, collect-IsSearch, length-map,
}
use enterprise_angular_nest.Ranking.Index.{Index, fit, score, score_docs, term_freqs}
use enterprise_angular_nest.Ranking.Tokens.{tokenize}
use enterprise_angular_nest.Search.Cache.{Outcome, ok}
use enterprise_angular_nest.Search.Diagnostics.{Diagnostic, Retrieved, abstains}
use enterprise_angular_nest.Search.Retrieve.{
  answer, build_index, diagnose, query_coverage, with_results,
}
use enterprise_angular_nest.Search.Rows.{Row}
use enterprise_angular_nest.Search.Threshold.{Threshold}

-- at most `n` results, each one of the rows projected to the columns, and the index they were ranked with
pub record IsAnswer (F : Floats) (rows : List Row) (columns : List String) (n : ℕ) (index : Index F)
    (o : Outcome (Retrieved F)) : Type 0 where
  pub retrieved : Retrieved F
  pub returns : o ≡ ok retrieved
  pub from_index : retrieved.index ≡ some index
  pub at_most : length retrieved.results ≤ n
  pub rows_of : All (IsProjected rows columns) retrieved.results

module _ (F : Floats) (u : Unicode) where
  open F use {Float, lt}

  score_docs-inside :
      (index : Index F) (tokens : List String) (n i : ℕ) (docs : List (List String))
      → i + length docs ≤ n
      → All
          (λ (p : ℕ × Float). p.0 < n)
          (score_docs F index tokens i (map length docs) (map term_freqs docs))
  score_docs-inside index tokens n i [] h = tt
  score_docs-inside index tokens n i (d ∷ docs) h =
      (omega (arith, h), score_docs-inside index tokens n (i + 1) docs (omega (arith, h)))

  score-inside :
      (rows : List Row) (doc : Row → List String) (tokens : List String)
      → All (λ (p : ℕ × Float). p.0 < length rows) (score F (fit F (map doc rows)) tokens)
  unfolding score fit
  score-inside [] doc tokens =
      All-sort_desc lt (λ (p : ℕ × Float). p.1) (λ (p : ℕ × Float). p.0 < 0) [] tt
  score-inside (r ∷ rows) doc tokens =
      All-sort_desc lt (λ (p : ℕ × Float). p.1) (λ (p : ℕ × Float). p.0 < suc (length rows))
        (score_docs F (fit F (map doc (r ∷ rows))) tokens 0 (map length (map doc (r ∷ rows)))
          (map term_freqs (map doc (r ∷ rows))))
        (score_docs-inside (fit F (map doc (r ∷ rows))) tokens (suc (length rows)) 0
          (map doc (r ∷ rows)) (rw (length-map doc rows) (omega arith)))

  search-IsAnswer :
      (rows : List Row) (columns : List String) (n : ℕ) (index : Index F)
      (diagnostic : Diagnostic F) (found : Option (List Row))
      → IsSearch rows columns n found
      → IsAnswer F rows columns n index (with_results u index diagnostic found)
  search-IsAnswer rows columns n index diagnostic found s = record {
    retrieved = record { results = s.results; index = some index; diagnostic = diagnostic };
    returns = rw s.returns;
    from_index = refl;
    at_most = s.at_most;
    rows_of = s.rows_of;
  }

  nothing-IsSearch :
      (rows : List Row) (columns : List String) (n : ℕ) → IsSearch rows columns n (some [])
  nothing-IsSearch rows columns n = record {
    results = [];
    returns = refl;
    at_most = omega arith;
    rows_of = tt;
  }

  pub answer-IsAnswer :
      (rows : List Row) (search_cols output_cols : List String) (query : String) (n : ℕ)
      (threshold : Threshold F) (rewritten : String × List String)
      → IsAnswer F rows output_cols n
          (build_index u search_cols rows)
          (answer u rows output_cols query n threshold (build_index u search_cols rows) rewritten)
  unfolding answer
  answer-IsAnswer rows search_cols output_cols query n threshold rewritten =
      let index = build_index u search_cols rows in
      let ranked = score F index (tokenize u rewritten.0) in
      let coverage = query_coverage u index rewritten.0 in
      let collected = collect-IsSearch F u rows output_cols n ranked (
        score-inside rows (λ row. tokenize u (document search_cols row))
          (tokenize u rewritten.0)) in
      search-IsAnswer rows output_cols n index
        (diagnose u threshold query ranked coverage rewritten) _
        (elim (Bool-cases (abstains F threshold ranked coverage)) [
          | inl e ↦ rw e (nothing-IsSearch rows output_cols n)
          | inr e ↦ rw e collected
        ])

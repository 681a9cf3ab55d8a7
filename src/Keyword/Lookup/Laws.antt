-- ===== src/Keyword/Lookup/Laws.antt =====
-- What `_search_csv` returns.
use enterprise_angular_nest.Base.{
  ap, ℕ, zero, ◌+◌, Bool-cases, inl, inr, suc, String, Option, some, List, [], ◌∷◌, ◌≡◌, refl, map,
  length, take, All, get_elem?, ◌≤◌, ◌<◌, arith,
}
use enterprise_angular_nest.Base.Sort.Laws.{All-sort_desc}
use enterprise_angular_nest.Base.Floats.{Floats}
use enterprise_angular_nest.Base.Text.{Unicode}
use enterprise_angular_nest.Search.Rows.{Row, project_row}
use enterprise_angular_nest.Keyword.Ranking.{
  keyword_score, keyword_docs, fit_seen, words, KeywordIndex,
}
use enterprise_angular_nest.Keyword.Lookup.{search_rows, ranked_rows, collect, document, cons_row}

-- The row is at some index of the table.
pub record IsProjected (rows : List Row) (columns : List String) (result : Row) : Type 0 where
  pub at : ℕ
  pub row : Row
  pub found : get_elem? rows at ≡ some row
  pub projected : result ≡ project_row row columns

pub record IsSearch (rows : List Row) (columns : List String) (n : ℕ) (answer : Option (List Row))
    : Type 0 where
  pub results : List Row
  pub returns : answer ≡ some results
  pub at_most : length results ≤ n
  pub rows_of : All (IsProjected rows columns) results

pub get_elem-lt :
    (rows : List Row) (i : ℕ) → i < length rows → (row : Row) × (get_elem? rows i ≡ some row)
get_elem-lt [] i h = absurd (omega (arith, h))
get_elem-lt (r ∷ rows) zero h = (r, refl)
get_elem-lt (r ∷ rows) (suc i) h = get_elem-lt rows i (omega (arith, h))

pub length-map : (doc : Row → List String) (rows : List Row) → length (map doc rows) ≡ length rows
length-map doc [] = refl
length-map doc (r ∷ rows) = ap suc (length-map doc rows)

module _ (F : Floats) (u : Unicode) where
  open F use {Float, of_nat, lt}

  docs-inside :
      (x : KeywordIndex F) (tokens : List String) (n i : ℕ) (docs : List (List String))
      → i + length docs ≤ n
      → All (λ (p : ℕ × Float). p.0 < n) (keyword_docs F x tokens i (map length docs) docs)
  docs-inside x tokens n i [] h = tt
  docs-inside x tokens n i (d ∷ docs) h =
      (omega (arith, h), docs-inside x tokens n (i + 1) docs (omega (arith, h)))

  keep :
      (rows : List Row) (columns : List String) (n i : ℕ) (answer : Option (List Row))
      → i < length rows
      → IsSearch rows columns n answer
      → IsSearch rows columns (suc n) (cons_row (get_elem? rows i) answer columns)
  keep rows columns n i answer h s = record {
    results = project_row (get_elem-lt rows i h).0 columns ∷ s.results;
    returns = rw ((get_elem-lt rows i h).1, s.returns) refl;
    at_most = omega (arith, s.at_most);
    rows_of = (
      record {
        at = i;
        row = (get_elem-lt rows i h).0;
        found = (get_elem-lt rows i h).1;
        projected = refl;
      },
      s.rows_of,
    );
  }

  widen :
      (rows : List Row) (columns : List String) (n : ℕ) (answer : Option (List Row))
      → IsSearch rows columns n answer
      → IsSearch rows columns (suc n) answer
  widen rows columns n answer s = record {
    results = s.results;
    returns = s.returns;
    at_most = omega (arith, s.at_most);
    rows_of = s.rows_of;
  }

  pub collect-IsSearch :
      (rows : List Row) (columns : List String) (n : ℕ) (ranked : List (ℕ × Float))
      → All (λ (p : ℕ × Float). p.0 < length rows) ranked
      → IsSearch rows columns n (collect F u rows columns (take n ranked))
  collect-IsSearch rows columns zero ranked h = record {
    results = [];
    returns = refl;
    at_most = omega arith;
    rows_of = tt;
  }
  collect-IsSearch rows columns (suc n) [] h = record {
    results = [];
    returns = refl;
    at_most = omega arith;
    rows_of = tt;
  }
  collect-IsSearch rows columns (suc n) ((i, score) ∷ ranked) h =
      elim (Bool-cases (lt (of_nat 0) score)) [
        | inl e ↦ rw e (
            keep rows columns n i (collect F u rows columns (take n ranked)) h.0
              (collect-IsSearch rows columns n ranked h.1))
        | inr e ↦ rw e (
            widen rows columns n (collect F u rows columns (take n ranked))
              (collect-IsSearch rows columns n ranked h.1))
      ]

  ranked_inside :
      (rows : List Row) (doc : Row → List String) (tokens : List String)
      → All
          (λ (p : ℕ × Float). p.0 < length rows)
          (keyword_score F (fit_seen F (map doc rows)) tokens)
  unfolding keyword_score fit_seen
  ranked_inside [] doc tokens =
      All-sort_desc lt (λ (p : ℕ × Float). p.1) (λ (p : ℕ × Float). p.0 < 0) [] tt
  ranked_inside (r ∷ rows) doc tokens =
      All-sort_desc lt (λ (p : ℕ × Float). p.1) (λ (p : ℕ × Float). p.0 < suc (length rows))
        (keyword_docs F (fit_seen F (map doc (r ∷ rows))) tokens 0 (map length (map doc (r ∷ rows)))
          (map doc (r ∷ rows)))
        (docs-inside (fit_seen F (map doc (r ∷ rows))) tokens (suc (length rows)) 0
          (map doc (r ∷ rows)) (rw (length-map doc rows) (omega arith)))

  -- On every table, `_search_csv` returns: never with an `IndexError`, at most `max_results` results,
  -- and each is a row of the table projected to the output columns.
  pub search_rows-IsSearch :
      (rows : List Row) (search_cols output_cols : List String) (query : String) (max_results : ℕ)
      → IsSearch rows output_cols max_results
          (search_rows F u rows search_cols output_cols query max_results)
  unfolding search_rows
  search_rows-IsSearch rows search_cols output_cols query n =
      collect-IsSearch rows output_cols n (ranked_rows F u rows search_cols query)
        (ranked_inside rows (λ row. words u (document search_cols row)) (words u query))

-- ===== src/Keyword/Lookup.antt =====
-- `_search_csv`, `detect_domain` and `search` over tables that may be missing.

pub mod Laws
pub mod Domain
use enterprise_angular_nest.Base.{
  ℕ, zero, suc, ◌+◌, Bool, true, false, String, Option, none, some, List, [], ◌∷◌, map, ltb, eqb,
  length, take, get_elem?, if◌then◌else◌,
}
use enterprise_angular_nest.Base.Dict
use enterprise_angular_nest.Base.Dict.{Dict, lookup}
use enterprise_angular_nest.Base.Text.{Unicode, has_sub, join}
use enterprise_angular_nest.Base.Floats.{Floats}
use enterprise_angular_nest.Search.Rows.{Row, text_of, project_row}
use enterprise_angular_nest.Keyword.Ranking.{words, fit_seen, keyword_score}

-- an entry of `CSV_CONFIG`
pub data Config : Type 0 where
  config : String → List String → List String → Config

-- What `_load_csv` finds under a file name; `none` for a file that does not exist.
abbrev pub Tables : Type 0
Tables = String → Option (List Row)

-- the dictionary that `search` returns
pub data Answer : Type 0 where
  -- domain, query, file, count and results
  found : String → String → String → ℕ → List Row → Answer
  -- the file that is missing, and the domain
  file_not_found : String → String → Answer

-- the row numbers at which the loop below looks; `none` is an `IndexError`
abbrev pub cons_row : Option Row → Option (List Row) → List String → Option (List Row)
cons_row (some row) (some rest) columns = some (project_row row columns ∷ rest)
cons_row _ _ columns = none

-- `" ".join(str(row.get(col, "")) for col in search_cols)`
abbrev pub document : List String → Row → String
document columns row = join " " (map (λ column. text_of column row) columns)

module _ (F : Floats) (u : Unicode) where
  -- `for idx, score in ranked[:max_results]`
  abbrev pub collect : List Row → List String → List (ℕ × F.Float) → Option (List Row)
  collect rows columns [] = some []
  collect rows columns ((i, score) ∷ ranked) =
      let rest = collect rows columns ranked in
      let with_row = cons_row (get_elem? rows i) rest columns in
      if F.lt (F.of_nat 0) score then with_row else rest

  abbrev pub ranked_rows : List Row → List String → String → List (ℕ × F.Float)
  ranked_rows rows columns query =
      keyword_score F (fit_seen F (map (λ row. words u (document columns row)) rows))
        (words u query)

  unfoldable pub search_rows : List Row → List String → List String → String → ℕ → Option (List Row)
  unfolding keyword_score fit_seen words project_row
  search_rows rows search_cols output_cols query max_results =
      collect rows output_cols (take max_results (ranked_rows rows search_cols query))

  -- `_search_csv`
  abbrev pub search_csv :
      Option (List Row) → List String → List String → String → ℕ → Option (List Row)
  search_csv none search_cols output_cols query max_results = some []
  search_csv (some rows) search_cols output_cols query max_results =
      search_rows rows search_cols output_cols query max_results

  abbrev answer : String → String → String → Option (List Row) → Option Answer
  answer domain query file none = none
  answer domain query file (some results) = some (found domain query file (length results) results)

  abbrev pub search_table :
      Tables → String → String → Config → ℕ → Option (List Row) → Option Answer
  search_table tables domain query (config file search_cols output_cols) n none =
      some (file_not_found file domain)
  search_table tables domain query (config file search_cols output_cols) n (some rows) =
      answer domain query file (search_csv (some rows) search_cols output_cols query n)

  abbrev file_of : Config → String
  file_of (config file search_cols output_cols) = file

  -- `search` with the domain resolved to its entry of the configuration
  unfoldable pub search_config : Tables → String → String → Config → ℕ → Option Answer
  unfolding search_rows
  search_config tables domain query c n = search_table tables domain query c n (tables (file_of c))

-- `sum(1 for kw in keywords if kw in query_lower)`
abbrev pub hits : String → List String → ℕ
hits query [] = 0
hits query (keyword ∷ keywords) =
    let rest = hits query keywords in if has_sub keyword query then suc rest else rest

-- `max(scores, key=scores.get)`: the first of the best, from the best so far
abbrev pub best_of : String × ℕ → List (String × ℕ) → String × ℕ
best_of best [] = best
best_of best ((domain, score) ∷ scores) =
    best_of (if ltb best.1 score then (domain, score) else best) scores

abbrev pub score_all : String → Dict (List String) → List (String × ℕ)
score_all query [] = []
score_all query ((domain, keywords) ∷ d) = (domain, hits query keywords) ∷ score_all query d

abbrev pub or_default : String → String × ℕ → String
or_default default best = if ltb 0 best.1 then best.0 else default

-- `best if scores[best] > 0 else default`, for a lowered query
unfoldable pub best_domain : String → Dict (List String) → String → String
best_domain default [] query = default
best_domain default ((domain, keywords) ∷ d) query =
    or_default default (best_of (domain, hits query keywords) (score_all query d))

-- ===== src/Search/Retrieve.antt =====
-- Calibrated retrieval: `_get_bm25`, `_query_coverage` and `_search_csv_detailed`.
pub mod Inside
pub mod Indexes
pub mod Laws
use enterprise_angular_nest.Base.{
  ℕ, suc, Bool, true, false, ◌&&◌, String, ◌==◌, Option, none, some, List, [], ◌∷◌, map, filter,
  length, take, if◌then◌else◌, is_empty,
}
use enterprise_angular_nest.Search.Diagnostics.{
  Diagnostic, Retrieved, abstains, only_reason, read_failed, runner_up_score_of, top_of,
}
use enterprise_angular_nest.Base.Floats.{Floats}
use enterprise_angular_nest.Base.Text.{Unicode, contains, distinct}
use enterprise_angular_nest.Keyword.Lookup.{collect, document}
use enterprise_angular_nest.Ranking.Index.{Index, fit, score, vocabulary}
use enterprise_angular_nest.Ranking.Tokens.{normalize, tokenize}
use enterprise_angular_nest.Search.Cache.{
  Files, Outcome, Signature, err, index_error, load_csv_snapshot, ok, same_signature,
}
use enterprise_angular_nest.Search.Config.{search_calibration_version}
use enterprise_angular_nest.Search.Memory.{Act, Key, exists, on_caches, return, ◌>>=◌}
use enterprise_angular_nest.Search.Routing.{rewrite_query_for_domain}
use enterprise_angular_nest.Search.Rows.{Row, project_row}
use enterprise_angular_nest.Search.Threshold.{Threshold}

-- `a == b` on tuples of columns
abbrev pub same_columns : List String → List String → Bool
same_columns [] [] = true
same_columns (a ∷ more) (b ∷ others) = a == b && same_columns more others
same_columns _ _ = false

abbrev pub same_key : Key → Key → Bool
same_key a b = a.path == b.path && same_columns a.columns b.columns && a.variant == b.variant

abbrev pub find_index : {V : Type 0} → Key → List (Key × V) → Option V
find_index key [] = none
find_index key ((k, v) ∷ entries) =
    let rest = find_index key entries in if same_key k key then some v else rest

-- `sum(token in vocabulary for token in tokens)`
abbrev pub count_known : List String → List String → ℕ
count_known known [] = 0
count_known known (token ∷ tokens) =
    let rest = count_known known tokens in if contains known token then suc rest else rest

module _ {F : Floats} (u : Unicode) where
  -- `_query_coverage`
  unfoldable pub query_coverage : Index F → String → F.Float
  unfolding tokenize
  query_coverage index query =
      let tokens = distinct (tokenize u query) in
      if is_empty tokens
      then F.of_nat 0
      else F.div (F.of_nat (count_known (vocabulary F index) tokens)) (F.of_nat (length tokens))

  abbrev pub build_index : List String → List Row → Index F
  build_index columns rows = fit F (map (λ row. tokenize u (document columns row)) rows)

  abbrev pub store_index : Key → List Row → Signature → Act F (Index F)
  store_index key rows sig m =
      let index = build_index key.columns rows in
      (ok index, record m { indexes = (key, (sig, index)) ∷ m.indexes })

  abbrev pub use_index : Key → List Row → Signature → Option (Signature × Index F) → Act F (Index F)
  use_index key rows sig none = store_index key rows sig
  use_index key rows sig (some (held, index)) =
      if same_signature held sig then return index else store_index key rows sig

  -- `_get_bm25`, with the signature that its caller has
  unfoldable pub get_bm25 : String → List String → List Row → Signature → String → Act F (Index F)
  unfolding fit tokenize
  get_bm25 path columns rows sig variant m =
      let key : Key = record { path = path; columns = columns; variant = variant } in
      use_index key rows sig (find_index key m.indexes) m

  abbrev pub diagnose :
      Threshold F → String → List (ℕ × F.Float) → F.Float → String × List String → Diagnostic F
  diagnose threshold query ranked coverage (search_query, rewrites) = record {
    reason = if abstains F threshold ranked coverage then "low-confidence" else "matched";
    abstained = some (abstains F threshold ranked coverage);
    error = none;
    queries = some (record {
      normalized_query = normalize u query;
      search_query = search_query;
      query_rewrites = rewrites;
      calibration_version = search_calibration_version;
    });
    scores = some (record {
      top_score = top_of F ranked;
      runner_up_score = runner_up_score_of F ranked;
      margin = F.sub (top_of F ranked) (runner_up_score_of F ranked);
      token_coverage = coverage;
    });
  }

  abbrev pub with_results : Index F → Diagnostic F → Option (List Row) → Outcome (Retrieved F)
  with_results index diagnostic none = err index_error
  with_results index diagnostic (some results) =
      ok (record { results = results; index = some index; diagnostic = diagnostic })

  -- The results and the diagnostics, for an index, the rows it stands for, and the query it is asked.
  unfoldable pub answer :
      List Row
      → List String
      → String
      → ℕ
      → Threshold F
      → Index F
      → String × List String
      → Outcome (Retrieved F)
  unfolding score query_coverage normalize project_row
  answer rows output_cols query max_results threshold index rewritten =
      let ranked = score F index (tokenize u rewritten.0) in
      let coverage = query_coverage index rewritten.0 in
      with_results index (diagnose threshold query ranked coverage rewritten) (
        if abstains F threshold ranked coverage
        then some []
        else collect F u rows output_cols (take max_results ranked))

-- A request to `_search_csv_detailed`: its arguments but for the path.
pub record Request (F : Floats) : Type 0 where
  pub search_cols : List String
  pub output_cols : List String
  pub query : String
  pub max_results : ℕ
  pub threshold : Threshold F
  pub routing_domain : Option String
  pub row_filter : Row → Bool
  pub cache_variant : String

module _ {F : Floats} (files : Files) (u : Unicode) (order : List String → List String)
    (path_of : String → String) (file : String) (q : Request F) where
  abbrev nothing_found : Diagnostic F → Act F (Retrieved F)
  nothing_found diagnostic = return (record { results = []; index = none; diagnostic = diagnostic })

  abbrev finish : List Row → Index F → String × List String → Act F (Retrieved F)
  finish rows index rewritten m =
      (answer u rows q.output_cols q.query q.max_results q.threshold index rewritten, m)

  abbrev rank_with : List Row → Index F → Act F (Retrieved F)
  rank_with rows index =
      rewrite_query_for_domain files u order path_of q.query q.routing_domain index
      >>= finish rows index

  abbrev pub rank_rows : Signature → List Row → Act F (Retrieved F)
  rank_rows sig [] = nothing_found (only_reason F "empty-data")
  rank_rows sig (row ∷ rows) =
      get_bm25 u (path_of file) q.search_cols (row ∷ rows) sig q.cache_variant
      >>= rank_with (row ∷ rows)

  abbrev pub read_rows : Outcome (List Row × Signature) → Act F (Retrieved F)
  read_rows (err e) = nothing_found (read_failed F file)
  read_rows (ok (rows, sig)) = rank_rows sig (filter q.row_filter rows)

  abbrev pub retrieve_if : Bool → Act F (Retrieved F)
  retrieve_if false m = nothing_found (only_reason F "missing-file") m
  retrieve_if true m =
      let (loaded, n) = on_caches (load_csv_snapshot files (path_of file) 3) m in read_rows loaded n

  -- `_search_csv_detailed`; no filter is the filter that keeps every row.
  unfoldable pub search_csv_detailed : Act F (Retrieved F)
  unfolding load_csv_snapshot get_bm25 rewrite_query_for_domain answer
  search_csv_detailed = exists files (path_of file) >>= retrieve_if

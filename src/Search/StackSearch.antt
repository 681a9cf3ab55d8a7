-- ===== src/Search/StackSearch.antt =====
-- `search_stack`.
pub mod Kept
pub mod Pages
pub mod Laws
use enterprise_angular_nest.Ranking.Index.{Index}
use enterprise_angular_nest.Search.StackRows.{
  exact_of, exact_stack_identifier, legacy_successor_guidance,
}
use enterprise_angular_nest.Base.{
  ℕ, Bool, true, false, String, ◌==◌, Option, none, some, List, [], ◌∷◌, length, if◌then◌else◌,
  is_empty,
}
use enterprise_angular_nest.Base.Dict.{lookup}
use enterprise_angular_nest.Base.Floats.{Floats}
use enterprise_angular_nest.Base.Text.{Unicode}
use enterprise_angular_nest.Search.Answers.{Limit, exact_match_diagnostic, valid_max_results}
use enterprise_angular_nest.Search.Cache.{Files}
use enterprise_angular_nest.Search.Config.{stack_config, stack_output_cols, stack_search_cols}
use enterprise_angular_nest.Search.Diagnostics.{Diagnostic, Retrieved}
use enterprise_angular_nest.Search.Memory.{Act, exists, load_rows_or_empty, return, ◌>>=◌}
use enterprise_angular_nest.Search.Retrieve.{Request, search_csv_detailed}
use enterprise_angular_nest.Search.Rows.{Row, project_row}
use enterprise_angular_nest.Search.Stack.{Versions, normal, stack_row_filter}
use enterprise_angular_nest.Search.Suggest.{suggest_terms}
use enterprise_angular_nest.Search.Threshold.{Threshold, no_threshold, stack_threshold}

module _ (F : Floats) where
  pub record StackFound : Type 0 where
    pub stack : String
    pub query : String
    pub file : String
    pub count : ℕ
    pub results : List Row
    pub error : Option String
    pub suggestions : Option (List String)
    pub diagnostics : Option (Diagnostic F)

  -- the dictionary that `search_stack` returns
  pub data StackAnswer : Type 0 where
    invalid_max_results unknown_stack : String → StackAnswer
    stack_file_not_found : String → String → StackAnswer
    found : StackFound → StackAnswer

  abbrev pub threshold_of : String → Threshold F
  threshold_of variant = if variant == "legacy-only" then no_threshold F else stack_threshold F

  abbrev report :
      String → String → String → Bool → (Option (Index F) → List String) → Retrieved F → StackAnswer
  report query stack file diagnostics suggest r = found (record {
    stack = stack;
    query = query;
    file = file;
    count = length r.results;
    results = r.results;
    error = r.diagnostic.error;
    suggestions = if is_empty r.results then some (suggest r.index) else none;
    diagnostics = if diagnostics then some r.diagnostic else none;
  })

module _ {F : Floats} (files : Files) (u : Unicode) (v : Versions)
    (order : List String → List String) (path_of : String → String)
    (ratio : String → String → F.Float) where
  abbrev pub stack_request : String → ℕ → (Row → Bool) × String → Request F
  stack_request query n (row_filter, variant) = record {
    search_cols = stack_search_cols;
    output_cols = stack_output_cols;
    query = query;
    max_results = n;
    threshold = threshold_of F variant;
    routing_domain = none;
    row_filter = row_filter;
    cache_variant = variant;
  }

  abbrev pub retrieve_stack :
      String → ℕ → String → (Row → Bool) × String → Option Row → Act F (Retrieved F)
  retrieve_stack query n file chosen (some row) = return (record {
    results = project_row row stack_output_cols ∷ [];
    index = none;
    diagnostic = exact_match_diagnostic u query "exact-identifier";
  })
  retrieve_stack query n file chosen none =
      search_csv_detailed files u order path_of file (stack_request query n chosen)

  abbrev finish :
      String → String → String → Bool → Threshold F → Retrieved F → Act F (StackAnswer F)
  finish query stack file diagnostics threshold r = return (
      report F query stack file diagnostics (λ index. suggest_terms F u ratio index query threshold)
        r)

  abbrev pub search_rows : String → String → ℕ → Bool → String → List Row → Act F (StackAnswer F)
  search_rows query stack n diagnostics file rows =
      let chosen = stack_row_filter u v rows query stack in
      retrieve_stack query n file chosen (exact_of u v query stack rows chosen.0)
      >>= finish query stack file diagnostics (threshold_of F chosen.1)

  abbrev search_if : String → String → ℕ → Bool → String → Bool → Act F (StackAnswer F)
  search_if query stack n diagnostics file false =
      return (stack_file_not_found (path_of file) stack)
  search_if query stack n diagnostics file true =
      load_rows_or_empty files (path_of file) >>= search_rows query stack n diagnostics file

  abbrev search_file : String → String → ℕ → Bool → Option String → Act F (StackAnswer F)
  search_file query stack n diagnostics none = return (unknown_stack stack)
  search_file query stack n diagnostics (some file) =
      exists files (path_of file) >>= search_if query stack n diagnostics file

  abbrev search_within : String → String → Bool → Option ℕ → Act F (StackAnswer F)
  search_within query stack diagnostics none = return (invalid_max_results stack)
  search_within query stack diagnostics (some n) =
      search_file query stack n diagnostics (lookup stack stack_config)

  unfoldable pub search_stack : String → String → Limit → Bool → Act F (StackAnswer F)
  unfolding stack_row_filter legacy_successor_guidance exact_stack_identifier search_csv_detailed
      suggest_terms project_row normal
  search_stack query stack max_results diagnostics =
      search_within query stack diagnostics (valid_max_results max_results)

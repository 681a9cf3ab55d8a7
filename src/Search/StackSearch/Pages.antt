-- ===== src/Search/StackSearch/Pages.antt =====
-- The pages that a stack search may serve: at most so many results, all of one generation.
use enterprise_angular_nest.Base.{
  ℕ, ◌≤◌, true, false, String, Option, none, some, List, ◌≡◌, ◌≢◌, refl, ◌∙◌, All, All-imp,
  All-filter, arith, filter, length,
}
use enterprise_angular_nest.Base.Dict.{has}
use enterprise_angular_nest.Base.Floats.{Floats}
use enterprise_angular_nest.Base.Text.{Unicode}
use enterprise_angular_nest.Keyword.Lookup.Laws.{IsProjected}
use enterprise_angular_nest.Search.Cache.{Files, Outcome, Signature, ok, err, ReadError}
use enterprise_angular_nest.Search.Cache.Coherence.{IsStable}
use enterprise_angular_nest.Search.Config.{stack_output_cols}
use enterprise_angular_nest.Search.Diagnostics.{Retrieved}
use enterprise_angular_nest.Search.Memory.{Memory}
use enterprise_angular_nest.Search.Memory.Calm.{IsRaised}
use enterprise_angular_nest.Search.Retrieve.Indexes.{IsWell}
use enterprise_angular_nest.Search.Retrieve.Laws.{
  IsRetrieved, answered, nothing, raised, search_csv_detailed-IsSearched,
}
use enterprise_angular_nest.Search.Rows.{Row, project_row}
use enterprise_angular_nest.Search.Stack.{
  Versions, requests_legacy, stack_current_versions, stack_row_filter, status,
}
use enterprise_angular_nest.Search.Stack.Laws.{stack_row_filter-generation}
use enterprise_angular_nest.Search.Stack.Names.{named_filter, stack-named}
use enterprise_angular_nest.Search.StackSearch.{stack_request, retrieve_stack}
use enterprise_angular_nest.Search.StackSearch.Kept.{All-get, status-project_row}

module _ (u : Unicode) (v : Versions) (query stack : String) where
  -- one generation of guidance
  abbrev pub IsOfGeneration : Row → Type 0
  IsOfGeneration row =
      (requests_legacy u v query stack ≡ false → status row ≢ "deprecated")
      × (requests_legacy u v query stack ≡ true
          → has stack stack_current_versions ≡ true
          → status row ≡ "deprecated")

  projected-IsOfGeneration :
      (rows : List Row) (row : Row)
      → (stack_row_filter u v rows query stack).0 row ≡ true
      → IsOfGeneration (project_row row stack_output_cols)
  projected-IsOfGeneration rows row kept =
      let of_row = stack_row_filter-generation u v rows query stack row kept in
      rw (status-project_row row) (of_row.0, of_row.1)

  result-IsOfGeneration :
      (rows all : List Row) (result : Row)
      → IsProjected
          (filter (named_filter u v (stack_row_filter u v rows query stack).1) all)
          stack_output_cols
          result
      → IsOfGeneration result
  result-IsOfGeneration rows all result p =
      let kept = filter (named_filter u v (stack_row_filter u v rows query stack).1) all in
      let named =
        All-get (λ r. named_filter u v (stack_row_filter u v rows query stack).1 r ≡ true) kept p.at
          p.row (All-filter (named_filter u v (stack_row_filter u v rows query stack).1) all)
          p.found in
      rw p.projected
        (projected-IsOfGeneration rows p.row (stack-named u v rows query stack p.row ∙ named))

-- at most `n` results, each of the generation
abbrev pub IsPage :
    {F : Floats} → Unicode → Versions → String → String → Files → ℕ → Outcome (Retrieved F) → Type 0
IsPage u v query stack files n (err e) = IsRaised files e
IsPage u v query stack files n (ok r) =
    (length r.results ≤ n) × All (IsOfGeneration u v query stack) r.results

module _ {F : Floats} (files : Files) (u : Unicode) (v : Versions)
    (order : List String → List String) (path_of : String → String)
    (ratio : String → String → F.Float) (content : String → Signature → List Row)
    (stable : IsStable files content) (query stack : String) where
  abbrev Well : Memory F → Type 0
  Well = IsWell u content (named_filter u v)

  retrieved-IsPage :
      (rows : List Row) (n : ℕ) (file : String) (o : Outcome (Retrieved F))
      → IsRetrieved files u content
          (named_filter u v)
          (path_of file)
          (stack_request files u v order path_of ratio query n
            (stack_row_filter u v rows query stack))
          o
      → IsPage u v query stack files n o
  retrieved-IsPage rows n file o (nothing r e results index) = rw e (rw results (omega arith, tt))
  retrieved-IsPage rows n file o (raised e q h) = rw q h
  retrieved-IsPage rows n file o (answered sig rewritten e h) = rw h.returns (
    h.at_most,
    All-imp
        (IsProjected
          (filter (named_filter u v (stack_row_filter u v rows query stack).1)
            (content (path_of file) sig))
          stack_output_cols)
        (IsOfGeneration u v query stack) h.retrieved.results
        (result-IsOfGeneration u v query stack rows (content (path_of file) sig)) h.rows_of,
  )

  pub unwrap_ok :
      (n : ℕ) (o : Outcome (Retrieved F)) (r : Retrieved F)
      → o ≡ ok r
      → IsPage u v query stack files n o
      → IsPage u v query stack files n (ok r)
  unwrap_ok n o r e h = rw e at h

  pub unwrap_err :
      (n : ℕ) (o : Outcome (Retrieved F)) (x : ReadError)
      → o ≡ err x
      → IsPage u v query stack files n o
      → IsRaised files x
  unwrap_err n o x e h = rw e at h

  pub retrieve_stack-IsPage :
      (rows : List Row) (n : ℕ) (file : String) (exact : Option Row) (m : Memory F)
      → 1 ≤ n
      → ((row : Row) → exact ≡ some row → (stack_row_filter u v rows query stack).0 row ≡ true)
      → Well m
      → Well
          (retrieve_stack files u v order path_of ratio query n file
            (stack_row_filter u v rows query stack)
            exact
            m).1
        × IsPage u v query stack files n
            (retrieve_stack files u v order path_of ratio query n file
              (stack_row_filter u v rows query stack)
              exact
              m).0
  retrieve_stack-IsPage rows n file (some row) m pos kept h = (
    h,
    (omega (arith, pos), (projected-IsOfGeneration u v query stack rows row (kept row refl), tt)),
  )
  retrieve_stack-IsPage rows n file none m pos kept h =
      let searched =
        search_csv_detailed-IsSearched files u order path_of content stable (named_filter u v) file
          (stack_request files u v order path_of ratio query n
            (stack_row_filter u v rows query stack))
          (stack-named u v rows query stack) m h in
      (searched.0, retrieved-IsPage rows n file _ searched.1)

-- ===== src/Search/StackSearch/Laws.antt =====
-- What a stack search serves.
use enterprise_angular_nest.Search.StackSearch.Pages.{
  IsOfGeneration, unwrap_ok, unwrap_err, retrieve_stack-IsPage,
}
use enterprise_angular_nest.Base.{
  ℕ, ◌+◌, ◌≤◌, Bool, true, false, String, Option, none, some, List, ◌≡◌, refl, All, arith, length,
}
use enterprise_angular_nest.Base.Dict.{lookup}
use enterprise_angular_nest.Base.Floats.{Floats}
use enterprise_angular_nest.Base.Text.{Unicode}
use enterprise_angular_nest.Search.Answers.{Limit, number, no_number, valid_max_results}
use enterprise_angular_nest.Search.Cache.{Files, Outcome, Signature, ok, err}
use enterprise_angular_nest.Search.Cache.Coherence.{IsStable}
use enterprise_angular_nest.Search.Config.{stack_config}
use enterprise_angular_nest.Search.Memory.{Memory, is_ok, load_rows_or_empty}
use enterprise_angular_nest.Search.Memory.Calm.{IsRaised, load_rows_or_empty-Calm, then_act-rule}
use enterprise_angular_nest.Search.Retrieve.Indexes.{IsWell}
use enterprise_angular_nest.Search.Retrieve.Laws.{}
use enterprise_angular_nest.Search.Rows.{Row}
use enterprise_angular_nest.Search.Stack.{Versions, stack_row_filter}
use enterprise_angular_nest.Search.Stack.Names.{named_filter}
use enterprise_angular_nest.Search.StackRows.{exact_of}
use enterprise_angular_nest.Search.StackSearch
use enterprise_angular_nest.Search.StackSearch.{
  StackAnswer, StackFound, found, invalid_max_results, search_stack, stack_file_not_found,
  stack_request, unknown_stack, retrieve_stack,
}
use enterprise_angular_nest.Search.StackSearch.Kept.{exact_of-kept}

module _ (u : Unicode) (v : Versions) (query stack : String) where
  -- What each answer says; `limit` is the `max_results` that was asked for.
  abbrev pub IsServed : {F : Floats} → Files → Limit → Outcome (StackAnswer F) → Type 0
  IsServed files limit (err e) = IsRaised files e
  IsServed files limit (ok (invalid_max_results s)) = valid_max_results limit ≡ none
  IsServed files limit (ok (unknown_stack s)) = lookup stack stack_config ≡ none
  IsServed files limit (ok (stack_file_not_found path s)) =
      (t : ℕ) × (is_ok (files.stat path t) ≡ false)
  IsServed files limit (ok (found f)) =
      (n : ℕ) × (valid_max_results limit ≡ some n)
      × (f.count ≡ length f.results)
      × (f.count ≤ n)
      × All (IsOfGeneration u v query stack) f.results

valid-positive : (limit : Limit) (n : ℕ) → valid_max_results limit ≡ some n → 1 ≤ n
valid-positive no_number n h = cc h
valid-positive (number k) n h = ground (arith, h)

module _ {F : Floats} (files : Files) (u : Unicode) (v : Versions)
    (order : List String → List String) (path_of : String → String)
    (ratio : String → String → F.Float) (content : String → Signature → List Row)
    (stable : IsStable files content) (query stack : String) where
  abbrev Well : Memory F → Type 0
  Well = IsWell u content (named_filter u v)

  abbrev Served : Limit → Outcome (StackAnswer F) × Memory F → Type 0
  Served limit o = Well o.1 × IsServed u v query stack files limit o.0

  module _ (limit : Limit) (n : ℕ) (valid : valid_max_results limit ≡ some n) (diagnostics : Bool)
      (file : String) where
    search_rows-Served :
        (rows : List Row) (m : Memory F)
        → Well m
        → Served limit (
            StackSearch.search_rows files u v order path_of ratio query stack n diagnostics file
              rows m)
    search_rows-Served rows m h =
        let exact = exact_of u v query stack rows (stack_row_filter u v rows query stack).0 in
        let page =
          retrieve_stack-IsPage files u v order path_of ratio content stable query stack rows n file
            exact m (valid-positive limit n valid)
            (exact_of-kept u v query stack rows (stack_row_filter u v rows query stack).0) h in
        then_act-rule (Served limit)
          (retrieve_stack files u v order path_of ratio query n file
            (stack_row_filter u v rows query stack) exact m).0
          _ _
          (λ r e.
            let facts =
              unwrap_ok files u v order path_of ratio content stable query stack n _ r e page.1 in
            (page.0, (n, valid, refl, facts.0, facts.1)))
          (λ x e. (
            page.0,
            unwrap_err files u v order path_of ratio content stable query stack n _ x e page.1,
          ))

    search_if-Served :
        (there : Bool) (t : ℕ) (m : Memory F)
        → is_ok (files.stat (path_of file) t) ≡ there
        → Well m
        → Served limit (
            StackSearch.search_if files u v order path_of ratio query stack n diagnostics file there
              m)
    search_if-Served false t m e h = (h, (t, e))
    search_if-Served true t m e h =
        let calm = load_rows_or_empty-Calm files content stable (path_of file) m h.0 in
        let well : Well (load_rows_or_empty files (path_of file) m).1 =
          (calm.0.0, rw calm.0.1 h.1) in
        then_act-rule (Served limit) (load_rows_or_empty files (path_of file) m).0
          (StackSearch.search_rows files u v order path_of ratio query stack n diagnostics file) _
          (λ rows q. search_rows-Served rows _ well) (λ x q. (well, calm.1 x q))

  search_file-Served :
      (limit : Limit) (n : ℕ) (diagnostics : Bool) (file : Option String) (m : Memory F)
      → valid_max_results limit ≡ some n
      → lookup stack stack_config ≡ file
      → Well m
      → Served limit
          (StackSearch.search_file files u v order path_of ratio query stack n diagnostics file m)
  search_file-Served limit n diagnostics none m valid e h = (h, e)
  search_file-Served limit n diagnostics (some file) m valid e h =
      search_if-Served limit n valid diagnostics file _ m.caches.time
        (record m { caches = record m.caches { time = m.caches.time + 1 } }) refl h

  search_within-Served :
      (limit : Limit) (diagnostics : Bool) (asked : Option ℕ) (m : Memory F)
      → valid_max_results limit ≡ asked
      → Well m
      → Served limit
          (StackSearch.search_within files u v order path_of ratio query stack diagnostics asked m)
  search_within-Served limit diagnostics none m valid h = (h, valid)
  search_within-Served limit diagnostics (some n) m valid h =
      search_file-Served limit n diagnostics (lookup stack stack_config) m valid refl h

  -- If a file that keeps its signature across a read gives the rows of that signature, then a stack search
  -- from well-formed caches leaves them well-formed and ends in one of these ways: `max_results` is no
  -- integer from 1 to 20, the stack is unknown, its file is missing, a `stat` fails, or it counts its
  -- results, at most `max_results`, none of them deprecated unless the query asks for a legacy version, and
  -- all of them deprecated if it does and the stack has a current version.
  pub search_stack-IsServed :
      (limit : Limit) (diagnostics : Bool) (m : Memory F)
      → IsWell u content (named_filter u v) m
      → IsWell u content
          (named_filter u v)
          (search_stack files u v order path_of ratio query stack limit diagnostics m).1
        × IsServed u v query stack files limit
            (search_stack files u v order path_of ratio query stack limit diagnostics m).0
  unfolding search_stack
  search_stack-IsServed limit diagnostics m h =
      search_within-Served limit diagnostics (valid_max_results limit) m refl h

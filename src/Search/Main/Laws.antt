-- ===== src/Search/Main/Laws.antt =====
-- What `search` answers.
use enterprise_angular_nest.Search.Main.Calm.{route_of-Calm, resolve-Calm}
use enterprise_angular_nest.Search.Domain.{contains_phrase}
use enterprise_angular_nest.Ranking.Tokens.{normalize}
use enterprise_angular_nest.Base.{
  ℕ, ◌+◌, ◌≤◌, ◌&&◌, Bool, true, false, not, String, ◌==◌, Option, none, some, List, [], ◌∷◌, ◌≡◌,
  ◌≢◌, refl, arith, length, if◌then◌else◌, is_empty,
}
use enterprise_angular_nest.Base.Floats.{Floats}
use enterprise_angular_nest.Base.Text.{Unicode}
use enterprise_angular_nest.Search.Answers.{
  Answer, Limit, file_not_found, found, invalid_max_results, number, no_number, search_domain_of,
  table_of, unless_unsupported, valid_max_results,
}
use enterprise_angular_nest.Search.Cache.{Files, Outcome, ReadError, Signature, ok, err}
use enterprise_angular_nest.Search.Cache.Coherence.{IsStable}
use enterprise_angular_nest.Search.Diagnostics.{Retrieved}
use enterprise_angular_nest.Search.Identity.{Redirect}
use enterprise_angular_nest.Search.Main
use enterprise_angular_nest.Search.Main.{
  Resolved, Route, request_for, resolve, retrieve, route_of, search,
}
use enterprise_angular_nest.Search.Memory.{Memory, is_ok}
use enterprise_angular_nest.Search.Memory.Calm.{IsRaised, then_act-rule}
use enterprise_angular_nest.Search.Retrieve.Indexes.{IsWell}
use enterprise_angular_nest.Search.Retrieve.Laws.{
  IsRetrieved, answered, nothing, raised, search_csv_detailed-IsSearched,
}
use enterprise_angular_nest.Search.Rows.{Row}
use enterprise_angular_nest.Search.Stack.{Versions}
use enterprise_angular_nest.Search.Stack.Names.{named_filter, domain-named}

-- What each answer says; `limit` is the `max_results` that was asked for.
abbrev pub IsAnswered : {F : Floats} → Files → Limit → Outcome (Answer F) → Type 0
IsAnswered files limit (err e) = IsRaised files e
IsAnswered files limit (ok (invalid_max_results domain)) = valid_max_results limit ≡ none
IsAnswered files limit (ok (file_not_found path domain)) =
    (t : ℕ) × (is_ok (files.stat path t) ≡ false)
IsAnswered files limit (ok (found f)) =
    (n : ℕ) × (valid_max_results limit ≡ some n)
    × (f.count ≡ length f.results)
    × (f.count ≤ n)
    × (f.results ≡ [] → f.suggestions ≢ none)
    × (f.results ≢ [] → f.suggestions ≡ none)

-- at most `n` results, or the error of a `stat`
abbrev IsBounded : {F : Floats} → Files → ℕ → Outcome (Retrieved F) → Type 0
IsBounded files n (err e) = IsRaised files e
IsBounded files n (ok r) = length r.results ≤ n

valid-positive : (limit : Limit) (n : ℕ) → valid_max_results limit ≡ some n → 1 ≤ n
valid-positive no_number n h = cc h
valid-positive (number k) n h = ground (arith, h)

suggests_iff :
    (rows : List Row) (b : Bool) (x y : List String)
    → (rows ≡ [] → (if not (is_empty rows) then none else if b then some x else some y) ≢ none)
      × (rows ≢ [] → (if not (is_empty rows) then none else if b then some x else some y) ≡ none)
suggests_iff [] true x y = (λ e q. cc q, λ h. absurd (h refl))
suggests_iff [] false x y = (λ e q. cc q, λ h. absurd (h refl))
suggests_iff (row ∷ rows) b x y = (λ e q. cc e, λ h. refl)

if-le :
    {F : Floats} (n : ℕ) (b : Bool) (x y : Retrieved F)
    → length x.results ≤ n
    → length y.results ≤ n
    → length (if b then x else y).results ≤ n
if-le n true x y h k = h
if-le n false x y h k = k

no_results : (n : ℕ) → length {A = Row} [] ≤ n
no_results n = omega arith

unless_unsupported-le :
    {F : Floats} (u : Unicode) (domain query : String) (n : ℕ) (r : Retrieved F)
    → length r.results ≤ n
    → length (unless_unsupported u domain query r).results ≤ n
unless_unsupported-le u domain query n r h =
    if-le n ((domain == "icons") && contains_phrase u (normalize u (u.lower query)) "lucide") _ r
      (no_results n) h

module _ {F : Floats} (files : Files) (u : Unicode) (v : Versions)
    (order : List String → List String) (path_of : String → String)
    (ratio : String → String → F.Float) (content : String → Signature → List Row)
    (stable : IsStable files content) where
  abbrev Well : Memory F → Type 0
  Well = IsWell u content (named_filter u v)

  abbrev Answered : Limit → Outcome (Answer F) × Memory F → Type 0
  Answered limit o = Well o.1 × IsAnswered files limit o.0

  retrieved-IsBounded :
      (domain query : String) (n : ℕ) (path : String) (o : Outcome (Retrieved F))
      → IsRetrieved files u content
          (named_filter u v)
          path
          (request_for files u order path_of ratio domain query n)
          o
      → IsBounded files n o
  retrieved-IsBounded domain query n path o (nothing r e results index) =
      rw e (rw results (omega arith))
  retrieved-IsBounded domain query n path o (raised e q h) = rw q h
  retrieved-IsBounded domain query n path o (answered sig rewritten e h) = rw h.returns h.at_most

  retrieve-IsBounded :
      (domain query : String) (n : ℕ) (exact : Option Row) (redirect : Option Redirect)
      (m : Memory F)
      → 1 ≤ n
      → Well m
      → Well (retrieve files u order path_of ratio domain query n exact redirect m).1
        × IsBounded files n (retrieve files u order path_of ratio domain query n exact redirect m).0
  retrieve-IsBounded domain query n (some row) redirect m pos h = (h, omega (arith, pos))
  retrieve-IsBounded domain query n none (some r) m pos h = (h, omega arith)
  retrieve-IsBounded domain query n none none m pos h =
      let searched =
        search_csv_detailed-IsSearched files u order path_of content stable (named_filter u v)
          (table_of domain).file (request_for files u order path_of ratio domain query n)
          (domain-named u v domain) m h in
      (searched.0, retrieved-IsBounded domain query n (path_of (table_of domain).file) _ searched.1)

  unwrap_ok :
      (n : ℕ) (o : Outcome (Retrieved F)) (r : Retrieved F)
      → o ≡ ok r
      → IsBounded files n o
      → length r.results ≤ n
  unwrap_ok n o r e h = rw e at h

  unwrap_err :
      (n : ℕ) (o : Outcome (Retrieved F)) (x : ReadError)
      → o ≡ err x
      → IsBounded files n o
      → IsRaised files x
  unwrap_err n o x e h = rw e at h

  module _ (limit : Limit) (n : ℕ) (valid : valid_max_results limit ≡ some n) (query : String)
      (auto diagnostics : Bool) (route : Route) where
    answer_resolved-Answered :
        (domain : String) (resolved : Resolved) (m : Memory F)
        → Well m
        → Answered limit (
            Main.answer_resolved files u order path_of ratio domain query n auto diagnostics route
              resolved m)
    answer_resolved-Answered domain resolved m h =
        let bound =
          retrieve-IsBounded domain query n resolved.exact resolved.redirect m
            (valid-positive limit n valid) h in
        then_act-rule (Answered limit)
          (retrieve files u order path_of ratio domain query n resolved.exact resolved.redirect m).0
          (Main.finish files u order path_of ratio domain query auto diagnostics route resolved) _
          (λ r e.
            let cut = unless_unsupported u domain query r in
            let suggested = suggests_iff cut.results (domain == "landing") _ _ in
            (
              bound.0,
              (
                n,
                valid,
                refl,
                unless_unsupported-le u domain query n r (unwrap_ok n _ r e bound.1),
                suggested.0,
                suggested.1,
              ),
            ))
          (λ x e. (bound.0, unwrap_err n _ x e bound.1))

    answer_if-Answered :
        (domain : String) (there : Bool) (t : ℕ) (m : Memory F)
        → is_ok (files.stat (path_of (table_of domain).file) t) ≡ there
        → Well m
        → Answered limit (
            Main.answer_if files u order path_of ratio domain query n auto diagnostics route there
              m)
    answer_if-Answered domain false t m e h = (h, (t, e))
    answer_if-Answered domain true t m e h =
        let calm =
          resolve-Calm files u order path_of ratio content stable query domain route m h.0 in
        let well : Well (resolve files u order path_of ratio query domain route m).1 =
          (calm.0.0, rw calm.0.1 h.1) in
        then_act-rule (Answered limit) (resolve files u order path_of ratio query domain route m).0
          (Main.answer_resolved files u order path_of ratio domain query n auto diagnostics route) _
          (λ resolved q. answer_resolved-Answered domain resolved _ well)
          (λ x q. (well, calm.1 x q))

    answer_route-Answered :
        (m : Memory F)
        → Well m
        → Answered limit
            (Main.answer_route files u order path_of ratio query n auto diagnostics route m)
    answer_route-Answered m h =
        answer_if-Answered (search_domain_of route.domain) _ m.caches.time
          (record m { caches = record m.caches { time = m.caches.time + 1 } }) refl h

  search_within-Answered :
      (limit : Limit) (query : String) (domain : Option String) (diagnostics : Bool)
      (asked : Option ℕ) (m : Memory F)
      → valid_max_results limit ≡ asked
      → Well m
      → Answered limit
          (Main.search_within files u order path_of ratio query domain diagnostics asked m)
  search_within-Answered limit query domain diagnostics none m valid h = (h, valid)
  search_within-Answered limit query domain diagnostics (some n) m valid h =
      let calm = route_of-Calm files u order path_of ratio content stable query domain m h.0 in
      let well : Well (route_of files u order path_of ratio query domain m).1 =
        (calm.0.0, rw calm.0.1 h.1) in
      then_act-rule (Answered limit) (route_of files u order path_of ratio query domain m).0
        (Main.answer_route files u order path_of ratio query n (Main.is_none domain) diagnostics) _
        (λ route q.
          answer_route-Answered limit n valid query (Main.is_none domain) diagnostics route _ well)
        (λ x q. (well, calm.1 x q))

  -- If a file that keeps its signature across a read gives the rows of that signature, then a search from
  -- well-formed caches leaves them well-formed and ends in one of these ways: `max_results` is no integer
  -- from 1 to 20, the file of the domain is missing, a `stat` fails, or it counts its results, at most
  -- `max_results`, and makes suggestions exactly when there are none.
  pub search-IsAnswered :
      (query : String) (domain : Option String) (limit : Limit) (diagnostics : Bool) (m : Memory F)
      → IsWell u content (named_filter u v) m
      → IsWell u content
          (named_filter u v)
          (search files u order path_of ratio query domain limit diagnostics m).1
        × IsAnswered files limit
            (search files u order path_of ratio query domain limit diagnostics m).0
  unfolding search
  search-IsAnswered query domain limit diagnostics m h =
      search_within-Answered limit query domain diagnostics (valid_max_results limit) m refl h

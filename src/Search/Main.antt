-- ===== src/Search/Main.antt =====
-- `search`: the domain, the explicit identities, the retrieval, and what is said about it.
pub mod Calm
pub mod Laws
use enterprise_angular_nest.Base.{
  ℕ, Bool, true, false, not, ◌&&◌, String, ◌==◌, Option, none, some, List, [], ◌∷◌, length,
  if◌then◌else◌, is_empty,
}
use enterprise_angular_nest.Base.Floats.{Floats}
use enterprise_angular_nest.Base.Text.{Unicode}
use enterprise_angular_nest.Ranking.Tokens.{normalize}
use enterprise_angular_nest.Search.Cache.{Files}
use enterprise_angular_nest.Search.Diagnostics.{Retrieved}
use enterprise_angular_nest.Search.Domain.{contains_phrase}
use enterprise_angular_nest.Search.Identity.{
  Redirect, exact_row_identity, landing_identity_fields, style_identity, style_search_destination,
}
use enterprise_angular_nest.Search.Memory.{Act, exists, load_rows_or_empty, return, ◌>>=◌}
use enterprise_angular_nest.Search.Retrieve.{Request, search_csv_detailed}
use enterprise_angular_nest.Search.Routing.{detect_domain}
use enterprise_angular_nest.Search.Rows.{Row, project_row}
use enterprise_angular_nest.Search.Suggest.{suggest_identities, suggest_terms}
use enterprise_angular_nest.Search.Threshold.{search_threshold}
use enterprise_angular_nest.Search.Answers.{
  Answer, Found, Limit, domain_filter, domain_variant, exact_match_diagnostic, file_not_found,
  found, invalid_max_results, redirect_diagnostic, search_domain_of, table_of, unless_unsupported,
  valid_max_results,
}

-- What the first part of `search` finds: the domain with its runner-up, the rows of the styles if they
-- were loaded, and the row or the redirect that the query names.
pub record Route : Type 0 where
  pub domain : String
  pub runner_up : Option String
  pub style_rows : Option (List Row)
  pub exact : Option Row
  pub redirect : Option Redirect

-- what the second part finds, with the rows of the landing patterns if they were loaded
pub record Resolved : Type 0 where
  pub exact : Option Row
  pub redirect : Option Redirect
  pub landing_rows : List Row

abbrev resolved_style : Option Row × Option Redirect → Resolved
resolved_style (exact, redirect) = record { exact = exact; redirect = redirect; landing_rows = [] }

abbrev is_none : {A : Type 0} → Option A → Bool
is_none none = true
is_none (some a) = false

abbrev named_route : List Row → Option Row × Option Redirect → Route
named_route rows (exact, redirect) = record {
  domain = "style";
  runner_up = none;
  style_rows = some rows;
  exact = exact;
  redirect = redirect;
}

module _ {F : Floats} (files : Files) (u : Unicode) (order : List String → List String)
    (path_of : String → String) (ratio : String → String → F.Float) where
  abbrev detected_route : List Row → String × Option String → Act F Route
  detected_route rows (domain, runner_up) = return (record {
    domain = domain;
    runner_up = runner_up;
    style_rows = some rows;
    exact = none;
    redirect = none;
  })

  abbrev route_by : List Row → String → Option Row → Act F Route
  route_by rows query (some matched) =
      return (named_route rows (style_search_destination u rows (some matched)))
  route_by rows query none = detect_domain files u order path_of query >>= detected_route rows

  abbrev route_with : String → List Row → Act F Route
  route_with query rows = route_by rows query (style_identity u rows query false)

  -- the domain, given or found
  abbrev pub route_of : String → Option String → Act F Route
  route_of query (some domain) = return (record {
    domain = domain;
    runner_up = none;
    style_rows = none;
    exact = none;
    redirect = none;
  })
  route_of query none = load_rows_or_empty files (path_of "styles.csv") >>= route_with query

  abbrev destination : String → List Row → Act F Resolved
  destination query rows =
      return (resolved_style (style_search_destination u rows (style_identity u rows query true)))

  abbrev landing_identity : String → Route → List Row → Act F Resolved
  landing_identity query route rows = return (record {
    exact = exact_row_identity u rows query landing_identity_fields;
    redirect = route.redirect;
    landing_rows = rows;
  })

  abbrev styles_of : Option (List Row) → Act F (List Row)
  styles_of none = load_rows_or_empty files (path_of "styles.csv")
  styles_of (some rows) = return rows

  -- the row or the redirect that the query names in its domain
  abbrev pub resolve : String → String → Route → Act F Resolved
  resolve query domain route =
      if (domain == "style") && is_none route.exact && is_none route.redirect
      then styles_of route.style_rows >>= destination query
      else if domain == "landing"
      then load_rows_or_empty files (path_of (table_of "landing").file)
        >>= landing_identity query route
      else return (record { exact = route.exact; redirect = route.redirect; landing_rows = [] })

  -- the request for the rows of a domain
  abbrev pub request_for : String → String → ℕ → Request F
  request_for domain query n = record {
    search_cols = (table_of domain).search_cols;
    output_cols = (table_of domain).output_cols;
    query = query;
    max_results = n;
    threshold = search_threshold F domain;
    routing_domain = some domain;
    row_filter = domain_filter domain;
    cache_variant = domain_variant domain;
  }

  abbrev pub retrieve : String → String → ℕ → Option Row → Option Redirect → Act F (Retrieved F)
  retrieve domain query n (some row) redirect = return (record {
    results = project_row row (table_of domain).output_cols ∷ [];
    index = none;
    diagnostic = exact_match_diagnostic u query "exact-identity";
  })
  retrieve domain query n none (some redirect) =
      return (record { results = []; index = none; diagnostic = redirect_diagnostic u query })
  retrieve domain query n none none =
      search_csv_detailed files u order path_of (table_of domain).file (request_for domain query n)

  abbrev suggestions_for : String → String → Resolved → Retrieved F → Option (List String)
  suggestions_for domain query resolved r =
      if not (is_empty r.results)
      then none
      else if domain == "landing"
      then some (suggest_identities F u ratio resolved.landing_rows query landing_identity_fields)
      else some (suggest_terms F u ratio r.index query (search_threshold F domain))

  -- the dictionary `out`
  abbrev pub report : String → String → Bool → Bool → Route → Resolved → Retrieved F → Found F
  report domain query auto diagnostics route resolved r = record {
    domain = route.domain;
    query = query;
    file = (table_of domain).file;
    count = length r.results;
    results = r.results;
    auto_detected = auto;
    runner_up_domain = route.runner_up;
    redirect = resolved.redirect;
    error = r.diagnostic.error;
    suggestions = suggestions_for domain query resolved r;
    diagnostics = if diagnostics then some r.diagnostic else none;
  }

  abbrev finish : String → String → Bool → Bool → Route → Resolved → Retrieved F → Act F (Answer F)
  finish domain query auto diagnostics route resolved r = return (
      found
        (report domain query auto diagnostics route resolved (unless_unsupported u domain query r)))

  abbrev answer_resolved : String → String → ℕ → Bool → Bool → Route → Resolved → Act F (Answer F)
  answer_resolved domain query n auto diagnostics route resolved =
      retrieve domain query n resolved.exact resolved.redirect
      >>= finish domain query auto diagnostics route resolved

  abbrev answer_if : String → String → ℕ → Bool → Bool → Route → Bool → Act F (Answer F)
  answer_if domain query n auto diagnostics route false =
      return (file_not_found (path_of (table_of domain).file) route.domain)
  answer_if domain query n auto diagnostics route true =
      resolve query domain route >>= answer_resolved domain query n auto diagnostics route

  abbrev answer_route : String → ℕ → Bool → Bool → Route → Act F (Answer F)
  answer_route query n auto diagnostics route =
      let domain = search_domain_of route.domain in
      exists files (path_of (table_of domain).file)
      >>= answer_if domain query n auto diagnostics route

  abbrev search_within : String → Option String → Bool → Option ℕ → Act F (Answer F)
  search_within query domain diagnostics none = return (invalid_max_results domain)
  search_within query domain diagnostics (some n) =
      route_of query domain >>= answer_route query n (is_none domain) diagnostics

  unfoldable pub search : String → Option String → Limit → Bool → Act F (Answer F)
  unfolding style_identity style_search_destination exact_row_identity detect_domain
      search_csv_detailed suggest_identities suggest_terms contains_phrase normalize project_row
  search query domain max_results diagnostics =
      search_within query domain diagnostics (valid_max_results max_results)

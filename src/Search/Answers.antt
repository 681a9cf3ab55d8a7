-- ===== src/Search/Answers.antt =====
-- What `search` answers with: its dictionary, and the diagnostics that it writes itself.
use enterprise_angular_nest.Base.{
  ℕ, Bool, true, false, ◌&&◌, String, ◌==◌, Option, none, some, List, [], leb, if◌then◌else◌,
}
use enterprise_angular_nest.Base.Dict.{has, lookup}
use enterprise_angular_nest.Base.Floats.{Floats}
use enterprise_angular_nest.Base.Text.{Unicode}
use enterprise_angular_nest.Ranking.Tokens.{normalize}
use enterprise_angular_nest.Search.Config.{Table, csv_config, search_calibration_version}
use enterprise_angular_nest.Search.Diagnostics.{Diagnostic, Retrieved}
use enterprise_angular_nest.Search.Domain.{contains_phrase}
use enterprise_angular_nest.Search.Identity.{Redirect}
use enterprise_angular_nest.Search.Rows.{Row, cell}

-- a value for `max_results`: a number, or anything that is no integer or below zero
pub data Limit : Type 0 where
  number : ℕ → Limit
  no_number : Limit

-- `_valid_max_results`
abbrev pub valid_max_results : Limit → Option ℕ
valid_max_results no_number = none
valid_max_results (number n) = if leb 1 n && leb n 20 then some n else none

module _ (F : Floats) where
  pub record Found : Type 0 where
    pub domain : String
    pub query : String
    pub file : String
    pub count : ℕ
    pub results : List Row
    pub auto_detected : Bool
    pub runner_up_domain : Option String
    pub redirect : Option Redirect
    pub error : Option String
    pub suggestions : Option (List String)
    pub diagnostics : Option (Diagnostic F)

  -- the dictionary that `search` returns
  pub data Answer : Type 0 where
    invalid_max_results : Option String → Answer
    file_not_found : String → String → Answer
    found : Found → Answer

-- `domain if domain in CSV_CONFIG else "style"`
abbrev pub search_domain_of : String → String
search_domain_of domain = if has domain csv_config then domain else "style"

abbrev pub no_table : Table
no_table = record { file = ""; search_cols = []; output_cols = [] }

abbrev or_no_table : Option Table → Table
or_no_table none = no_table
or_no_table (some t) = t

-- `CSV_CONFIG[domain]`, of a domain that it has
abbrev pub table_of : String → Table
table_of domain = or_no_table (lookup domain csv_config)

-- the filter of the rows, and the name of its cache variant
abbrev pub domain_filter : String → Row → Bool
domain_filter domain row =
    if domain == "style" then cell "active" "Status" row == "active" else true

abbrev pub domain_variant : String → String
domain_variant domain = if domain == "style" then "active-only" else ""

module _ {F : Floats} (u : Unicode) where
  -- `_exact_match_diagnostic`
  abbrev pub exact_match_diagnostic : String → String → Diagnostic F
  exact_match_diagnostic query reason = record {
    reason = reason;
    abstained = some false;
    error = none;
    queries = some (record {
      normalized_query = normalize u query;
      search_query = query;
      query_rewrites = [];
      calibration_version = search_calibration_version;
    });
    scores = some (record {
      top_score = F.of_nat 0;
      runner_up_score = F.of_nat 0;
      margin = F.of_nat 0;
      token_coverage = F.of_nat 1;
    });
  }

  abbrev pub redirect_diagnostic : String → Diagnostic F
  redirect_diagnostic query = record {
    reason = "cross-domain-redirect";
    abstained = some true;
    error = none;
    queries = some (record {
      normalized_query = normalize u query;
      search_query = query;
      query_rewrites = [];
      calibration_version = search_calibration_version;
    });
    scores = none;
  }

  -- Lucide is not in the icon data: results for it are taken back.
  abbrev pub unless_unsupported : String → String → Retrieved F → Retrieved F
  unless_unsupported domain query r =
      if (domain == "icons") && contains_phrase u (normalize u (u.lower query)) "lucide"
      then record r {
        results = [];
        diagnostic = record r.diagnostic { abstained = some true; reason = "unsupported-library" };
      }
      else r

-- ===== src/Cip/Search.antt =====
-- The search of the corporate identity databases.
use enterprise_angular_nest.Base.{ℕ, String, Option, [], List}
use enterprise_angular_nest.Base.Dict
use enterprise_angular_nest.Base.Dict.{Dict}
use enterprise_angular_nest.Base.Text.{Unicode}
use enterprise_angular_nest.Base.Floats.{Floats}
use enterprise_angular_nest.Search.Rows.{Row}
use enterprise_angular_nest.Keyword.Lookup.{Tables, Answer, config}
use enterprise_angular_nest.Keyword.Domains
use enterprise_angular_nest.Keyword.Domains.{Tool, results_of}
use enterprise_angular_nest.Cip.Config.{csv_config, domain_keywords}

abbrev pub tool : Tool
tool = record {
  configs = csv_config;
  default = "deliverable";
  default_config = Dict.get_or (config "" [] []) "deliverable" csv_config;
  keywords = domain_keywords;
}

module _ (F : Floats) (u : Unicode) (tables : Tables) where
  abbrev pub detect_domain : String → String
  detect_domain query = Domains.detect_domain F u tool tables query

  abbrev pub search : String → Option String → ℕ → Option Answer
  search query domain max_results = Domains.search F u tool tables query domain max_results

  -- `all_results[domain] = result["results"]`
  abbrev pub search_all : String → ℕ → Option (Dict (List Row))
  search_all query max_results = Domains.search_all F u tool tables results_of query max_results

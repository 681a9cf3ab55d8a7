-- ===== src/Keyword/Domains.antt =====
-- `detect_domain`, `search` and `search_all` over the domains of a tool.
pub mod Laws
use enterprise_angular_nest.Base.{ℕ, String, Option, none, some, List, [], ◌∷◌, ltb, if◌then◌else◌}
use enterprise_angular_nest.Base.Dict
use enterprise_angular_nest.Base.Dict.{Dict, insert}
use enterprise_angular_nest.Base.Text.{Unicode}
use enterprise_angular_nest.Base.Floats.{Floats}
use enterprise_angular_nest.Search.Rows.{Row}
use enterprise_angular_nest.Keyword.Lookup.{
  Config, Tables, Answer, found, file_not_found, search_config, best_domain,
}

-- what tells the tools apart: `CSV_CONFIG`, the name and the entry of its default domain, and the
-- keywords of `detect_domain`
pub record Tool : Type 0 where
  pub configs : Dict Config
  pub default : String
  pub default_config : Config
  pub keywords : Dict (List String)

abbrev pub count_of : Answer → ℕ
count_of (found domain query file count results) = count
count_of (file_not_found file domain) = 0

-- the results of an answer; a missing file has none
abbrev pub results_of : Answer → List Row
results_of (found domain query file count results) = results
results_of (file_not_found file domain) = []

-- One turn of the loop of `search_all`, which keeps a part of the answer: the slide tool all of it, the
-- other tools its results. They test the results where it tests their count. `none` is an `IndexError`.
abbrev pub keep_answer {ℓ} :
    {V : Type ℓ} → (Answer → V) → Dict V → String → Option Answer → Option (Dict V)
keep_answer part all domain none = none
keep_answer part all domain (some answer) =
    some (if ltb 0 (count_of answer) then insert domain (part answer) all else all)

module _ (F : Floats) (u : Unicode) (tool : Tool) (tables : Tables) where
  -- `detect_domain`
  abbrev pub detect_domain : String → String
  detect_domain query = best_domain tool.default tool.keywords (u.lower query)

  -- `CSV_CONFIG.get(domain, CSV_CONFIG[default])`
  abbrev pub search_in : String → String → ℕ → Option Answer
  search_in query domain n =
      search_config F u tables domain query (Dict.get_or tool.default_config domain tool.configs) n

  -- `search`
  unfoldable pub search : String → Option String → ℕ → Option Answer
  unfolding best_domain search_config
  search query none n = search_in query (detect_domain query) n
  search query (some domain) n = search_in query domain n

  module _ {ℓ} {V : Type ℓ} (part : Answer → V) where
    abbrev pub all_from : String → ℕ → List String → Option (Dict V) → Option (Dict V)
    all_from query n domains none = none
    all_from query n [] (some all) = some all
    all_from query n (domain ∷ domains) (some all) =
        all_from query n domains (keep_answer part all domain (search query (some domain) n))

    -- `search_all`
    unfoldable pub search_all : String → ℕ → Option (Dict V)
    unfolding search
    search_all query n = all_from query n (Dict.keys tool.configs) (some [])

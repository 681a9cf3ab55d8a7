-- ===== src/Keyword/Examples.antt =====
-- The keyword search over a table of two rows, and its theorems there.
use enterprise_angular_nest.Base.{String, none, some, List, [], ◌∷◌, ◌≡◌, refl, if◌then◌else◌}
use enterprise_angular_nest.Base.Ascii.{ascii}
use enterprise_angular_nest.Base.Dict
use enterprise_angular_nest.Base.Dict.{Dict, lookup}
use enterprise_angular_nest.Base.Text.{contains, split}
use enterprise_angular_nest.Base.Sort.{sort_desc}
use enterprise_angular_nest.Base.Cents.{cents}
use enterprise_angular_nest.Ranking.Index.{fit, score}
use enterprise_angular_nest.Keyword.Ranking.{fit_seen, keyword_score, words}
use enterprise_angular_nest.Keyword.Agreement.{keyword_score-eq-score}
use enterprise_angular_nest.Keyword.Lookup.{
  Config, config, Tables, Answer, search_rows, score_all, best_domain,
}
use enterprise_angular_nest.Keyword.Lookup.Laws.{IsSearch, search_rows-IsSearch}
use enterprise_angular_nest.Keyword.Lookup.Domain.{Detects, best_domain-Detects}
use enterprise_angular_nest.Keyword.Domains
use enterprise_angular_nest.Keyword.Domains.{Tool, search, search_all, results_of}
use enterprise_angular_nest.Keyword.Domains.Laws.{
  IsAnswer, searched, kept, search-IsAnswer, search_all-kept,
}
use enterprise_angular_nest.Search.Rows.{Row, project_row}
use text.Mathlib.Text.{◌==◌}

abbrev rows : List Row
rows =
    (("name", "flat grid") ∷ ("use", "dashboards") ∷ [])
    ∷ (("name", "hero image") ∷ ("use", "landing pages") ∷ [])
    ∷ []

abbrev two_domains : Dict Config
two_domains =
    ("layout", config "layouts.csv" ("name" ∷ "use" ∷ []) ("name" ∷ []))
    ∷ ("copy", config "copy.csv" ("formula" ∷ []) ("formula" ∷ []))
    ∷ []

abbrev keywords : Dict (List String)
keywords = ("layout", "grid" ∷ "hero" ∷ []) ∷ ("copy", "headline" ∷ "hero" ∷ []) ∷ []

abbrev tool : Tool
tool = record {
  configs = two_domains;
  default = "copy";
  default_config = config "copy.csv" ("formula" ∷ []) ("formula" ∷ []);
  keywords = keywords;
}

abbrev tables : Tables
tables file = if file == "layouts.csv" then some rows else none

first_of_two : best_domain "copy" keywords "a hero slide" ≡ "layout"
unfolding best_domain
first_of_two = refl

finds :
    search_rows cents ascii rows ("name" ∷ []) ("use" ∷ []) "Hero, please" 3
    ≡ some ((("use", "landing pages") ∷ []) ∷ [])
unfolding search_rows keyword_score fit_seen words project_row split sort_desc
finds = refl

abbrev docs : List (List String)
docs = ("flat" ∷ "grid" ∷ "flat" ∷ []) ∷ ("hero" ∷ []) ∷ []

keyword_score-eq-score_example :
    keyword_score cents (fit_seen cents docs) ("flat" ∷ [])
    ≡ score cents (fit cents docs) ("flat" ∷ [])
keyword_score-eq-score_example = keyword_score-eq-score cents docs ("flat" ∷ [])

search_rows-IsSearch_example :
    IsSearch rows
      ("use" ∷ [])
      3
      (search_rows cents ascii rows ("name" ∷ []) ("use" ∷ []) "Hero, please" 3)
search_rows-IsSearch_example =
    search_rows-IsSearch cents ascii rows ("name" ∷ []) ("use" ∷ []) "Hero, please" 3

best_domain-Detects_example :
    Detects "copy" (score_all "a hero slide" keywords) (best_domain "copy" keywords "a hero slide")
best_domain-Detects_example = best_domain-Detects "copy" keywords "a hero slide"

search-IsAnswer_example :
    (a : Answer) × (Domains.search cents ascii tool tables "Hero grid" none 3 ≡ some a)
    × IsAnswer tables
        (searched cents ascii tables tool "Hero grid" none)
        "Hero grid"
        3
        (Dict.get_or tool.default_config
          (searched cents ascii tables tool "Hero grid" none)
          two_domains)
        a
search-IsAnswer_example = search-IsAnswer cents ascii tables tool "Hero grid" none 3

search_all-kept_example :
    (all : Dict (List Row)) × (Domains.search_all cents ascii tool tables results_of "grid" 2
      ≡ some all)
    × ((domain : String)
        → lookup domain all ≡ (
            if contains (Dict.keys two_domains) domain
            then kept results_of (Domains.search cents ascii tool tables "grid" (some domain) 2)
            else none))
search_all-kept_example = search_all-kept cents ascii tables tool results_of "grid" 2

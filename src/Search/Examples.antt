-- ===== src/Search/Examples.antt =====
-- Runs of the design search, and its theorems at small tables.
use enterprise_angular_nest.Base.{
  true, false, ◌==◌, some, List, [], ◌∷◌, ◌≡◌, ◌≢◌, refl, arith, if◌then◌else◌,
}
use enterprise_angular_nest.Base.Ascii.{ascii}
use enterprise_angular_nest.Base.Dict.{has}
use enterprise_angular_nest.Base.Words.{search_phrase, search_stem}
use enterprise_angular_nest.Ranking.Tokens.{normalize}
use enterprise_angular_nest.Search.Rows.{Row}
use enterprise_angular_nest.Search.Identity.{style_identity, style_search_destination}
use enterprise_angular_nest.Search.Identity.Laws.{
  named, style_identity-named, Leads, style_search_destination-Leads,
}
use enterprise_angular_nest.Search.Stack.{
  Versions, requests_legacy, stack_row_filter, status, stack_current_versions, wants_migration,
  normal, some_status,
}
use enterprise_angular_nest.Search.Stack.Laws.{
  variant_filter, stack_row_filter-named, stack_row_filter-generation,
}
use enterprise_angular_nest.Search.Cache.{
  Signature, Outcome, ok, err, file_changed, Files, Caches, attempt_read, load_csv_snapshot,
}
use enterprise_angular_nest.Search.Cache.Coherence.{IsStable, IsLoaded, load_csv_snapshot-IsLoaded}
use enterprise_angular_nest.Search.Cache.Reload.{load_at_rest, attempt_read-changing}

abbrev glass : Row
glass =
    ("Style ID", "glass")
    ∷ ("Style Category", "Glassmorphism")
    ∷ ("Aliases", "frosted | Glass UI")
    ∷ []

abbrev old_glass : Row
old_glass =
    ("Style ID", "aero")
    ∷ ("Style Category", "Aero")
    ∷ ("Status", "deprecated")
    ∷ ("Parent Style ID", " glass ")
    ∷ []

abbrev styles : List Row
styles = old_glass ∷ glass ∷ []

by_alias : style_identity ascii styles " glass ui " true ≡ some glass
unfolding style_identity normalize
by_alias = refl

by_words : style_identity ascii styles "a glassmorphism shop" true ≡ some glass
unfolding style_identity normalize
by_words = refl

style_identity-named_example :
    ((row : Row)
      → named ascii styles "AERO" ≡ some row
      → style_identity ascii styles "AERO" true ≡ some row)
    × (style_identity ascii styles "AERO" false ≡ named ascii styles "AERO")
style_identity-named_example = style_identity-named ascii styles "AERO" true

style_search_destination-Leads_example :
    Leads ascii styles old_glass (style_search_destination ascii styles (some old_glass))
style_search_destination-Leads_example = style_search_destination-Leads ascii styles old_glass

abbrev versions : Versions
versions = record {
  of_stack = λ stack text. if text == "vue 2 router" then (2 ∷ []) ∷ [] else [];
  releases = λ text. [];
}

abbrev guide : List Row
guide =
    (("Guideline", "Use Options API") ∷ ("Status", "deprecated") ∷ [])
    ∷ (("Guideline", "Use script setup") ∷ ("Status", "active") ∷ [])
    ∷ []

abbrev first_row : Row
first_row = ("Guideline", "Use Options API") ∷ ("Status", "deprecated") ∷ []

legacy_query : requests_legacy ascii versions "vue 2 router" "vue" ≡ true
unfolding requests_legacy normal normalize wants_migration search_stem search_phrase
legacy_query = refl

kept : (stack_row_filter ascii versions guide "vue 2 router" "vue").0 first_row ≡ true
unfolding stack_row_filter requests_legacy normal normalize wants_migration search_stem
    search_phrase
kept = refl

stack_row_filter-named_example :
    (stack_row_filter ascii versions guide "vue router" "vue").0 first_row
    ≡ variant_filter ascii versions
        (stack_row_filter ascii versions guide "vue router" "vue").1
        first_row
stack_row_filter-named_example =
    stack_row_filter-named ascii versions guide "vue router" "vue" first_row

stack_row_filter-generation_example :
    (requests_legacy ascii versions "vue 2 router" "vue" ≡ false → status first_row ≢ "deprecated")
    × (requests_legacy ascii versions "vue 2 router" "vue" ≡ true
        → has "vue" stack_current_versions ≡ true
        → status first_row ≡ "deprecated")
    × (requests_legacy ascii versions "vue 2 router" "vue" ≡ true
        → some_status "deprecated" guide ≡ true
        → status first_row ≡ "deprecated")
    × (requests_legacy ascii versions "vue 2 router" "vue" ≡ false
        → some_status "active" guide ≡ true
        → status first_row ≡ "active")
    × ((other : Row)
        → (stack_row_filter ascii versions guide "vue 2 router" "vue").0 other ≡ true
        → (status first_row == "deprecated") ≡ (status other == "deprecated"))
stack_row_filter-generation_example =
    stack_row_filter-generation ascii versions guide "vue 2 router" "vue" first_row kept

abbrev stamp : Signature
stamp = record { mtime_ns = 7; size = 300 }

abbrev quiet : Files
quiet = record { stat = λ path t. ok stamp; read = λ path t. ok guide }

abbrev restless : Files
restless = record {
  stat = λ path t. ok (record { mtime_ns = t; size = 300 });
  read = λ path t. ok guide;
}

abbrev empty : Caches
empty = record { time = 0; rows = [] }

abbrev filled : Caches
filled = record { time = 9; rows = ("vue.csv", (stamp, guide)) ∷ [] }

quiet-IsStable : IsStable quiet (λ path sig. guide)
quiet-IsStable = record { between = λ path t before after rows e1 e2 e3 same. cc (some_rows e2) }
  where
    some_rows : {a b : List Row} → ◌≡◌ {A = Outcome (List Row)} (ok a) (ok b) → b ≡ a
    some_rows e = ground (arith, e)

load_csv_snapshot-IsLoaded_example :
    IsLoaded (λ path sig. guide) "vue.csv" (load_csv_snapshot quiet "vue.csv" 3 empty)
load_csv_snapshot-IsLoaded_example =
    load_csv_snapshot-IsLoaded quiet (λ path sig. guide) quiet-IsStable "vue.csv" 3 empty
      (λ p s r h. cc)

load_at_rest_example :
    load_csv_snapshot quiet "vue.csv" 3 empty
    ≡ (ok (guide, stamp), record { time = 4; rows = ("vue.csv", (stamp, guide)) ∷ [] })
load_at_rest_example = load_at_rest quiet "vue.csv" 2 empty stamp guide (λ t. refl) (λ t. refl) refl

attempt_read-changing_example :
    attempt_read restless "vue.csv" 3 empty ≡ (err file_changed, record empty { time = 9 })
attempt_read-changing_example =
    attempt_read-changing restless "vue.csv" (λ t. record { mtime_ns = t; size = 300 }) (λ t. guide)
      (λ t. refl) (λ t. refl) (λ t. ground arith) 3 empty

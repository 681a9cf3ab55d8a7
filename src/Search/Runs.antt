-- ===== src/Search/Runs.antt =====
-- The theorems of the searches at a small stack, with empty caches.
use enterprise_angular_nest.Search.Domain.{drop_parens, hex_color_from, choose_domain, rank_domains}
use enterprise_angular_nest.Search.Diagnostics.{Retrieved}
use enterprise_angular_nest.Search.StackRows.{legacy_successor_guidance, exact_stack_identifier}
use enterprise_angular_nest.Base.Dict.{Dict}
use enterprise_angular_nest.Search.Cache.{err}
use enterprise_angular_nest.Base.{
  ℕ, true, String, none, some, List, [], ◌∷◌, ◌≡◌, refl, arith, Option, false,
}
use enterprise_angular_nest.Base.Ascii.{ascii}
use enterprise_angular_nest.Base.Cents.{cents}
use enterprise_angular_nest.Search.Answers.{number}
use enterprise_angular_nest.Search.Cache.{Files, Outcome, Signature, ok}
use enterprise_angular_nest.Search.Cache.Coherence.{IsStable}
use enterprise_angular_nest.Search.Config.{stack_output_cols, stack_search_cols}
use enterprise_angular_nest.Search.Main.{search}
use enterprise_angular_nest.Search.Main.Laws.{IsAnswered, search-IsAnswered}
use enterprise_angular_nest.Search.Memory.{Memory}
use enterprise_angular_nest.Search.Retrieve.{Request, search_csv_detailed}
use enterprise_angular_nest.Search.Retrieve.Indexes.{IsWell}
use enterprise_angular_nest.Search.Retrieve.Laws.{IsSearched, search_csv_detailed-IsSearched}
use enterprise_angular_nest.Search.Rows.{Row}
use enterprise_angular_nest.Search.Stack.{Versions}
use enterprise_angular_nest.Search.Stack.Names.{named_filter}
use enterprise_angular_nest.Search.StackSearch.{search_stack}
use enterprise_angular_nest.Search.StackSearch.Laws.{IsServed, search_stack-IsServed}
use enterprise_angular_nest.Search.Threshold.{no_threshold}

abbrev versions : Versions
versions = record { of_stack = λ stack text. []; releases = λ text. [] }

abbrev guide : List Row
guide =
    (("Guideline", "Use Options API") ∷ ("Status", "deprecated") ∷ [])
    ∷ (("Guideline", "Use script setup") ∷ ("Status", "active") ∷ [])
    ∷ []

abbrev stamp : Signature
stamp = record { mtime_ns = 7; size = 300 }

abbrev files : Files
files = record { stat = λ path t. ok stamp; read = λ path t. ok guide }

abbrev content : String → Signature → List Row
content path sig = guide

files-IsStable : IsStable files content
files-IsStable = record { between = λ path t before after rows e1 e2 e3 same. cc (some_rows e2) }
  where
    some_rows : {a b : List Row} → ◌≡◌ {A = Outcome (List Row)} (ok a) (ok b) → b ≡ a
    some_rows e = ground (arith, e)

abbrev fresh : Memory cents
fresh = record { caches = record { time = 0; rows = [] }; indexes = []; keywords = none }

fresh-IsWell : IsWell ascii content (named_filter ascii versions) fresh
fresh-IsWell = (λ p s r h. cc h, λ key sig index h. cc h)

abbrev same_order : List String → List String
same_order xs = xs

abbrev path_of : String → String
path_of file = file

abbrev ratio : String → String → ℕ
ratio a b = 0

abbrev request : Request cents
request = record {
  search_cols = stack_search_cols;
  output_cols = stack_output_cols;
  query = "script setup";
  max_results = 3;
  threshold = no_threshold cents;
  routing_domain = none;
  row_filter = named_filter ascii versions "current-only";
  cache_variant = "current-only";
}

search_csv_detailed-IsSearched_example :
    IsSearched files ascii content
      (named_filter ascii versions)
      "vue.csv"
      request
      (search_csv_detailed files ascii same_order path_of "vue.csv" request fresh)
search_csv_detailed-IsSearched_example =
    search_csv_detailed-IsSearched files ascii same_order path_of content files-IsStable
      (named_filter ascii versions) "vue.csv" request (λ row. refl) fresh fresh-IsWell

search_stack-IsServed_example :
    IsWell ascii content
      (named_filter ascii versions)
      (search_stack files ascii versions same_order path_of ratio "script setup" "vue"
        (number 3)
        true
        fresh).1
    × IsServed ascii versions "script setup" "vue" files
        (number 3)
        (search_stack files ascii versions same_order path_of ratio "script setup" "vue"
          (number 3)
          true
          fresh).0
search_stack-IsServed_example =
    search_stack-IsServed files ascii versions same_order path_of ratio content files-IsStable
      "script setup" "vue" (number 3) true fresh fresh-IsWell

search-IsAnswered_example :
    IsWell ascii content
      (named_filter ascii versions)
      (search files ascii same_order path_of ratio "glass" (some "style") (number 3) true fresh).1
    × IsAnswered files
        (number 3)
        (search files ascii same_order path_of ratio "glass" (some "style") (number 3) true fresh).0
search-IsAnswered_example =
    search-IsAnswered files ascii versions same_order path_of ratio content files-IsStable "glass"
      (some "style") (number 3) true fresh fresh-IsWell

without_notes : drop_parens false "SaaS (General) (" ≡ "SaaS  ("
without_notes = refl

hex_found : hex_color_from ascii false "use #1e3a8a now" ≡ true
hex_found = refl

hex_too_long : hex_color_from ascii false "#123456789" ≡ false
hex_too_long = refl

abbrev few_keywords : Dict (List String)
few_keywords =
    ("color", "color" ∷ "palette" ∷ []) ∷ ("chart", "pie" ∷ []) ∷ ("ux", "touch target" ∷ []) ∷ []

phrases_win :
    choose_domain (rank_domains ascii "touch target color" few_keywords) ≡ ("ux", some "color")
unfolding rank_domains
phrases_win = refl

ties_by_priority :
    choose_domain (rank_domains ascii "a pie color" few_keywords) ≡ ("color", some "chart")
unfolding rank_domains
ties_by_priority = refl

nothing_known : choose_domain (rank_domains ascii "hello" few_keywords) ≡ ("style", none)
unfolding rank_domains
nothing_known = refl

successor_row :
    legacy_successor_guidance ascii
      ((("Do", "Prefer WinUI for new apps") ∷ []) ∷ (("Do", "Use XAML") ∷ []) ∷ [])
      "a brand new app"
      "uwp"
      (λ row. true)
    ≡ some (("Do", "Prefer WinUI for new apps") ∷ [])
unfolding legacy_successor_guidance
successor_row = refl

identifier_row :
    exact_stack_identifier ascii
      ((("Code Good", "const x = UseMemo(1)") ∷ []) ∷ (("Do", "useMemory") ∷ []) ∷ [])
      " usememo "
      (λ row. true)
    ≡ some (("Code Good", "const x = UseMemo(1)") ∷ [])
unfolding exact_stack_identifier
identifier_row = refl

index_made :
    (search_csv_detailed files ascii same_order path_of "vue.csv" request fresh).1.caches.time ≡ 5
unfolding search_csv_detailed
index_made = refl

abbrev results_of : Outcome (Retrieved cents) → Option (List Row)
results_of (ok r) = some r.results
results_of (err e) = none

one_row :
    results_of (search_csv_detailed files ascii same_order path_of "vue.csv" request fresh).0
    ≡ some ((("Guideline", "Use script setup") ∷ ("Status", "active") ∷ []) ∷ [])
unfolding search_csv_detailed
one_row = refl

-- ===== src/Search/Stack.antt =====
-- Stack queries: `_stack_query_requests_legacy` and `_stack_row_filter`. The framework versions that
-- a query names come from two regular expressions built from `_STACK_QUERY_NAMES`; their matches are
-- the parameter `Versions`.
pub mod Laws
pub mod Names
use enterprise_angular_nest.Base.{
  ℕ, code, Bool, true, false, not, ◌&&◌, ◌||◌, String, ◌<>◌, ◌==◌, Option, none, some, List, [],
  ◌∷◌, ◌++◌, any, all, map, is_empty, take, length, ltb, eqb, if◌then◌else◌,
}
use enterprise_angular_nest.Base.Text.{Unicode, contains, has_sub, split_on, is_prefix}
use enterprise_angular_nest.Base.Dict.{Dict, lookup, has}
use enterprise_angular_nest.Base.Words.{search_phrase, search_stem}
use enterprise_angular_nest.Ranking.Tokens.{normalize}
use enterprise_angular_nest.Search.Rows.{Row, cell, text_of}

abbrev pub web_stack_current_majors : Dict ℕ
web_stack_current_majors =
    ("react", 19)
    ∷ ("nextjs", 16)
    ∷ ("vue", 3)
    ∷ ("svelte", 5)
    ∷ ("astro", 7)
    ∷ ("angular", 22)
    ∷ ("html-tailwind", 4)
    ∷ ("nuxtjs", 4)
    ∷ ("nuxt-ui", 4)
    ∷ []

abbrev one_part : Dict ℕ → Dict (List ℕ)
one_part [] = []
one_part ((stack, major) ∷ d) = (stack, major ∷ []) ∷ one_part d

abbrev pub stack_current_versions : Dict (List ℕ)
stack_current_versions =
    one_part web_stack_current_majors
    ++ (("react-native", 0 ∷ 86 ∷ [])
        ∷ ("flutter", 3 ∷ 44 ∷ [])
        ∷ ("swiftui", 16 ∷ [])
        ∷ ("jetpack-compose", 1 ∷ 11 ∷ [])
        ∷ ("avalonia", 12 ∷ [])
        ∷ ("winui", 3 ∷ [])
        ∷ ("javafx", 26 ∷ [])
        ∷ ("threejs", 0 ∷ 185 ∷ [])
        ∷ ("laravel", 13 ∷ [])
        ∷ [])

abbrev pub legacy_only_stacks : List String
legacy_only_stacks = "uwp" ∷ []

-- the keys of `_STACK_QUERY_NAMES`
abbrev pub stack_query_names : List String
stack_query_names =
    "react" ∷ "nextjs" ∷ "vue" ∷ "svelte" ∷ "astro" ∷ "angular" ∷ "html-tailwind" ∷ "nuxtjs"
    ∷ "nuxt-ui" ∷ "react-native" ∷ "flutter" ∷ "swiftui" ∷ "jetpack-compose" ∷ "avalonia" ∷ "winui"
    ∷ "javafx" ∷ "threejs" ∷ "laravel" ∷ []

-- The groups of the matches: `(major,)` or `(major, minor)` for a stack, and the numbers of `r<n>`.
pub record Versions : Type 0 where
  pub of_stack : String → String → List (List ℕ)
  pub releases : String → List ℕ

-- `a < b` on tuples
abbrev pub tuple_lt : List ℕ → List ℕ → Bool
tuple_lt [] [] = false
tuple_lt [] (y ∷ ys) = true
tuple_lt (x ∷ xs) [] = false
tuple_lt (x ∷ xs) (y ∷ ys) = ltb x y || (eqb x y && tuple_lt xs ys)

abbrev pub status : Row → String
status row = cell "unverified" "Status" row

-- `"deprecated" in statuses`, and the like
abbrev pub some_status : String → List Row → Bool
some_status wanted rows = any (λ row. status row == wanted) rows

-- The generation: the filter on the status, and the name of the variant. The result says whether
-- the function returns here.
pub data Generation : Type 0 where
  legacy_only legacy_unavailable current_only non_legacy : Generation

abbrev pub generation_of : Bool → List Row → String → Generation
generation_of legacy rows stack =
    if some_status "deprecated" rows && legacy
    then legacy_only
    else if legacy && has stack stack_current_versions
    then legacy_unavailable
    else if some_status "active" rows
    then current_only
    else non_legacy

abbrev pub status_filter : Generation → Row → Bool
status_filter legacy_only row = status row == "deprecated"
status_filter legacy_unavailable row = false
status_filter current_only row = status row == "active"
status_filter non_legacy row = not (status row == "deprecated")

abbrev pub variant : Generation → String
variant legacy_only = "legacy-only"
variant legacy_unavailable = "legacy-unavailable"
variant current_only = "current-only"
variant non_legacy = "non-legacy"

module _ (u : Unicode) (v : Versions) where
  -- `str(query or "").casefold()`, normalized
  unfoldable pub normal : String → String
  normal query = normalize u (u.casefold query)

  unfoldable pub wants_migration : String → Bool
  wants_migration text =
      any (λ stem. search_stem u.is_word stem text) ("migrat" ∷ "upgrad" ∷ "replac" ∷ [])
      || any (λ word. search_phrase u.is_word word text) ("instead" ∷ "modern" ∷ "current" ∷ [])

  unfoldable pub says_legacy : String → Bool
  says_legacy text = any (λ word. search_phrase u.is_word word text) ("legacy" ∷ "deprecated" ∷ [])

  abbrev release_pairs : List ℕ → List (List ℕ)
  release_pairs [] = []
  release_pairs (n ∷ ns) = (0 ∷ n ∷ []) ∷ release_pairs ns

  -- `requested_versions`
  abbrev pub requested_versions : String → String → List (List ℕ)
  requested_versions stack text =
      v.of_stack stack text ++ (if stack == "threejs" then release_pairs (v.releases text) else [])

  -- `requested < current_version[:len(requested)]`
  abbrev pub is_older : List ℕ → List ℕ → Bool
  is_older current requested = tuple_lt requested (take (length requested) current)

  abbrev pub by_words : String → Bool
  by_words text = if wants_migration text then false else says_legacy text

  abbrev pub by_versions : String → List ℕ → List (List ℕ) → Bool
  by_versions text current requested =
      if is_empty requested
      then by_words text
      else if wants_migration text && any (λ r. not (is_older current r)) requested
      then false
      else all (is_older current) requested

  abbrev by_current : String → String → Option (List ℕ) → Bool
  by_current stack text none = by_words text
  by_current stack text (some current) =
      if contains stack_query_names stack
      then by_versions text current (requested_versions stack text)
      else by_words text

  unfoldable pub requests_legacy : String → String → Bool
  requests_legacy query stack =
      if contains legacy_only_stacks stack
      then true
      else by_current stack (normal query) (lookup stack stack_current_versions)

  -- the component base that a shadcn query asks for
  unfoldable pub requested_base : String → Option String
  requested_base text =
      if has_sub "base ui" text
      then some "base"
      else if has_sub "react aria" text
      then some "aria"
      else if has_sub "radix" text || has_sub "aschild" text
      then some "radix"
      else none

  -- `re.search(r"\bbase=([^;]+)", text)`: what stands behind the first `base=` at a word boundary
  abbrev until_semicolon : String → String
  until_semicolon String.[] = ""
  until_semicolon (String.◌∷◌ c s) =
      let rest = until_semicolon s in if eqb (code c) b';' then "" else String.◌∷◌ c rest

  abbrev drop_five : String → String
  drop_five (String.◌∷◌ a (String.◌∷◌ b (String.◌∷◌ c (String.◌∷◌ d (String.◌∷◌ e s))))) = s
  drop_five _ = ""

  abbrev base_here : String → Option String
  base_here s =
      let value = until_semicolon (drop_five s) in
      if is_prefix "base=" s && not (value == "") then some value else none

  abbrev base_from : Bool → String → Option String
  base_from after String.[] = none
  base_from after (String.◌∷◌ c s) =
      let later = base_from (u.is_word c) s in
      elim (if after then none else base_here (String.◌∷◌ c s)) [
        | none ↦ later
        | some value ↦ some value
      ]

  abbrev bases_in : Option String → List String
  bases_in none = []
  bases_in (some value) = split_on "|" value

  unfoldable pub row_bases : Row → List String
  unfolding split_on
  row_bases row = bases_in (base_from false (u.casefold (text_of "Applies To" row)))

  abbrev based : Generation → Option String → (Row → Bool) × String
  based g none = (status_filter g, variant g)
  based g (some base) =
      (λ row. status_filter g row && contains (row_bases row) base, variant g <> (";base=" <> base))

  abbrev chosen : Generation → String → String → (Row → Bool) × String
  chosen legacy_unavailable query stack =
      (status_filter legacy_unavailable, variant legacy_unavailable)
  chosen g query stack =
      if stack == "shadcn"
      then based g (requested_base (normal query))
      else (status_filter g, variant g)

  unfoldable pub stack_row_filter : List Row → String → String → (Row → Bool) × String
  stack_row_filter rows query stack =
      chosen (generation_of (requests_legacy query stack) rows stack) query stack

-- ===== src/Keyword/Domains/Laws.antt =====
-- `search` always answers, and `search_all` keeps the answers that have results.
use enterprise_angular_nest.Base.{
  ℕ, Bool, true, false, String, Option, none, some, List, [], ◌∷◌, ltb, if◌then◌else◌, ◌≡◌, ◌≤◌,
  refl, ◌∙◌, All, length, inl, inr, Bool-cases, arith, ap, sym, ◌||◌,
}
use text.Mathlib.Text.{◌==◌}
use text.Mathlib.TextEquality.{eq_iff}
use enterprise_angular_nest.Base.Dict
use enterprise_angular_nest.Base.Dict.{Dict, insert, lookup, lookup-insert}
use enterprise_angular_nest.Base.Text.{Unicode, contains}
use enterprise_angular_nest.Base.Floats.{Floats}
use enterprise_angular_nest.Search.Rows.{Row}
use enterprise_angular_nest.Keyword.Lookup.{
  Config, config, Tables, Answer, found, file_not_found, search_config, search_table,
}
use enterprise_angular_nest.Keyword.Lookup.Laws.{IsProjected, search_rows-IsSearch}
use enterprise_angular_nest.Keyword.Domains
use enterprise_angular_nest.Keyword.Domains.{Tool, count_of}

-- What `search` returns for a query in a domain of the given entry.
pub data IsAnswer (tables : Tables) (domain query : String) (n : ℕ) : Config → Answer → Type 0 where
  missing :
      {file : String} {search_cols output_cols : List String}
      → tables file ≡ none
      → IsAnswer tables domain query n
          (config file search_cols output_cols)
          (file_not_found file domain)
  answered :
      {file : String} {search_cols output_cols : List String} {rows results : List Row}
      → tables file ≡ some rows
      → length results ≤ n
      → All (IsProjected rows output_cols) results
      → IsAnswer tables domain query n
          (config file search_cols output_cols)
          (found domain query file (length results) results)

abbrev prefer {ℓ} : {V : Type ℓ} → Option V → Option V → Option V
prefer none o = o
prefer (some a) o = some a

prefer_nothing : {V : Type 0} (o : Option V) → prefer o none ≡ o
prefer_nothing none = refl
prefer_nothing (some a) = refl

test_sym : (d x : String) → (d == x) ≡ (x == d)
test_sym d x = ground (arith, eq_iff d x, eq_iff x d)

module _ {V : Type 0} (part : Answer → V) where
  -- the part of an answer that `search_all` keeps
  abbrev pub kept : Option Answer → Option V
  kept none = none
  kept (some a) = if ltb 0 (count_of a) then some (part a) else none

  lookup-kept :
      (d x : String) (a : Answer) (acc : Dict V)
      → lookup x (if ltb 0 (count_of a) then insert d (part a) acc else acc) ≡ (
          if ltb 0 (count_of a)
          then (if d == x then some (part a) else lookup x acc)
          else lookup x acc)
  lookup-kept d x a acc = elim (Bool-cases (ltb 0 (count_of a))) [
    | inl c ↦ rw (c, lookup-insert d x (part a) acc) refl
    | inr c ↦ rw c refl
  ]

  -- one turn of the loop, at a domain that it does or does not treat
  kept_step :
      (a : Answer) (answer : Option Answer) (last : Option V) (later here : Bool)
      → (here ≡ true → answer ≡ some a)
      → prefer
          (if later then kept answer else none)
          (if ltb 0 (count_of a) then (if here then some (part a) else last) else last)
        ≡ prefer (if here || later then kept answer else none) last
  kept_step a answer last later false h = elim (Bool-cases (ltb 0 (count_of a))) [
    | inl c ↦ rw c refl
    | inr c ↦ rw c refl
  ]
  kept_step a answer last true true h =
      rw (h refl) (elim (Bool-cases (ltb 0 (count_of a))) [ inl c ↦ rw c refl | inr c ↦ rw c refl ])
  kept_step a answer last false true h =
      rw (h refl) (elim (Bool-cases (ltb 0 (count_of a))) [ inl c ↦ rw c refl | inr c ↦ rw c refl ])

module _ (F : Floats) (u : Unicode) (tables : Tables) where
  table-IsAnswer :
      (domain query : String) (file : String) (search_cols output_cols : List String) (n : ℕ)
      (table : Option (List Row))
      → tables file ≡ table
      → (a : Answer) × (search_table F u tables domain query
            (config file search_cols output_cols)
            n
            table
          ≡ some a)
        × IsAnswer tables domain query n (config file search_cols output_cols) a
  table-IsAnswer domain query file search_cols output_cols n none e =
      (file_not_found file domain, refl, IsAnswer.missing e)
  table-IsAnswer domain query file search_cols output_cols n (some rows) e =
      let s = search_rows-IsSearch F u rows search_cols output_cols query n in
      (
        found domain query file (length s.results) s.results,
        rw s.returns refl,
        IsAnswer.answered e s.at_most s.rows_of,
      )

  config-IsAnswer :
      (domain query : String) (c : Config) (n : ℕ)
      → (a : Answer) × (search_config F u tables domain query c n ≡ some a)
        × IsAnswer tables domain query n c a
  unfolding search_config
  config-IsAnswer domain query (config file search_cols output_cols) n =
      table-IsAnswer domain query file search_cols output_cols n (tables file) refl

  module _ (tool : Tool) where
    -- the domain that is searched
    abbrev pub searched : String → Option String → String
    searched query none = Domains.detect_domain F u tool tables query
    searched query (some domain) = domain

    in-IsAnswer :
        (query domain : String) (n : ℕ)
        → (a : Answer) × (Domains.search F u tool tables query (some domain) n ≡ some a)
          × IsAnswer tables domain query n (Dict.get_or tool.default_config domain tool.configs) a
    unfolding Domains.search
    in-IsAnswer query domain n =
        config-IsAnswer domain query (Dict.get_or tool.default_config domain tool.configs) n

    -- `search` always returns. Without a domain it searches the detected one. It reports the file that is
    -- missing, or at most `max_results` rows of the domain's file, each projected to the output columns
    -- of the domain, and their count.
    pub search-IsAnswer :
        (query : String) (domain : Option String) (n : ℕ)
        → (a : Answer) × (Domains.search F u tool tables query domain n ≡ some a)
          × IsAnswer tables
              (searched query domain)
              query
              n
              (Dict.get_or tool.default_config (searched query domain) tool.configs)
              a
    unfolding Domains.search
    search-IsAnswer query none n = in-IsAnswer query (Domains.detect_domain F u tool tables query) n
    search-IsAnswer query (some domain) n = in-IsAnswer query domain n

    module _ {V : Type 0} (part : Answer → V) where
      -- the answer kept for a domain
      abbrev listed : String → ℕ → List String → String → Option V
      listed query n domains domain =
          if contains domains domain
          then kept part (Domains.search F u tool tables query (some domain) n)
          else none

      listed-step :
          (query : String) (n : ℕ) (d : String) (domains : List String) (acc : Dict V) (x : String)
          (a : Answer)
          → Domains.search F u tool tables query (some d) n ≡ some a
          → prefer
              (listed query n domains x)
              (lookup x (if ltb 0 (count_of a) then insert d (part a) acc else acc))
            ≡ prefer (listed query n (d ∷ domains) x) (lookup x acc)
      listed-step query n d domains acc x a e =
          ap (prefer (listed query n domains x)) (lookup-kept part d x a acc)
          ∙ kept_step part a (Domains.search F u tool tables query (some x) n) (lookup x acc)
              (contains domains x) (d == x)
              (λ h.
                ap (λ y. Domains.search F u tool tables query (some y) n) (sym ((eq_iff d x).0 h))
                ∙ e)
          ∙ ap
              (λ b.
                prefer
                  (if b || contains domains x
                    then kept part (Domains.search F u tool tables query (some x) n)
                    else none)
                  (lookup x acc))
              (test_sym d x)

      all_from-lookup :
          (query : String) (n : ℕ) (domains : List String) (acc : Dict V)
          → (all : Dict V) × (Domains.all_from F u tool tables part query n domains (some acc)
              ≡ some all)
            × ((domain : String)
                → lookup domain all ≡ prefer (listed query n domains domain) (lookup domain acc))
      all_from-lookup query n [] acc = (acc, refl, λ domain. refl)
      all_from-lookup query n (d ∷ domains) acc =
          let s = in-IsAnswer query d n in
          let rest =
            all_from-lookup query n domains
              (if ltb 0 (count_of s.0) then insert d (part s.0) acc else acc) in
          (
            rest.0,
            ap
                  (λ o.
                    Domains.all_from F u tool tables part query n domains
                      (Domains.keep_answer part acc d o))
                  s.1
                ∙ rest.1,
            λ x. rest.2 x ∙ listed-step query n d domains acc x s.0 s.1,
          )

      -- `search_all` always returns. Under each name it holds the kept part of the answer of `search` in
      -- that domain (all of it, or its results), where the name is a domain of the tool and that answer
      -- has results, and nothing under any other name.
      pub search_all-kept :
          (query : String) (n : ℕ)
          → (all : Dict V) × (Domains.search_all F u tool tables part query n ≡ some all)
            × ((domain : String)
                → lookup domain all ≡ (
                    if contains (Dict.keys tool.configs) domain
                    then kept part (Domains.search F u tool tables query (some domain) n)
                    else none))
      unfolding Domains.search_all
      search_all-kept query n =
          let all = all_from-lookup query n (Dict.keys tool.configs) [] in
          (all.0, all.1, λ x. all.2 x ∙ prefer_nothing (listed query n (Dict.keys tool.configs) x))

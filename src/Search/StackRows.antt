-- ===== src/Search/StackRows.antt =====
-- The row that a stack query names: `_exact_stack_identifier` and `_legacy_successor_guidance`.
use enterprise_angular_nest.Base.{
  Bool, true, false, not, ◌&&◌, ◌||◌, String, Char, code, eqb, Option, none, some, List, [], ◌∷◌,
  any, filter, leb, if◌then◌else◌,
}
use enterprise_angular_nest.Base.Text.{Unicode, all_chars, contains, join, size, strip, strip_left}
use enterprise_angular_nest.Base.Words.{phrase_here}
use enterprise_angular_nest.Search.Identity.{single}
use enterprise_angular_nest.Search.Rows.{Row, text_of}
use enterprise_angular_nest.Search.Stack.{Versions, legacy_only_stacks, normal}

module _ (u : Unicode) where
  -- `[A-Za-z0-9_]` in any case
  abbrev has_letter : String → Char → Bool
  has_letter String.[] c = false
  has_letter (String.◌∷◌ d s) c = u.same_letter d c || has_letter s c

  abbrev pub is_identifier_char : Char → Bool
  is_identifier_char c = has_letter "abcdefghijklmnopqrstuvwxyz0123456789_" c

  abbrev identifier_ends : String → Bool
  identifier_ends String.[] = true
  identifier_ends (String.◌∷◌ c s) = not (is_identifier_char c)

  -- the identifier at the head of the text, in any case, and the look-ahead behind it
  abbrev identifier_here : String → String → Bool
  identifier_here String.[] s = identifier_ends s
  identifier_here (String.◌∷◌ c p) String.[] = false
  identifier_here (String.◌∷◌ c p) (String.◌∷◌ d s) = u.same_letter c d && identifier_here p s

  abbrev pub identifier_from : Bool → String → String → Bool
  identifier_from after p String.[] = not after && identifier_here p ""
  identifier_from after p (String.◌∷◌ c s) =
      (not after && identifier_here p (String.◌∷◌ c s))
      || identifier_from (is_identifier_char c) p s

  abbrev pub identifier_fields : List String
  identifier_fields = "Guideline" ∷ "Description" ∷ "Do" ∷ "Don't" ∷ "Code Good" ∷ "Code Bad" ∷ []

  abbrev mentions : String → Row → Bool
  mentions identifier row =
      any (λ field. identifier_from false identifier (text_of field row)) identifier_fields

  -- `_exact_stack_identifier`
  unfoldable pub exact_stack_identifier : List Row → String → (Row → Bool) → Option Row
  unfolding strip
  exact_stack_identifier rows query row_filter =
      let identifier = strip u.is_space query in
      if not (leb 6 (size identifier)) || not (all_chars (λ c. not (u.is_space c)) identifier)
      then none
      else single u (filter (λ row. row_filter row && mentions identifier row) rows)

  -- what stands behind a prefix
  abbrev after_prefix : String → String → Option String
  after_prefix String.[] s = some s
  after_prefix (String.◌∷◌ c p) String.[] = none
  after_prefix (String.◌∷◌ c p) (String.◌∷◌ d s) =
      let rest = after_prefix p s in if eqb (code c) (code d) then rest else none

  abbrev starts_spaced : String → Bool
  starts_spaced String.[] = false
  starts_spaced (String.◌∷◌ c s) = u.is_space c

  -- `\s+(?:app|application|project)\b`
  abbrev spaced_project : Option String → Bool
  spaced_project none = false
  spaced_project (some s) =
      starts_spaced s
      && any (λ word. phrase_here u.is_word word (strip_left u.is_space s))
          ("app" ∷ "application" ∷ "project" ∷ [])

  -- `\b(?:brand new|new)\s+(?:app|application|project)\b`; `after` says that a word character is before
  abbrev pub new_project_from : Bool → String → Bool
  new_project_from after String.[] = false
  new_project_from after (String.◌∷◌ c s) =
      (not after
        && any (λ start. spaced_project (after_prefix start (String.◌∷◌ c s)))
            ("brand new" ∷ "new" ∷ []))
      || new_project_from (u.is_word c) s

  -- `.*\bnew (?:apps?|projects?)\b`, in what is left of the line
  abbrev pub new_apps_from : Bool → String → Bool
  new_apps_from after String.[] = false
  new_apps_from after (String.◌∷◌ c s) =
      (not after
        && any (λ phrase. phrase_here u.is_word phrase (String.◌∷◌ c s))
            ("new app" ∷ "new apps" ∷ "new project" ∷ "new projects" ∷ []))
      || (not (eqb (code c) 10) && new_apps_from (u.is_word c) s)

  abbrev advice_rest : Option String → Bool
  advice_rest none = false
  advice_rest (some s) = new_apps_from true s

  -- `\b(?:prefer|choose|use)\b.*\bnew (?:apps?|projects?)\b`
  abbrev pub prefers_new_from : Bool → String → Bool
  prefers_new_from after String.[] = false
  prefers_new_from after (String.◌∷◌ c s) =
      (not after
        && any
            (λ word.
              phrase_here u.is_word word (String.◌∷◌ c s)
              && advice_rest (after_prefix word (String.◌∷◌ c s)))
            ("prefer" ∷ "choose" ∷ "use" ∷ []))
      || prefers_new_from (u.is_word c) s

  abbrev advice : Row → String
  advice row =
      u.casefold
        (join " " (text_of "Guideline" row ∷ text_of "Description" row ∷ text_of "Do" row ∷ []))

  -- `_legacy_successor_guidance`, for the normalized query
  unfoldable pub legacy_successor_guidance : List Row → String → String → (Row → Bool) → Option Row
  legacy_successor_guidance rows normalized stack row_filter =
      if not (contains legacy_only_stacks stack) || not (new_project_from false normalized)
      then none
      else single u (filter (λ row. row_filter row && prefers_new_from false (advice row)) rows)

-- `a or b`, where an empty row counts as none
abbrev pub or_row : Option Row → Option Row → Option Row
or_row (some (entry ∷ row)) other = some (entry ∷ row)
or_row _ other = other

module _ (u : Unicode) (v : Versions) where
  -- the row that the query names, if it is one
  abbrev pub exact_of : String → String → List Row → (Row → Bool) → Option Row
  exact_of query stack rows row_filter =
      or_row (legacy_successor_guidance u rows (normal u v query) stack row_filter)
        (exact_stack_identifier u rows query row_filter)

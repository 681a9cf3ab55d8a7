-- ===== src/Search/Identity.antt =====
-- Explicit identities: `_row_identities`, `_style_identity`, `_exact_row_identity` and
-- `_style_search_destination`.
pub mod Laws
use enterprise_angular_nest.Base.{
  ℕ, Bool, true, false, not, ◌&&◌, ◌||◌, String, ◌==◌, Option, none, some, List, [], ◌∷◌, ◌++◌, any,
  all, filter, find, is_empty, length, leb, ltb, eqb, if◌then◌else◌,
}
use enterprise_angular_nest.Base.Text.{Unicode, contains, size, split, split_on, strip, distinct}
use enterprise_angular_nest.Base.Dict.{Dict, insert}
use enterprise_angular_nest.Base.Sort.{sort_desc}
use enterprise_angular_nest.Ranking.Tokens.{normalize}
use enterprise_angular_nest.Search.Rows.{Row, cell, text_of}

abbrev pub style_identity_fields : List String
style_identity_fields = "Style ID" ∷ "Style Category" ∷ "Aliases" ∷ []

abbrev pub landing_identity_fields : List String
landing_identity_fields = "Pattern ID" ∷ "Pattern Name" ∷ "Aliases" ∷ []

abbrev pub generic_tokens : List String
generic_tokens = "app" ∷ "design" ∷ "interface" ∷ "style" ∷ "system" ∷ "ui" ∷ []

-- `(len(distinctive), len(identity_tokens), len(identity), row)`
pub record Candidate : Type 0 where
  pub distinctive : ℕ
  pub words : ℕ
  pub chars : ℕ
  pub row : Row

pub record Redirect : Type 0 where
  pub domain : String
  pub id : String

module _ (u : Unicode) where
  -- `value.strip() for value in values if value.strip()`
  abbrev pub stripped : List String → List String
  stripped [] = []
  stripped (v ∷ vs) =
      let w = strip u.is_space v in let rest = stripped vs in if w == "" then rest else w ∷ rest

  abbrev pub field_values : Row → String → List String
  field_values row field =
      if field == "Aliases" then split_on "|" (text_of field row) else text_of field row ∷ []

  unfoldable pub row_identities : Row → List String → List String
  unfolding strip split_on
  row_identities row [] = []
  row_identities row (field ∷ fields) =
      stripped (field_values row field) ++ row_identities row fields

  abbrev pub casefold_all : List String → List String
  casefold_all [] = []
  casefold_all (v ∷ vs) = u.casefold v ∷ casefold_all vs

  -- `folded in {identity.casefold() for identity in identities}`
  abbrev pub is_named : String → List String → Row → Bool
  is_named folded fields row = contains (casefold_all (row_identities row fields)) folded

  -- `str(query or "").strip().casefold()`
  unfoldable pub fold_query : String → String
  unfolding strip
  fold_query query = u.casefold (strip u.is_space query)

  -- `set(re.findall(r"\w+", _normalize(text)))`
  unfoldable pub word_set : String → List String
  unfolding split normalize
  word_set text = distinct (split (λ c. not (u.is_word c)) (normalize u text))

  abbrev pub is_contained : List String → List String → Bool
  is_contained query_tokens tokens =
      not (is_empty tokens)
      && all (contains query_tokens) tokens
      && any (λ token. leb 4 (size token)) tokens

  abbrev pub row_candidates : List String → Row → List String → List Candidate
  row_candidates query_tokens row [] = []
  row_candidates query_tokens row (identity ∷ identities) =
      let rest = row_candidates query_tokens row identities in
      let tokens = word_set (u.casefold identity) in
      if is_contained query_tokens tokens
      then record {
        distinctive = length (filter (λ token. not (contains generic_tokens token)) tokens);
        words = length tokens;
        chars = size identity;
        row = row;
      }
        ∷ rest
      else rest

  -- the sort key `(item[0], item[1])`, compared as a pair
  abbrev pub pair_lt : ℕ × ℕ → ℕ × ℕ → Bool
  pair_lt p q = ltb p.0 q.0 || (eqb p.0 q.0 && ltb p.1 q.1)

  abbrev pub same_score : Candidate → Candidate → Bool
  same_score a b = eqb a.distinctive b.distinctive && eqb a.words b.words && eqb a.chars b.chars

  -- the dictionary from style id to row, over the candidates of the best score
  abbrev pub best_rows : Candidate → Dict Row → List Candidate → Dict Row
  best_rows best d [] = d
  best_rows best d (c ∷ cs) =
      best_rows best (if same_score c best then insert (text_of "Style ID" c.row) c.row d else d) cs

  abbrev pub only_row : Dict Row → Option Row
  only_row ((id, row) ∷ []) = some row
  only_row _ = none

  abbrev pub pick : List Candidate → Option Row
  pick [] = none
  pick (c ∷ cs) = only_row (best_rows c [] (c ∷ cs))

  -- The loop over the rows: an exact name returns at once, and contained names are collected.
  abbrev pub style_loop : String → List String → Bool → List Candidate → List Row → Option Row
  style_loop folded query_tokens contained found [] =
      pick (sort_desc pair_lt (λ c. (c.distinctive, c.words)) found)
  style_loop folded query_tokens contained found (row ∷ rows) =
      let later =
        style_loop folded query_tokens contained
          (if contained
            then found ++ row_candidates query_tokens row (row_identities row style_identity_fields)
            else found)
          rows in
      if is_named folded style_identity_fields row then some row else later

  unfoldable pub style_identity : List Row → String → Bool → Option Row
  unfolding row_identities fold_query word_set sort_desc
  style_identity rows query contained =
      style_loop (fold_query query) (word_set (fold_query query)) contained [] rows

  abbrev pub single : List Row → Option Row
  single (row ∷ []) = some row
  single _ = none

  unfoldable pub exact_row_identity : List Row → String → List String → Option Row
  unfolding row_identities fold_query
  exact_row_identity rows query fields = single (filter (is_named (fold_query query) fields) rows)

  abbrev pub with_id : String → List Row → Option Row
  with_id id rows = find (λ row. text_of "Style ID" row == id) rows

  abbrev pub is_deprecated : Row → Bool
  is_deprecated row = cell "active" "Status" row == "deprecated"

  abbrev pub destination_of : List Row → Row → Option Row × Option Redirect
  destination_of rows matched =
      let parent_id = strip u.is_space (text_of "Parent Style ID" matched) in
      let domain = strip u.is_space (text_of "Replacement Domain" matched) in
      let replacement_id = strip u.is_space (text_of "Replacement ID" matched) in
      if not (is_deprecated matched)
      then (some matched, none)
      else if not (parent_id == "")
      then (with_id parent_id rows, none)
      else if (domain == "style") && not (replacement_id == "")
      then (with_id replacement_id rows, none)
      else if not (domain == "") && not (replacement_id == "")
      then (none, some (record { domain = domain; id = replacement_id }))
      else (none, none)

  unfoldable pub style_search_destination : List Row → Option Row → Option Row × Option Redirect
  unfolding strip
  style_search_destination rows none = (none, none)
  style_search_destination rows (some matched) = destination_of rows matched

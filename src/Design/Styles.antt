-- ===== src/Design/Styles.antt =====
-- The lookups of the generator, by every name of a row: `_build_style_lookup`,
-- `_load_landing_patterns` and `_resolve_style`.
pub mod Laws
use enterprise_angular_nest.Base.{
  ℕ, zero, suc, Bool, true, false, String, ◌==◌, Option, none, some, List, [], ◌∷◌, ◌++◌, is_empty,
  length, if◌then◌else◌, ◌||◌,
}
use enterprise_angular_nest.Base.Dict
use enterprise_angular_nest.Base.Dict.{Dict, insert}
use enterprise_angular_nest.Base.Text.{Unicode, contains, split_on, strip}
use enterprise_angular_nest.Search.Rows.{Row, cell, text_of}

abbrev pub is_deprecated : Row → Bool
is_deprecated row = cell "active" "Status" row == "deprecated"

module _ (u : Unicode) where
  -- `key.strip().casefold()`
  unfoldable pub fold : String → String
  unfolding strip
  fold key = u.casefold (strip u.is_space key)

  abbrev pub put_keys : Row → Dict Row → List String → Dict Row
  put_keys row lookup [] = lookup
  put_keys row lookup (key ∷ keys) =
      put_keys row (if strip u.is_space key == "" then lookup else insert (fold key) row lookup)
        keys

  -- the names of a row: two columns, and the aliases
  abbrev pub names_of : String → String → Row → List String
  names_of id name row = text_of id row ∷ text_of name row ∷ split_on "|" (text_of "Aliases" row)

  abbrev pub put_rows : String → String → Dict Row → List Row → Dict Row
  put_rows id name lookup [] = lookup
  put_rows id name lookup (row ∷ rows) =
      put_rows id name (put_keys row lookup (names_of id name row)) rows

  unfoldable pub build_style_lookup : List Row → Dict Row
  unfolding fold strip split_on
  build_style_lookup styles = put_rows "Style ID" "Style Category" [] styles

  -- the loop of `_load_landing_patterns`
  unfoldable pub landing_patterns : List Row → Dict Row
  unfolding fold strip split_on
  landing_patterns rows = put_rows "Pattern ID" "Pattern Name" [] rows

  -- The `while` of `_resolve_style`; `none` means that the fuel ran out.
  pub resolve_from : Dict Row → ℕ → List String → Row → Option Row
  resolve_from lookup zero seen style = none
  resolve_from lookup (suc fuel) seen style =
      let parent =
        resolve_from lookup fuel (text_of "Style ID" style ∷ seen)
          (Dict.get_or [] (u.casefold (text_of "Parent Style ID" style)) lookup) in
      if is_deprecated style
      then (if (text_of "Parent Style ID" style == "") || contains seen (text_of "Style ID" style)
          then some []
          else parent)
      else some style

  -- `_resolve_style`, with a round for each entry of the lookup and one more
  unfoldable pub resolve_style : Dict Row → String → Option Row
  unfolding resolve_from fold
  resolve_style lookup reference =
      resolve_from lookup (suc (length lookup)) [] (Dict.get_or [] (fold reference) lookup)

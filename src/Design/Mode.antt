-- ===== src/Design/Mode.antt =====
-- The colour mode and the palette that agrees with it: `_style_is_dark_primary` to
-- `_filter_anti_patterns_for_mode`.
pub mod Laws
use enterprise_angular_nest.Base.{
  ℕ, Bool, true, false, Char, String, ◌<>◌, ◌==◌, Option, none, some, List, [], ◌∷◌, any, find,
  filter, is_empty, ◌&&◌, ◌||◌, not, if◌then◌else◌,
}
use enterprise_angular_nest.Base.Dict.{lookup, update}
use enterprise_angular_nest.Base.Text.{Unicode, has_sub, join, split_on, strip}
use enterprise_angular_nest.Base.Floats.{Floats}
use enterprise_angular_nest.Search.Rows.{Row, text_of}
use enterprise_angular_nest.Search.Identity.{stripped}
use enterprise_angular_nest.Design.Colors.{palette_is_dark, contrast_ratio}

abbrev pub dark_primary_markers : List String
dark_primary_markers =
    "dark mode primary" ∷ "dark primary" ∷ "dark-only" ∷ "dark only" ∷ "dark preferred"
    ∷ "dark focused" ∷ "dark-first" ∷ "dark rich" ∷ "light mode only as exception" ∷ []

abbrev pub dark_query_markers : List String
dark_query_markers =
    "dark mode" ∷ "dark theme" ∷ "dark ui" ∷ "dark-mode" ∷ "darkmode" ∷ "night mode" ∷ "midnight"
    ∷ "oled" ∷ []

abbrev pub dark_anti_pattern_markers : List String
dark_anti_pattern_markers = "dark mode" ∷ "dark modes" ∷ "dark theme" ∷ []

-- `any(marker in text for marker in markers)`
abbrev pub says_marker : List String → String → Bool
says_marker markers text = any (λ marker. has_sub marker text) markers

abbrev pub is_value : String → Option String → Bool
is_value text none = false
is_value text (some value) = value == text

module _ (u : Unicode) where
  -- `_style_is_dark_primary`
  unfoldable pub style_is_dark_primary : Row → Bool
  unfolding strip
  style_is_dark_primary style =
      let preferred = u.lower (strip u.is_space (text_of "Preferred Mode" style)) in
      if is_empty style
      then false
      else if (preferred == "dark") || (preferred == "light")
      then preferred == "dark"
      else if is_value "not-recommended" (lookup "Light Mode ✓" style)
          && is_value "supported" (lookup "Dark Mode ✓" style)
      then true
      else says_marker dark_primary_markers
          (u.lower (text_of "Light Mode ✓" style <> (" " <> text_of "Dark Mode ✓" style)))

  unfoldable pub query_wants_dark : String → Bool
  query_wants_dark query = says_marker dark_query_markers (u.lower query)

  -- `_resolve_color_mode`
  unfoldable pub resolve_color_mode : String → Row → String
  unfolding query_wants_dark style_is_dark_primary
  resolve_color_mode query style =
      if query_wants_dark query || style_is_dark_primary style then "dark" else "light"

  -- `_filter_anti_patterns_for_mode`
  unfoldable pub filter_anti_patterns_for_mode : String → String → String
  unfolding strip split_on
  filter_anti_patterns_for_mode anti_patterns mode =
      if not (mode == "dark") || (anti_patterns == "")
      then anti_patterns
      else join " + " (
          stripped u (
            filter (λ clause. not (says_marker dark_anti_pattern_markers (u.lower clause)))
              (split_on "+" anti_patterns)))

abbrev pub dark_surfaces : String → Row
dark_surfaces ring =
    ("Background", "#0F172A")
    ∷ ("Foreground", "#F8FAFC")
    ∷ ("Card", "#111827")
    ∷ ("Card Foreground", "#F8FAFC")
    ∷ ("Muted", "#1E293B")
    ∷ ("Muted Foreground", "#CBD5E1")
    ∷ ("Border", "#334155")
    ∷ ("Ring", ring)
    ∷ ("_mode_derivation", "derived-dark")
    ∷ []

-- `a == b` on values that may be `None`
abbrev pub same_value : Option String → Option String → Bool
same_value none none = true
same_value (some a) (some b) = a == b
same_value _ b = false

module _ (F : Floats) (u : Unicode) (decimal : Char → Option ℕ) where
  -- `(contrast or 0) >= 3`
  abbrev pub at_least_three : Option F.Float → Bool
  at_least_three none = false
  at_least_three (some contrast) = not (F.lt contrast (F.of_nat 3))

  abbrev pub ring_of : List (Option String) → String
  ring_of [] = "#60A5FA"
  ring_of (none ∷ candidates) = ring_of candidates
  ring_of (some color ∷ candidates) =
      let later = ring_of candidates in
      if at_least_three (contrast_ratio F u decimal (some color) (some "#0F172A"))
      then color
      else later

  -- `_derive_dark_palette`
  unfoldable pub derive_dark_palette : Row → Row
  unfolding contrast_ratio
  derive_dark_palette palette = update palette (
      dark_surfaces (
        ring_of (
          lookup "Ring" palette
          ∷ lookup "Accent" palette
          ∷ lookup "Primary" palette
          ∷ some "#60A5FA"
          ∷ [])))

  abbrev pub first_or : Row → Option Row → Row
  first_or default none = default
  first_or default (some row) = row

  abbrev pub without_category : Row → List Row → String → Row
  without_category top palettes mode =
      if mode == "dark" then first_or top (find (palette_is_dark F u decimal) palettes) else top

  -- an empty row counts as none
  abbrev pub with_category : Row → List Row → String → Option Row → Row
  with_category top palettes mode none = without_category top palettes mode
  with_category top palettes mode (some palette) =
      if is_empty palette
      then without_category top palettes mode
      else if (mode == "dark") && not (palette_is_dark F u decimal palette)
      then derive_dark_palette palette
      else palette

  abbrev pub of_category : Option String → Row → Bool
  of_category category palette = same_value (lookup "Product Type" palette) category

  -- `_select_palette_for_mode`
  unfoldable pub select_palette_for_mode : List Row → String → Option String → Row
  unfolding palette_is_dark derive_dark_palette
  select_palette_for_mode [] mode category = []
  select_palette_for_mode (top ∷ palettes) mode category =
      with_category top (top ∷ palettes) mode (find (of_category category) (top ∷ palettes))

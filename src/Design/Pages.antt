-- ===== src/Design/Pages.antt =====
-- Page overrides: `_generate_intelligent_overrides` and `_detect_page_type`. The results of a search for
-- a query, a domain and a limit are the parameter `search`.
use enterprise_angular_nest.Base.{
  ℕ, Bool, ◌||◌, String, ◌<>◌, ◌==◌, List, [], ◌∷◌, ◌++◌, any, is_empty, if◌then◌else◌,
}
use enterprise_angular_nest.Base.Dict.{Dict, insert}
use enterprise_angular_nest.Base.Text.{Unicode, has_sub}
use enterprise_angular_nest.Search.Rows.{Row, text_of}

abbrev pub page_patterns : List (List String × String)
page_patterns =
    (
      "dashboard" ∷ "admin" ∷ "analytics" ∷ "data" ∷ "metrics" ∷ "stats" ∷ "monitor" ∷ "overview"
          ∷ [],
      "Dashboard / Data View",
    )
    ∷ (
      "checkout" ∷ "payment" ∷ "cart" ∷ "purchase" ∷ "order" ∷ "billing" ∷ [],
      "Checkout / Payment",
    )
    ∷ ("settings" ∷ "profile" ∷ "account" ∷ "preferences" ∷ "config" ∷ [], "Settings / Profile")
    ∷ ("landing" ∷ "marketing" ∷ "homepage" ∷ "hero" ∷ "home" ∷ "promo" ∷ [], "Landing / Marketing")
    ∷ ("login" ∷ "signin" ∷ "signup" ∷ "register" ∷ "auth" ∷ "password" ∷ [], "Authentication")
    ∷ ("pricing" ∷ "plans" ∷ "subscription" ∷ "tiers" ∷ "packages" ∷ [], "Pricing / Plans")
    ∷ ("blog" ∷ "article" ∷ "post" ∷ "news" ∷ "content" ∷ "story" ∷ [], "Blog / Article")
    ∷ ("product" ∷ "item" ∷ "detail" ∷ "pdp" ∷ "shop" ∷ "store" ∷ [], "Product Detail")
    ∷ ("search" ∷ "results" ∷ "browse" ∷ "filter" ∷ "catalog" ∷ "list" ∷ [], "Search Results")
    ∷ ("empty" ∷ "404" ∷ "error" ∷ "not found" ∷ "zero" ∷ [], "Empty State")
    ∷ []

abbrev pub says_any : List String → String → Bool
says_any keywords text = any (λ keyword. has_sub keyword text) keywords

abbrev pub Search : Type 0
Search = String → String → ℕ → List Row

-- the returned dictionary; `typography` and `unique_components` are always empty
pub record Overrides : Type 0 where
  pub page_type : String
  pub layout : Dict String
  pub spacing : Dict String
  pub colors : Dict String
  pub components : List String
  pub recommendations : List String

abbrev nothing_yet : String → Overrides
nothing_yet page_type = record {
  page_type = page_type;
  layout = [];
  spacing = [];
  colors = [];
  components = [];
  recommendations = [];
}

abbrev recommend : String → Overrides → Overrides
recommend text o = record o { recommendations = o.recommendations ++ (text ∷ []) }

module _ (u : Unicode) where
  abbrev type_by_style : List Row → String
  type_by_style [] = "General"
  type_by_style (style ∷ styles) =
      let best_for = u.lower (text_of "Best For" style) in
      if has_sub "dashboard" best_for || has_sub "data" best_for
      then "Dashboard / Data View"
      else if has_sub "landing" best_for || has_sub "marketing" best_for
      then "Landing / Marketing"
      else "General"

  abbrev type_by_words : String → List (List String × String) → List Row → String
  type_by_words context [] styles = type_by_style styles
  type_by_words context ((keywords, page_type) ∷ patterns) styles =
      let later = type_by_words context patterns styles in
      if says_any keywords context then page_type else later

  -- `_detect_page_type`
  unfoldable pub detect_page_type : String → List Row → String
  detect_page_type context styles = type_by_words (u.lower context) page_patterns styles

  abbrev by_keywords : String → Overrides → Overrides
  by_keywords keywords o =
      if says_any ("data" ∷ "dense" ∷ "dashboard" ∷ "grid" ∷ []) keywords
      then record o {
        layout =
            insert "Grid" "12-column grid for data flexibility"
              (insert "Max Width" "1400px or full-width" o.layout);
        spacing = insert "Content Density" "High — optimize for information display" o.spacing;
      }
      else if says_any ("minimal" ∷ "simple" ∷ "clean" ∷ "single" ∷ []) keywords
      then record o {
        layout =
            insert "Layout" "Single column, centered"
              (insert "Max Width" "800px (narrow, focused)" o.layout);
        spacing = insert "Content Density" "Low — focus on clarity" o.spacing;
      }
      else record o {
        layout =
            insert "Layout" "Full-width sections, centered content"
              (insert "Max Width" "1200px (standard)" o.layout);
      }

  -- what the first style says
  abbrev pub by_style : List Row → Overrides → Overrides
  by_style [] o = o
  by_style (style ∷ styles) o =
      let effects = text_of "Effects & Animation" style in
      let laid = by_keywords (u.lower (text_of "Keywords" style)) o in
      if effects == "" then laid else recommend ("Effects: " <> effects) laid

-- what the guidelines say
abbrev pub by_guidelines : List Row → Overrides → Overrides
by_guidelines [] o = o
by_guidelines (ux ∷ rows) o =
    let do_text = text_of "Do" ux in
    let dont_text = text_of "Don't" ux in
    let done =
      if do_text == "" then o else recommend (text_of "Category" ux <> (": " <> do_text)) o in
    by_guidelines rows (
      if dont_text == ""
      then done
      else record done { components = done.components ++ (("Avoid: " <> dont_text) ∷ []) })

-- what the first landing pattern says
abbrev pub by_landing : List Row → Overrides → Overrides
by_landing [] o = o
by_landing (landing ∷ rows) o =
    let sections = text_of "Section Order" landing in
    let cta = text_of "Primary CTA Placement" landing in
    let strategy = text_of "Color Strategy" landing in
    let laid =
      if sections == "" then o else record o { layout = insert "Sections" sections o.layout } in
    let placed = if cta == "" then laid else recommend ("CTA Placement: " <> cta) laid in
    if strategy == ""
    then placed
    else record placed { colors = insert "Strategy" strategy placed.colors }

-- the defaults where the searches said nothing
abbrev pub with_defaults : Overrides → Overrides
with_defaults o = record o {
  layout =
      if is_empty o.layout
      then ("Max Width", "1200px") ∷ ("Layout", "Responsive grid") ∷ []
      else o.layout;
  recommendations =
      if is_empty o.recommendations
      then "Refer to MASTER.md for all design rules"
        ∷ "Add specific overrides as needed for this page" ∷ []
      else o.recommendations;
}

-- `_generate_intelligent_overrides`; the empty text stands for a page query of `None`.
unfoldable pub generate_intelligent_overrides : Unicode → Search → String → String → Overrides
unfolding detect_page_type
generate_intelligent_overrides u search page_name page_query =
    let context = u.lower page_name <> (" " <> u.lower page_query) in
    let styles = search context "style" 1 in
    with_defaults (
      by_landing (search context "landing" 1) (
        by_guidelines (search context "ux" 3)
          (by_style u styles (nothing_yet (detect_page_type u context styles)))))

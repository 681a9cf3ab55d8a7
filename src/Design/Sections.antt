-- ===== src/Design/Sections.antt =====
-- The sections of a design system: which columns of the chosen rows `generate` reads.
use enterprise_angular_nest.Base.{String, List, [], ◌∷◌}
use enterprise_angular_nest.Base.Dict.{Dict}
use enterprise_angular_nest.Search.Rows.{Row, cell}

-- the fields of a section: the key, the column that it is read from, and its default
abbrev pub section : Row → List (String × String × String) → Dict String
section row [] = []
section row ((key, column, default) ∷ fields) = (key, cell default column row) ∷ section row fields

-- The columns of the sections.
abbrev pub landing_fields : String → List (String × String × String)
landing_fields pattern_name =
    ("name", "Pattern Name", pattern_name)
    ∷ ("sections", "Section Order", "Hero > Features > CTA")
    ∷ ("cta_placement", "Primary CTA Placement", "Above fold")
    ∷ ("color_strategy", "Color Strategy", "")
    ∷ ("conversion", "Conversion Optimization", "")
    ∷ []

abbrev pub style_fields : List (String × String × String)
style_fields =
    ("id", "Style ID", "minimalism-and-swiss-style")
    ∷ ("name", "Style Category", "Minimalism")
    ∷ ("type", "Type", "General")
    ∷ ("effects", "Effects & Animation", "")
    ∷ ("keywords", "Keywords", "")
    ∷ ("best_for", "Best For", "")
    ∷ ("performance", "Performance", "")
    ∷ ("accessibility", "Accessibility", "")
    ∷ ("light_mode", "Light Mode ✓", "")
    ∷ ("dark_mode", "Dark Mode ✓", "")
    ∷ []

abbrev pub color_fields : List (String × String × String)
color_fields =
    ("primary", "Primary", "#2563EB")
    ∷ ("on_primary", "On Primary", "")
    ∷ ("secondary", "Secondary", "#3B82F6")
    ∷ ("on_secondary", "On Secondary", "")
    ∷ ("accent", "Accent", "#F97316")
    ∷ ("on_accent", "On Accent", "")
    ∷ ("background", "Background", "#F8FAFC")
    ∷ ("foreground", "Foreground", "#1E293B")
    ∷ ("card", "Card", "")
    ∷ ("card_foreground", "Card Foreground", "")
    ∷ ("muted", "Muted", "")
    ∷ ("muted_foreground", "Muted Foreground", "")
    ∷ ("border", "Border", "")
    ∷ ("destructive", "Destructive", "")
    ∷ ("on_destructive", "On Destructive", "")
    ∷ ("ring", "Ring", "")
    ∷ ("notes", "Notes", "")
    ∷ ("cta", "Accent", "#F97316")
    ∷ ("text", "Foreground", "#1E293B")
    ∷ ("on_cta", "On Accent", "")
    ∷ []

abbrev pub typography_fields : String → List (String × String × String)
typography_fields mood =
    ("heading", "Heading Font", "Inter")
    ∷ ("body", "Body Font", "Inter")
    ∷ ("mood", "Mood/Style Keywords", mood)
    ∷ ("best_for", "Best For", "")
    ∷ ("google_fonts_url", "Google Fonts URL", "")
    ∷ ("css_import", "CSS Import", "")
    ∷ []

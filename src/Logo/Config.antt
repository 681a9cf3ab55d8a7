-- ===== src/Logo/Config.antt =====
-- The domains of the logo guidelines (apps/web/.agents/skills/design/scripts/logo/core.py): `CSV_CONFIG`, and the
-- keywords of `detect_domain`.
use enterprise_angular_nest.Base.{String, List, [], ◌∷◌}
use enterprise_angular_nest.Base.Dict.{Dict}
use enterprise_angular_nest.Keyword.Lookup.{Config, config}

abbrev pub csv_config : Dict Config
csv_config =
    (
      "style",
      config "styles.csv" ("Style Name" ∷ "Category" ∷ "Keywords" ∷ "Best For" ∷ []) (
          "Style Name" ∷ "Category" ∷ "Keywords" ∷ "Primary Colors" ∷ "Secondary Colors"
          ∷ "Typography" ∷ "Effects" ∷ "Best For" ∷ "Avoid For" ∷ "Complexity" ∷ "Era" ∷ []),
    )
    ∷ (
      "color",
      config "colors.csv"
          ("Palette Name" ∷ "Category" ∷ "Keywords" ∷ "Psychology" ∷ "Best For" ∷ [])
          ("Palette Name" ∷ "Category" ∷ "Keywords" ∷ "Primary Hex" ∷ "Secondary Hex" ∷ "Accent Hex"
            ∷ "Background Hex" ∷ "Text Hex" ∷ "Psychology" ∷ "Best For" ∷ "Avoid For" ∷ []),
    )
    ∷ (
      "industry",
      config "industries.csv" ("Industry" ∷ "Keywords" ∷ "Recommended Styles" ∷ "Mood" ∷ []) (
          "Industry" ∷ "Keywords" ∷ "Recommended Styles" ∷ "Primary Colors" ∷ "Typography"
          ∷ "Common Symbols" ∷ "Mood" ∷ "Best Practices" ∷ "Avoid" ∷ []),
    )
    ∷ []

abbrev pub domain_keywords : Dict (List String)
domain_keywords =
    (
      "style",
      ("style" ∷ "minimalist" ∷ "vintage" ∷ "modern" ∷ "retro" ∷ "geometric" ∷ "abstract" ∷ "emblem"
          ∷ "badge" ∷ "wordmark" ∷ "mascot" ∷ "luxury" ∷ "playful" ∷ "corporate" ∷ []),
    )
    ∷ (
      "color",
      ("color" ∷ "palette" ∷ "hex" ∷ "#" ∷ "rgb" ∷ "blue" ∷ "red" ∷ "green" ∷ "gold" ∷ "warm"
          ∷ "cool" ∷ "vibrant" ∷ "pastel" ∷ []),
    )
    ∷ (
      "industry",
      ("tech" ∷ "healthcare" ∷ "finance" ∷ "legal" ∷ "restaurant" ∷ "food" ∷ "fashion" ∷ "beauty"
          ∷ "education" ∷ "sports" ∷ "fitness" ∷ "real estate" ∷ "crypto" ∷ "gaming" ∷ []),
    )
    ∷ []

-- ===== src/Cip/Config.antt =====
-- The domains of the corporate identity guidelines (apps/web/.agents/skills/design/scripts/cip/core.py): `CSV_CONFIG`, and the
-- keywords of `detect_domain`.
use enterprise_angular_nest.Base.{String, List, [], ◌∷◌}
use enterprise_angular_nest.Base.Dict.{Dict}
use enterprise_angular_nest.Keyword.Lookup.{Config, config}

abbrev pub csv_config : Dict Config
csv_config =
    (
      "deliverable",
      config "deliverables.csv"
          ("Deliverable" ∷ "Category" ∷ "Keywords" ∷ "Description" ∷ "Mockup Context" ∷ [])
          ("Deliverable" ∷ "Category" ∷ "Keywords" ∷ "Description" ∷ "Dimensions" ∷ "File Format"
            ∷ "Logo Placement" ∷ "Color Usage" ∷ "Typography Notes" ∷ "Mockup Context"
            ∷ "Best Practices" ∷ "Avoid" ∷ []),
    )
    ∷ (
      "style",
      config "styles.csv" ("Style Name" ∷ "Category" ∷ "Keywords" ∷ "Description" ∷ "Mood" ∷ []) (
          "Style Name" ∷ "Category" ∷ "Keywords" ∷ "Description" ∷ "Primary Colors"
          ∷ "Secondary Colors" ∷ "Typography" ∷ "Materials" ∷ "Finishes" ∷ "Mood" ∷ "Best For"
          ∷ "Avoid For" ∷ []),
    )
    ∷ (
      "industry",
      config "industries.csv" ("Industry" ∷ "Keywords" ∷ "CIP Style" ∷ "Mood" ∷ []) (
          "Industry" ∷ "Keywords" ∷ "CIP Style" ∷ "Primary Colors" ∷ "Secondary Colors"
          ∷ "Typography" ∷ "Key Deliverables" ∷ "Mood" ∷ "Best Practices" ∷ "Avoid" ∷ []),
    )
    ∷ (
      "mockup",
      config "mockup-contexts.csv"
          ("Context Name" ∷ "Category" ∷ "Keywords" ∷ "Scene Description" ∷ [])
          ("Context Name" ∷ "Category" ∷ "Keywords" ∷ "Scene Description" ∷ "Lighting"
            ∷ "Environment" ∷ "Props" ∷ "Camera Angle" ∷ "Background" ∷ "Style Notes" ∷ "Best For"
            ∷ "Prompt Modifiers" ∷ []),
    )
    ∷ []

abbrev pub domain_keywords : Dict (List String)
domain_keywords =
    (
      "deliverable",
      ("card" ∷ "letterhead" ∷ "envelope" ∷ "folder" ∷ "shirt" ∷ "cap" ∷ "badge" ∷ "signage"
          ∷ "vehicle" ∷ "car" ∷ "van" ∷ "stationery" ∷ "uniform" ∷ "merchandise" ∷ "packaging"
          ∷ "banner" ∷ "booth" ∷ []),
    )
    ∷ (
      "style",
      ("style" ∷ "minimal" ∷ "modern" ∷ "luxury" ∷ "vintage" ∷ "industrial" ∷ "elegant" ∷ "bold"
          ∷ "corporate" ∷ "organic" ∷ "playful" ∷ []),
    )
    ∷ (
      "industry",
      ("tech" ∷ "finance" ∷ "legal" ∷ "healthcare" ∷ "hospitality" ∷ "food" ∷ "fashion" ∷ "retail"
          ∷ "construction" ∷ "logistics" ∷ []),
    )
    ∷ (
      "mockup",
      ("mockup" ∷ "scene" ∷ "context" ∷ "photo" ∷ "shot" ∷ "lighting" ∷ "background" ∷ "studio"
          ∷ "lifestyle" ∷ []),
    )
    ∷ []

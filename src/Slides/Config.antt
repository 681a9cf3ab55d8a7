-- ===== src/Slides/Config.antt =====
-- The domains of the slide databases (apps/web/.agents/skills/design-system/scripts/slide_search_core.py): `CSV_CONFIG`, and the
-- keywords of `detect_domain`.
use enterprise_angular_nest.Base.{String, List, [], ◌∷◌}
use enterprise_angular_nest.Base.Dict.{Dict}
use enterprise_angular_nest.Keyword.Lookup.{Config, config}

abbrev pub csv_config : Dict Config
csv_config =
    (
      "strategy",
      config "slide-strategies.csv"
          ("strategy_name" ∷ "keywords" ∷ "goal" ∷ "audience" ∷ "narrative_arc" ∷ [])
          ("strategy_name" ∷ "keywords" ∷ "slide_count" ∷ "structure" ∷ "goal" ∷ "audience" ∷ "tone"
            ∷ "narrative_arc" ∷ "sources" ∷ []),
    )
    ∷ (
      "layout",
      config "slide-layouts.csv" ("layout_name" ∷ "keywords" ∷ "use_case" ∷ "recommended_for" ∷ [])
          ("layout_name" ∷ "keywords" ∷ "use_case" ∷ "content_zones" ∷ "visual_weight"
            ∷ "cta_placement" ∷ "recommended_for" ∷ "avoid_for" ∷ "css_structure" ∷ []),
    )
    ∷ (
      "copy",
      config "slide-copy.csv"
          ("formula_name" ∷ "keywords" ∷ "use_case" ∷ "emotion_trigger" ∷ "slide_type" ∷ [])
          ("formula_name" ∷ "keywords" ∷ "components" ∷ "use_case" ∷ "example_template"
            ∷ "emotion_trigger" ∷ "slide_type" ∷ "source" ∷ []),
    )
    ∷ (
      "chart",
      config "slide-charts.csv"
          ("chart_type" ∷ "keywords" ∷ "best_for" ∷ "when_to_use" ∷ "slide_context" ∷ [])
          ("chart_type" ∷ "keywords" ∷ "best_for" ∷ "data_type" ∷ "when_to_use" ∷ "when_to_avoid"
            ∷ "max_categories" ∷ "slide_context" ∷ "css_implementation" ∷ "accessibility_notes"
            ∷ []),
    )
    ∷ []

abbrev pub domain_keywords : Dict (List String)
domain_keywords =
    (
      "strategy",
      ("pitch" ∷ "deck" ∷ "investor" ∷ "yc" ∷ "seed" ∷ "series" ∷ "demo" ∷ "sales" ∷ "webinar"
          ∷ "conference" ∷ "board" ∷ "qbr" ∷ "all-hands" ∷ "duarte" ∷ "kawasaki" ∷ "structure"
          ∷ []),
    )
    ∷ (
      "layout",
      ("slide" ∷ "layout" ∷ "grid" ∷ "column" ∷ "title" ∷ "hero" ∷ "section" ∷ "cta" ∷ "screenshot"
          ∷ "quote" ∷ "timeline" ∷ "comparison" ∷ "pricing" ∷ "team" ∷ []),
    )
    ∷ (
      "copy",
      ("headline" ∷ "copy" ∷ "formula" ∷ "aida" ∷ "pas" ∷ "hook" ∷ "cta" ∷ "benefit" ∷ "objection"
          ∷ "proof" ∷ "testimonial" ∷ "urgency" ∷ "scarcity" ∷ []),
    )
    ∷ (
      "chart",
      ("chart" ∷ "graph" ∷ "bar" ∷ "line" ∷ "pie" ∷ "funnel" ∷ "metrics" ∷ "data" ∷ "visualization"
          ∷ "kpi" ∷ "trend" ∷ "comparison" ∷ "heatmap" ∷ "gauge" ∷ []),
    )
    ∷ []

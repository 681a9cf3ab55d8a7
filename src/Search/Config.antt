-- ===== src/Search/Config.antt =====
-- The tables of the design search: `CSV_CONFIG`, `STACK_CONFIG` and the rewrites of routing words.
use enterprise_angular_nest.Base.{String, Option, none, some, List, [], ◌∷◌}
use enterprise_angular_nest.Base.Dict.{Dict}

-- an entry of `CSV_CONFIG`
pub record Table : Type 0 where
  pub file : String
  pub search_cols : List String
  pub output_cols : List String

abbrev table : String → List String → List String → Table
table file search_cols output_cols = record {
  file = file;
  search_cols = search_cols;
  output_cols = output_cols;
}

abbrev pub csv_config : Dict Table
csv_config =
    (
      "style",
      table "styles.csv"
          ("Style ID" ∷ "Style Category" ∷ "Aliases" ∷ "Keywords" ∷ "Best For" ∷ "Type"
            ∷ "AI Prompt Keywords" ∷ [])
          ("Style ID" ∷ "Style Category" ∷ "Aliases" ∷ "Status" ∷ "Parent Style ID"
            ∷ "Preferred Mode" ∷ "Type" ∷ "Keywords" ∷ "Primary Colors" ∷ "Effects & Animation"
            ∷ "Best For" ∷ "Light Mode ✓" ∷ "Dark Mode ✓" ∷ "Performance" ∷ "Accessibility"
            ∷ "Framework Compatibility" ∷ "Complexity" ∷ "AI Prompt Keywords"
            ∷ "CSS/Technical Keywords" ∷ "Implementation Checklist" ∷ "Design System Variables"
            ∷ []),
    )
    ∷ (
      "color",
      table "colors.csv" ("Product Type" ∷ "Notes" ∷ []) (
          "Product Type" ∷ "Primary" ∷ "On Primary" ∷ "Secondary" ∷ "On Secondary" ∷ "Accent"
          ∷ "On Accent" ∷ "Background" ∷ "Foreground" ∷ "Card" ∷ "Card Foreground" ∷ "Muted"
          ∷ "Muted Foreground" ∷ "Border" ∷ "Destructive" ∷ "On Destructive" ∷ "Ring" ∷ "Notes"
          ∷ []),
    )
    ∷ (
      "chart",
      table "charts.csv"
          ("Data Type" ∷ "Keywords" ∷ "Best Chart Type" ∷ "When to Use" ∷ "When NOT to Use"
            ∷ "Accessibility Notes" ∷ [])
          ("Data Type" ∷ "Keywords" ∷ "Best Chart Type" ∷ "Secondary Options" ∷ "When to Use"
            ∷ "When NOT to Use" ∷ "Data Volume Threshold" ∷ "Color Guidance" ∷ "Accessibility Grade"
            ∷ "Accessibility Risk" ∷ "Accessibility Notes" ∷ "A11y Fallback"
            ∷ "Library Recommendation" ∷ "Interactive Level" ∷ []),
    )
    ∷ (
      "landing",
      table "landing.csv"
          ("Pattern ID" ∷ "Pattern Name" ∷ "Aliases" ∷ "Keywords" ∷ "Conversion Optimization"
            ∷ "Section Order" ∷ [])
          ("Pattern ID" ∷ "Pattern Name" ∷ "Aliases" ∷ "Keywords" ∷ "Section Order"
            ∷ "Primary CTA Placement" ∷ "Color Strategy" ∷ "Conversion Optimization" ∷ []),
    )
    ∷ (
      "product",
      table "products.csv"
          ("Product Type" ∷ "Keywords" ∷ "Primary Style Recommendation" ∷ "Key Considerations" ∷ [])
          ("Product Type" ∷ "Keywords" ∷ "Primary Style Recommendation" ∷ "Secondary Styles"
            ∷ "Landing Page Pattern" ∷ "Dashboard Style (if applicable)" ∷ "Color Palette Focus"
            ∷ []),
    )
    ∷ (
      "ux",
      table "ux-guidelines.csv" ("Category" ∷ "Issue" ∷ "Description" ∷ "Platform" ∷ []) (
          "Category" ∷ "Issue" ∷ "Platform" ∷ "Description" ∷ "Do" ∷ "Don't" ∷ "Code Example Good"
          ∷ "Code Example Bad" ∷ "Severity" ∷ []),
    )
    ∷ (
      "typography",
      table "typography.csv"
          ("Font Pairing Name" ∷ "Category" ∷ "Mood/Style Keywords" ∷ "Best For" ∷ "Heading Font"
            ∷ "Body Font" ∷ [])
          ("Font Pairing Name" ∷ "Category" ∷ "Heading Font" ∷ "Body Font" ∷ "Mood/Style Keywords"
            ∷ "Best For" ∷ "Google Fonts URL" ∷ "CSS Import" ∷ "Tailwind Config" ∷ "Notes" ∷ []),
    )
    ∷ (
      "icons",
      table "icons.csv" ("Category" ∷ "Icon Name" ∷ "Keywords" ∷ "Best For" ∷ "Library" ∷ []) (
          "Category" ∷ "Icon Name" ∷ "Keywords" ∷ "Library" ∷ "Import Code" ∷ "Usage" ∷ "Best For"
          ∷ "Style" ∷ "Semantic Role" ∷ "Allowed Contexts" ∷ []),
    )
    ∷ (
      "gsap",
      table "motion.csv" ("Category" ∷ "Intensity Tier" ∷ "Keywords" ∷ "Trigger" ∷ []) (
          "Category" ∷ "Intensity Tier" ∷ "Trigger" ∷ "Duration" ∷ "Easing" ∷ "GSAP Snippet"
          ∷ "Framework Notes" ∷ "Do" ∷ "Don't" ∷ "Performance Notes" ∷ []),
    )
    ∷ (
      "react",
      table "react-performance.csv" ("Category" ∷ "Issue" ∷ "Keywords" ∷ "Description" ∷ []) (
          "Category" ∷ "Issue" ∷ "Platform" ∷ "Description" ∷ "Do" ∷ "Don't" ∷ "Code Example Good"
          ∷ "Code Example Bad" ∷ "Severity" ∷ []),
    )
    ∷ (
      "web",
      table "app-interface.csv" ("Category" ∷ "Issue" ∷ "Keywords" ∷ "Description" ∷ []) (
          "Category" ∷ "Issue" ∷ "Platform" ∷ "Description" ∷ "Do" ∷ "Don't" ∷ "Code Example Good"
          ∷ "Code Example Bad" ∷ "Severity" ∷ []),
    )
    ∷ (
      "google-fonts",
      table "google-fonts.csv"
          ("Family" ∷ "Category" ∷ "Stroke" ∷ "Classifications" ∷ "Keywords" ∷ "Subsets"
            ∷ "Designers" ∷ [])
          ("Family" ∷ "Category" ∷ "Stroke" ∷ "Classifications" ∷ "Styles" ∷ "Variable Axes"
            ∷ "Subsets" ∷ "Designers" ∷ "Popularity Rank" ∷ "Google Fonts URL" ∷ []),
    )
    ∷ []

-- `STACK_CONFIG`, with the file of each stack
abbrev pub stack_config : Dict String
stack_config =
    ("react", "stacks/react.csv")
    ∷ ("nextjs", "stacks/nextjs.csv")
    ∷ ("vue", "stacks/vue.csv")
    ∷ ("svelte", "stacks/svelte.csv")
    ∷ ("astro", "stacks/astro.csv")
    ∷ ("swiftui", "stacks/swiftui.csv")
    ∷ ("react-native", "stacks/react-native.csv")
    ∷ ("flutter", "stacks/flutter.csv")
    ∷ ("nuxtjs", "stacks/nuxtjs.csv")
    ∷ ("nuxt-ui", "stacks/nuxt-ui.csv")
    ∷ ("html-tailwind", "stacks/html-tailwind.csv")
    ∷ ("shadcn", "stacks/shadcn.csv")
    ∷ ("jetpack-compose", "stacks/jetpack-compose.csv")
    ∷ ("threejs", "stacks/threejs.csv")
    ∷ ("angular", "stacks/angular.csv")
    ∷ ("laravel", "stacks/laravel.csv")
    ∷ ("javafx", "stacks/javafx.csv")
    ∷ ("wpf", "stacks/wpf.csv")
    ∷ ("winui", "stacks/winui.csv")
    ∷ ("avalonia", "stacks/avalonia.csv")
    ∷ ("uno", "stacks/uno.csv")
    ∷ ("uwp", "stacks/uwp.csv")
    ∷ []

abbrev pub stack_search_cols : List String
stack_search_cols =
    ("Category" ∷ "Guideline" ∷ "Description" ∷ "Do" ∷ "Don't" ∷ "Code Good" ∷ "Code Bad" ∷ [])

abbrev pub stack_output_cols : List String
stack_output_cols =
    ("Category" ∷ "Guideline" ∷ "Description" ∷ "Do" ∷ "Don't" ∷ "Code Good" ∷ "Code Bad"
      ∷ "Severity" ∷ "Docs URL" ∷ "Applies To" ∷ "Status" ∷ "Verified At" ∷ [])

abbrev pub search_calibration_version : String
search_calibration_version = "2026-08-12-v1"

-- A domain maps some of its keywords to a replacement, or to none.
abbrev pub domain_query_rewrites : Dict (Dict (Option String))
domain_query_rewrites =
    (
      "color",
      ("color", none)
          ∷ ("palette", none)
          ∷ ("hex", none)
          ∷ ("rgb", none)
          ∷ ("token", none)
          ∷ ("semantic", none)
          ∷ ("destructive", none)
          ∷ ("muted", none)
          ∷ ("foreground", none)
          ∷ [],
    )
    ∷ ("landing", ("testimonial", some "testimonials") ∷ [])
    ∷ (
      "style",
      ("css", none)
          ∷ ("implementation", none)
          ∷ ("variable", none)
          ∷ ("checklist", none)
          ∷ ("tailwind", none)
          ∷ [],
    )
    ∷ (
      "ux",
      ("ux", some "accessibility")
          ∷ ("usability", some "accessibility")
          ∷ ("wcag", some "accessibility")
          ∷ [],
    )
    ∷ ("google-fonts", ("typography", some "font") ∷ [])
    ∷ ("icons", ("lucide", none) ∷ ("symbol", none) ∷ ("glyph", none) ∷ ("pictogram", none) ∷ [])
    ∷ (
      "gsap",
      ("gsap", some "animation")
          ∷ ("quickto", none)
          ∷ ("scrolltrigger", some "scroll")
          ∷ ("flip plugin", none)
          ∷ ("splittext", none)
          ∷ [],
    )
    ∷ (
      "react",
      ("nextjs", some "react")
          ∷ ("usecallback", some "memoization")
          ∷ ("useeffect", some "effects")
          ∷ [],
    )
    ∷ (
      "web",
      ("aria", some "accessibility")
          ∷ ("outline", some "focus")
          ∷ ("semantic", none)
          ∷ ("autocomplete", some "input")
          ∷ ("preconnect", none)
          ∷ [],
    )
    ∷ []

abbrev pub domain_tiebreak_order : List String
domain_tiebreak_order =
    ("ux" ∷ "product" ∷ "style" ∷ "color" ∷ "typography" ∷ "google-fonts" ∷ "chart" ∷ "landing"
      ∷ "icons" ∷ "gsap" ∷ "react" ∷ "web" ∷ [])

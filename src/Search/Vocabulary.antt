-- ===== src/Search/Vocabulary.antt =====
-- The keywords that route a query to a domain: the literals of `_load_product_keywords` and
-- `_domain_keywords`.
use enterprise_angular_nest.Base.{String, List, [], ◌∷◌}
use enterprise_angular_nest.Base.Dict.{Dict}

-- the seed of `_load_product_keywords`
abbrev pub product_seed : List String
product_seed =
    ("saas" ∷ "ecommerce" ∷ "fintech" ∷ "healthcare" ∷ "gaming" ∷ "portfolio" ∷ "crypto" ∷ "fitness"
      ∷ "marketplace" ∷ "banking" ∷ "cybersecurity" ∷ "education" ∷ "travel" ∷ "restaurant"
      ∷ "real estate" ∷ "social media" ∷ "beauty" ∷ "spa" ∷ "salon" ∷ "wellness" ∷ "booking" ∷ [])

-- the dictionary of `_domain_keywords`, around the product labels
abbrev pub keyword_table : List String → Dict (List String)
keyword_table products =
    (
      "color",
      ("color" ∷ "palette" ∷ "hex" ∷ "rgb" ∷ "token" ∷ "semantic" ∷ "accent" ∷ "destructive"
          ∷ "muted" ∷ "foreground" ∷ []),
    )
    ∷ (
      "chart",
      ("time series" ∷ "chart" ∷ "graph" ∷ "visualization" ∷ "trend" ∷ "bar chart" ∷ "pie"
          ∷ "scatter" ∷ "heatmap" ∷ "funnel" ∷ "forecast" ∷ []),
    )
    ∷ (
      "landing",
      ("landing" ∷ "page" ∷ "cta" ∷ "conversion" ∷ "hero" ∷ "testimonial" ∷ "pricing" ∷ "section"
          ∷ []),
    )
    ∷ ("product", products)
    ∷ (
      "style",
      ("style" ∷ "design" ∷ "ui" ∷ "minimalism" ∷ "glassmorphism" ∷ "neumorphism" ∷ "brutalism"
          ∷ "dark mode" ∷ "flat" ∷ "aurora" ∷ "css" ∷ "implementation" ∷ "variable" ∷ "checklist"
          ∷ "tailwind" ∷ []),
    )
    ∷ (
      "ux",
      ("ux" ∷ "usability" ∷ "accessibility" ∷ "wcag" ∷ "touch" ∷ "scroll" ∷ "animation" ∷ "keyboard"
          ∷ "navigation" ∷ "mobile" ∷ []),
    )
    ∷ ("typography", ("font pairing" ∷ "typography pairing" ∷ "heading font" ∷ "body font" ∷ []))
    ∷ (
      "google-fonts",
      ("google font" ∷ "font family" ∷ "font weight" ∷ "font style" ∷ "variable font" ∷ "noto"
          ∷ "font for" ∷ "find font" ∷ "font subset" ∷ "font language" ∷ "monospace font"
          ∷ "serif font" ∷ "sans serif font" ∷ "display font" ∷ "handwriting font" ∷ "font"
          ∷ "typography" ∷ "serif" ∷ "sans" ∷ []),
    )
    ∷ (
      "icons",
      ("icon" ∷ "icons" ∷ "lucide" ∷ "phosphor" ∷ "heroicons" ∷ "symbol" ∷ "glyph" ∷ "pictogram"
          ∷ "svg icon" ∷ []),
    )
    ∷ (
      "gsap",
      ("gsap" ∷ "quickto" ∷ "scrolltrigger" ∷ "stagger" ∷ "magnetic cursor" ∷ "parallax"
          ∷ "page transition" ∷ "scroll reveal" ∷ "scroll-triggered" ∷ "scrollytelling"
          ∷ "flip plugin" ∷ "splittext" ∷ "shimmer" ∷ "skeleton loader" ∷ []),
    )
    ∷ (
      "react",
      ("react" ∷ "next.js" ∷ "nextjs" ∷ "suspense" ∷ "memo" ∷ "usecallback" ∷ "useeffect"
          ∷ "rerender" ∷ "bundle" ∷ "waterfall" ∷ "barrel" ∷ "dynamic import" ∷ "rsc"
          ∷ "server component" ∷ []),
    )
    ∷ (
      "web",
      ("aria" ∷ "focus" ∷ "outline" ∷ "semantic" ∷ "virtualize" ∷ "autocomplete" ∷ "form"
          ∷ "input type" ∷ "preconnect" ∷ "drag reorder" ∷ "single pointer" ∷ "touch target"
          ∷ "native accessibility" ∷ []),
    )
    ∷ []

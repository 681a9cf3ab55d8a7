-- ===== src/Ranking/Vocabulary.antt =====
-- Stop words and spelling variants (core.py, `_STOPWORDS` and `_SYNONYMS`).
use enterprise_angular_nest.Base.{String, List, [], ◌∷◌}

abbrev pub stopwords : List String
stopwords =
    "to" ∷ "in" ∷ "on" ∷ "at" ∷ "is" ∷ "of" ∷ "by" ∷ "or" ∷ "an" ∷ "if" ∷ "no" ∷ "so" ∷ "do" ∷ "be"
    ∷ "we" ∷ "it" ∷ "as" ∷ "the" ∷ "and" ∷ "for" ∷ "are" ∷ "was" ∷ []

abbrev pub synonyms : List (String × String)
synonyms =
    ("q&a", "question answer")
    ∷ ("e-commerce", "ecommerce")
    ∷ ("dark-mode", "dark")
    ∷ ("darkmode", "dark")
    ∷ ("light-mode", "light")
    ∷ ("lightmode", "light")
    ∷ ("a11y", "accessibility")
    ∷ ("nav", "navigation")
    ∷ ("sign-up", "signup")
    ∷ ("log-in", "login")
    ∷ ("colour", "color")
    ∷ ("colours", "colors")
    ∷ ("customisation", "customization")
    ∷ ("organisation", "organization")
    ∷ ("behaviour", "behavior")
    ∷ ("ux/ui", "ux ui")
    ∷ []

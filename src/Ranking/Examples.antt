-- ===== src/Ranking/Examples.antt =====
-- Runs of the index over a small corpus, with hundredths for floats, and the theorems at it.
use enterprise_angular_nest.Base.{◌≤◌, String, List, [], ◌∷◌, ◌≡◌, refl, arith, ltb}
use enterprise_angular_nest.Base.Ascii.{ascii}
use enterprise_angular_nest.Base.Cents.{cents}
use enterprise_angular_nest.Base.Dict
use enterprise_angular_nest.Base.Floats.{IsOrder}
use enterprise_angular_nest.Base.Sort.{sort_desc}
use enterprise_angular_nest.Ranking.Tokens.{tokenize, normalize}
use enterprise_angular_nest.Ranking.Index.{fit, score, doc_freqs, term_freqs}
use enterprise_angular_nest.Ranking.Index.Counts.{doc_freqs-docs_with}
use enterprise_angular_nest.Ranking.Index.Spec.{scored, score-scored, IsRanking, score-IsRanking}

cents-IsOrder : IsOrder ltb
cents-IsOrder = record { asym = λ a b h. ground (arith, h); cotrans = λ a b c h. ground (arith, h) }

abbrev docs : List (List String)
docs = ("dark" ∷ "glass" ∷ []) ∷ ("flat" ∷ "light" ∷ "flat" ∷ []) ∷ ("dark" ∷ "flat" ∷ []) ∷ []

tokens :
    tokenize ascii "The dark-mode Q&A, by Nav!" ≡ "dark" ∷ "question" ∷ "answer" ∷ "navigation" ∷ []
unfolding tokenize normalize
tokens = refl

ranked : score cents (fit cents docs) ("flat" ∷ "gold" ∷ []) ≡ (1, 209) ∷ (2, 171) ∷ (0, 0) ∷ []
unfolding score fit term_freqs
ranked = refl

doc_freqs-docs_with_example :
    (Dict.get_or 0 "dark" (doc_freqs docs) ≡ 2) × (Dict.get_or 0 "dark" (doc_freqs docs) ≤ 3)
doc_freqs-docs_with_example = doc_freqs-docs_with "dark" docs

score-scored_example :
    score cents (fit cents docs) ("flat" ∷ [])
    ≡ sort_desc ltb (λ p. p.1) (scored cents docs ("flat" ∷ []))
score-scored_example = score-scored cents docs ("flat" ∷ [])

score-IsRanking_example :
    IsRanking cents docs ("flat" ∷ []) (score cents (fit cents docs) ("flat" ∷ []))
score-IsRanking_example = score-IsRanking cents cents-IsOrder docs ("flat" ∷ [])

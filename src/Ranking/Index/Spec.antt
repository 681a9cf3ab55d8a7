-- ===== src/Ranking/Index/Spec.antt =====
-- The scores without dictionaries, by counting; and what the ranking promises.
use mathlib.Core.List.{Perm}
use enterprise_angular_nest.Base.{
  ℕ, ◌+◌, String, List, [], ◌∷◌, map, Option, none, some, ◌≡◌, refl, ap, length, any, filter,
  if◌then◌else◌,
}
use enterprise_angular_nest.Base.Text.{contains}
use enterprise_angular_nest.Base.Floats.{Floats, IsOrder}
use enterprise_angular_nest.Base.Sort.{sort_desc}
use enterprise_angular_nest.Base.Sort.Laws.{
  Descending, ties, sort_desc-perm, sort_desc-Descending, sort_desc-stable,
}
use enterprise_angular_nest.Ranking.Index.{
  fit, score, score_docs, score_tokens, add_token, term_freqs, idf_of, average, sum,
}
use enterprise_angular_nest.Ranking.Index.Counts.{count, docs_with, term_freqs-count, lookup-idf}

module _ (F : Floats) where
  open F use {Float, of_nat, lt}

  -- the weight of a word that some document holds
  abbrev pub weight : List (List String) → String → Option Float
  weight docs w =
      if any (λ doc. contains doc w) docs
      then some (idf_of F (length docs) (docs_with w docs))
      else none

  abbrev pub mean_length : List (List String) → Float
  mean_length docs = average F (sum (map length docs)) (length docs)

  -- the score of one document: a sum over the tokens of the query, in their order
  abbrev pub doc_score : List (List String) → List String → Float → List String → Float
  doc_score docs doc total [] = total
  doc_score docs doc total (token ∷ tokens) =
      doc_score docs doc
        (add_token F (mean_length docs) (length doc) (count token doc) (weight docs token) total)
        tokens

  abbrev pub scored_from :
      List (List String) → List String → ℕ → List (List String) → List (ℕ × Float)
  scored_from docs tokens i [] = []
  scored_from docs tokens i (doc ∷ rest) =
      (i, doc_score docs doc (of_nat 0) tokens) ∷ scored_from docs tokens (i + 1) rest

  -- every document with its score, in the order of the corpus
  abbrev pub scored : List (List String) → List String → List (ℕ × Float)
  scored docs tokens = scored_from docs tokens 0 docs

  score_tokens-doc_score :
      (d : List String) (ds : List (List String)) (doc : List String) (total : Float)
      (tokens : List String)
      → score_tokens F (fit F (d ∷ ds)) (length doc) (term_freqs doc) total tokens
        ≡ doc_score (d ∷ ds) doc total tokens
  unfolding fit
  score_tokens-doc_score d ds doc total [] = refl
  score_tokens-doc_score d ds doc total (token ∷ tokens) =
      rw (term_freqs-count, lookup-idf F (length (d ∷ ds)) token (d ∷ ds))
        (score_tokens-doc_score d ds doc
          (add_token F (mean_length (d ∷ ds)) (length doc) (count token doc) (weight (d ∷ ds) token)
            total)
          tokens)

  score_docs-scored_from :
      (d : List String) (ds : List (List String)) (tokens : List String) (i : ℕ)
      (rest : List (List String))
      → score_docs F (fit F (d ∷ ds)) tokens i (map length rest) (map term_freqs rest)
        ≡ scored_from (d ∷ ds) tokens i rest
  score_docs-scored_from d ds tokens i [] = refl
  score_docs-scored_from d ds tokens i (doc ∷ rest) = rw (
    score_tokens-doc_score d ds doc (of_nat 0) tokens,
    score_docs-scored_from d ds tokens (i + 1) rest,
  )

  -- The scores that the dictionaries of the index give are the BM25 scores by counting: a query token
  -- that no document holds adds nothing, and any other adds its weight times its saturated count.
  pub score-scored :
      (docs : List (List String)) (tokens : List String)
      → score F (fit F docs) tokens ≡ sort_desc lt (λ p. p.1) (scored docs tokens)
  unfolding score fit
  score-scored [] tokens = refl
  score-scored (d ∷ ds) tokens =
      ap (sort_desc lt (λ p. p.1)) (score_docs-scored_from d ds tokens 0 (d ∷ ds))

  pub record IsRanking (docs : List (List String)) (tokens : List String)
      (ranked : List (ℕ × Float)) : Type 0 where
    pub perm : Perm ranked (scored docs tokens)
    pub descending : Descending lt (λ (p : ℕ × Float). p.1) ranked
    pub stable :
        (k : Float)
        → filter (ties lt (λ (p : ℕ × Float). p.1) k) ranked
          ≡ filter (ties lt (λ (p : ℕ × Float). p.1) k) (scored docs tokens)

  -- The ranking holds every document once with its score, the higher scores first, and documents of
  -- one score in the order of the corpus, if the scores are ordered (none is NaN).
  pub score-IsRanking :
      IsOrder lt
      → (docs : List (List String)) (tokens : List String)
      → IsRanking docs tokens (score F (fit F docs) tokens)
  score-IsRanking o docs tokens = rw score-scored (record {
    perm = sort_desc-perm lt (λ p. p.1) (scored docs tokens);
    descending = sort_desc-Descending lt (λ p. p.1) o (scored docs tokens);
    stable = λ k. sort_desc-stable lt (λ p. p.1) o k (scored docs tokens);
  })

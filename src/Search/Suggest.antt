-- ===== src/Search/Suggest.antt =====
-- Suggestions for a query without results: `_passes_threshold`, `_suggest_terms` and
-- `_suggest_identities`. `ratio` is that of `difflib.SequenceMatcher`.
use enterprise_angular_nest.Base.{
  ℕ, Bool, false, not, ◌&&◌, ◌||◌, String, ◌==◌, Option, none, some, List, [], ◌∷◌, ◌++◌, map, take,
  ltb, eqb, length, if◌then◌else◌, is_empty,
}
use enterprise_angular_nest.Base.Dict
use enterprise_angular_nest.Base.Floats.{Floats}
use enterprise_angular_nest.Base.Sort.{sort_desc}
use enterprise_angular_nest.Base.Text.{Unicode, contains, distinct, strip}
use enterprise_angular_nest.Ranking.Index.{Index, score, vocabulary}
use enterprise_angular_nest.Ranking.Tokens.{tokenize}
use enterprise_angular_nest.Search.Diagnostics.{runner_up_score_of, top_of}
use enterprise_angular_nest.Search.Domain.{text_lt}
use enterprise_angular_nest.Search.Identity.{row_identities}
use enterprise_angular_nest.Search.Retrieve.{query_coverage}
use enterprise_angular_nest.Search.Rows.{Row}
use enterprise_angular_nest.Search.Threshold.{Threshold}

module _ (F : Floats) where
  open F use {Float, of_nat, div, lt}

  -- `(-similarity, number, text)` with its sign of the number left to the order
  pub record Candidate : Type 0 where
    pub similarity : Float
    pub number : ℕ
    pub text : String

  -- `max` of one value and more: the first of the greatest
  abbrev pub max_from : Float → List Float → Float
  max_from best [] = best
  max_from best (x ∷ xs) = max_from (if lt best x then x else best) xs

  abbrev pub max_of : List Float → Float
  max_of [] = of_nat 0
  max_of (x ∷ xs) = max_from x xs

  -- `0.72`
  abbrev pub close_enough : Float
  close_enough = div (of_nat 72) (of_nat 100)

  -- `(-similarity, -number, text)` of one candidate below that of the other
  abbrev pub term_before : Candidate → Candidate → Bool
  term_before a b =
      lt b.similarity a.similarity
      || (not (lt a.similarity b.similarity)
          && (ltb b.number a.number || (eqb a.number b.number && text_lt a.text b.text)))

  -- `(-similarity, number, text)` of one candidate below that of the other
  abbrev pub identity_before : Candidate → Candidate → Bool
  identity_before a b =
      lt b.similarity a.similarity
      || (not (lt a.similarity b.similarity)
          && (ltb a.number b.number || (eqb a.number b.number && text_lt a.text b.text)))

  -- the texts of the six best candidates
  unfoldable pub best_six : (Candidate → Candidate → Bool) → List Candidate → List String
  unfolding sort_desc
  best_six before candidates =
      map (λ (c : Candidate). c.text)
        (take 6 (sort_desc (λ a b. before b a) (λ (c : Candidate). c) candidates))

  -- `set(candidates)`: an identity has one similarity and one number, so its text names the candidate.
  abbrev pub holds_text : String → List Candidate → Bool
  holds_text text [] = false
  holds_text text (c ∷ cs) = c.text == text || holds_text text cs

  abbrev pub distinct_candidates : List Candidate → List Candidate
  distinct_candidates [] = []
  distinct_candidates (c ∷ cs) =
      let rest = distinct_candidates cs in if holds_text c.text rest then rest else c ∷ rest

module _ (F : Floats) (u : Unicode) (ratio : String → String → F.Float) where
  abbrev pub similarities : List String → String → List F.Float
  similarities [] target = []
  similarities (source ∷ sources) target = ratio source target ∷ similarities sources target

  abbrev pub is_close : F.Float → Bool
  is_close similarity = not (F.lt similarity (close_enough F))

  -- `_passes_threshold`
  unfoldable pub passes_threshold : Index F → String → Threshold F → Bool
  unfolding score tokenize query_coverage
  passes_threshold index query t =
      let ranked = score F index (tokenize u query) in
      F.lt t.min_score (top_of F ranked)
      && not (F.lt (query_coverage u index query) t.min_coverage)
      && (not (F.lt (F.of_nat 0) t.min_margin)
          || not (F.lt (F.sub (top_of F ranked) (runner_up_score_of F ranked)) t.min_margin))

  abbrev pub term_candidates :
      Index F → Threshold F → List String → List String → List (Candidate F)
  term_candidates index t tokens [] = []
  term_candidates index t tokens (term ∷ terms) =
      let rest = term_candidates index t tokens terms in
      let similarity = max_of F (similarities tokens term) in
      if not (contains tokens term) && is_close similarity && passes_threshold index term t
      then record { similarity = similarity; number = Dict.get_or 0 term index.freqs; text = term }
        ∷ rest
      else rest

  abbrev pub terms_for : Index F → Threshold F → List String → List String
  terms_for index t [] = []
  terms_for index t (token ∷ tokens) =
      best_six F (term_before F) (term_candidates index t (token ∷ tokens) (vocabulary F index))

  -- `_suggest_terms`, with a threshold
  unfoldable pub suggest_terms : Option (Index F) → String → Threshold F → List String
  unfolding passes_threshold best_six
  suggest_terms none query t = []
  suggest_terms (some index) query t = terms_for index t (distinct (tokenize u query))

  abbrev pub all_similarities : List String → List String → List F.Float
  all_similarities [] targets = []
  all_similarities (source ∷ sources) targets =
      map (λ target. ratio source target) targets ++ all_similarities sources targets

  abbrev pub identity_candidates : String → List String → List String → List (Candidate F)
  identity_candidates folded tokens [] = []
  identity_candidates folded tokens (identity ∷ identities) =
      let rest = identity_candidates folded tokens identities in
      let words = distinct (tokenize u identity) in
      let similarity = max_of F (all_similarities tokens words) in
      if not (is_empty words) && is_close similarity && not (u.casefold identity == folded)
      then record { similarity = similarity; number = length words; text = identity } ∷ rest
      else rest

  abbrev pub rows_candidates : String → List String → List String → List Row → List (Candidate F)
  rows_candidates folded tokens fields [] = []
  rows_candidates folded tokens fields (row ∷ rows) =
      identity_candidates folded tokens (row_identities u row fields)
      ++ rows_candidates folded tokens fields rows

  abbrev pub identities_for : List Row → String → List String → List String → List String
  identities_for rows folded fields [] = []
  identities_for rows folded fields (token ∷ tokens) =
      best_six F (identity_before F)
        (distinct_candidates F (rows_candidates folded (token ∷ tokens) fields rows))

  -- `_suggest_identities`
  unfoldable pub suggest_identities : List Row → String → List String → List String
  unfolding tokenize row_identities best_six strip
  suggest_identities rows query fields =
      identities_for rows (u.casefold (strip u.is_space query)) fields (distinct (tokenize u query))

-- ===== src/Keyword/Ranking.antt =====
-- The class `BM25` of the keyword search: short words are dropped by length, document frequencies go
-- by a set of the words seen, and term frequencies are counted anew for each query.
use enterprise_angular_nest.Base.{
  ℕ, ◌+◌, String, List, [], ◌∷◌, map, ltb, filter, length, if◌then◌else◌,
}
use enterprise_angular_nest.Base.Dict
use enterprise_angular_nest.Base.Dict.{Dict, lookup}
use enterprise_angular_nest.Base.Text.{Unicode, size, split, contains}
use enterprise_angular_nest.Base.Floats.{Floats}
use enterprise_angular_nest.Base.Sort.{sort_desc}
use enterprise_angular_nest.Ranking.Tokens.{blank_punctuation}
use enterprise_angular_nest.Ranking.Index.{bump, term_freqs, sum, idf_table, add_token}

-- `tokenize`
unfoldable pub words : Unicode → String → List String
unfolding split
words u text = filter (λ w. ltb 2 (size w)) (split u.is_space (blank_punctuation u (u.lower text)))

-- the loop over one document, with the set `seen`
abbrev pub count_new : Dict ℕ → List String → List String → Dict ℕ
count_new freqs seen [] = freqs
count_new freqs seen (word ∷ doc) =
    let known = contains seen word in
    count_new (if known then freqs else bump freqs word) (if known then seen else word ∷ seen) doc

abbrev pub count_seen : Dict ℕ → List (List String) → Dict ℕ
count_seen freqs [] = freqs
count_seen freqs (doc ∷ docs) = count_seen (count_new freqs [] doc) docs

unfoldable pub seen_freqs : List (List String) → Dict ℕ
seen_freqs docs = count_seen [] docs

module _ (F : Floats) where
  open F use {Float, of_nat, div, lt}

  -- the fields that `score` reads
  pub record KeywordIndex : Type 0 where
    pub corpus : List (List String)
    pub doc_lengths : List ℕ
    pub avgdl : Float
    pub idf : Dict Float

  -- `fit`; the early return on no documents leaves the fields of `__init__`.
  unfoldable pub fit_seen : List (List String) → KeywordIndex
  unfolding seen_freqs
  fit_seen [] = record { corpus = []; doc_lengths = []; avgdl = of_nat 0; idf = [] }
  fit_seen (doc ∷ docs) =
      let all = doc ∷ docs in
      record {
        corpus = all;
        doc_lengths = map length all;
        avgdl = div (of_nat (sum (map length all))) (of_nat (length all));
        idf = idf_table F (length all) (seen_freqs all);
      }

  abbrev pub keyword_tokens : KeywordIndex → ℕ → Dict ℕ → Float → List String → Float
  keyword_tokens index len tf score [] = score
  keyword_tokens index len tf score (token ∷ tokens) =
      keyword_tokens index len tf
        (add_token F index.avgdl len (Dict.get_or 0 token tf) (lookup token index.idf) score) tokens

  abbrev pub keyword_docs :
      KeywordIndex → List String → ℕ → List ℕ → List (List String) → List (ℕ × Float)
  keyword_docs index tokens i (len ∷ lens) (doc ∷ docs) =
      (i, keyword_tokens index len (term_freqs doc) (of_nat 0) tokens)
      ∷ keyword_docs index tokens (i + 1) lens docs
  keyword_docs index tokens i _ _ = []

  -- `score`, for the tokens of the query
  unfoldable pub keyword_score : KeywordIndex → List String → List (ℕ × Float)
  unfolding sort_desc term_freqs
  keyword_score index tokens =
      sort_desc lt (λ p. p.1) (keyword_docs index tokens 0 index.doc_lengths index.corpus)

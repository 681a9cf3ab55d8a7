-- ===== src/Ranking/Index.antt =====
-- `BM25.fit` and `BM25.score`, over the token lists of the documents. Floats are a parameter.
pub mod Counts
pub mod Spec
use enterprise_angular_nest.Base.{
  ℕ, ◌+◌, ◌-◌, String, List, [], ◌∷◌, map, Option, none, some, eqb, length, if◌then◌else◌,
}
use enterprise_angular_nest.Base.Dict.{Dict, lookup, insert, keys}
use enterprise_angular_nest.Base.Dict
use enterprise_angular_nest.Base.Floats.{Floats}
use enterprise_angular_nest.Base.Sort.{sort_desc}

-- `d[word] += 1` on a `defaultdict(int)`
abbrev pub bump : Dict ℕ → String → Dict ℕ
bump d word = insert word (Dict.get_or 0 word d + 1) d

abbrev pub bump_all : Dict ℕ → List String → Dict ℕ
bump_all d [] = d
bump_all d (word ∷ words) = bump_all (bump d word) words

-- the `tf` of one document
unfoldable pub term_freqs : List String → Dict ℕ
term_freqs doc = bump_all [] doc

-- the loop over the corpus: each distinct word of a document counts once
abbrev pub count_docs : Dict ℕ → List (List String) → Dict ℕ
count_docs d [] = d
count_docs d (doc ∷ docs) = count_docs (bump_all d (keys (term_freqs doc))) docs

unfoldable pub doc_freqs : List (List String) → Dict ℕ
unfolding term_freqs
doc_freqs docs = count_docs [] docs

abbrev pub sum : List ℕ → ℕ
sum [] = 0
sum (n ∷ ns) = n + sum ns

module _ (F : Floats) where
  open F use {Float, of_nat, add, sub, mul, div, log, lt}

  abbrev pub half : Float
  half = div (of_nat 1) (of_nat 2)

  -- `k1 = 1.5`, `b = 0.75`
  abbrev pub k1 : Float
  k1 = div (of_nat 3) (of_nat 2)

  abbrev pub b : Float
  b = div (of_nat 3) (of_nat 4)

  pub record Index : Type 0 where
    pub corpus : List (List String)
    pub doc_lengths : List ℕ
    pub avgdl : Float
    pub idf : Dict Float
    pub freqs : Dict ℕ
    pub per_doc : List (Dict ℕ)

  -- `log((N - freq + 0.5) / (freq + 0.5) + 1)`
  abbrev pub idf_of : ℕ → ℕ → Float
  idf_of n freq = log (add (div (add (of_nat (n - freq)) half) (add (of_nat freq) half)) (of_nat 1))

  abbrev pub idf_table : ℕ → Dict ℕ → Dict Float
  idf_table n [] = []
  idf_table n ((word, freq) ∷ d) = (word, idf_of n freq) ∷ idf_table n d

  -- `sum(self.doc_lengths) / self.N or 1.0`
  abbrev pub average : ℕ → ℕ → Float
  average total n = if eqb total 0 then of_nat 1 else div (of_nat total) (of_nat n)

  -- `fit`; the early return on no documents leaves the fields of `__init__`.
  unfoldable pub fit : List (List String) → Index
  unfolding doc_freqs
  fit [] = record {
    corpus = [];
    doc_lengths = [];
    avgdl = of_nat 0;
    idf = [];
    freqs = [];
    per_doc = [];
  }
  fit (doc ∷ docs) =
      let all = doc ∷ docs in
      record {
        corpus = all;
        doc_lengths = map length all;
        avgdl = average (sum (map length all)) (length all);
        idf = idf_table (length all) (doc_freqs all);
        freqs = doc_freqs all;
        per_doc = map term_freqs all;
      }

  -- the denominator of the score
  abbrev pub saturation : Float → ℕ → ℕ → Float
  saturation avgdl len tf =
      add (of_nat tf) (mul k1 (add (sub (of_nat 1) b) (div (mul b (of_nat len)) avgdl)))

  -- what one query token adds to the score of a document
  abbrev pub add_token : Float → ℕ → ℕ → Option Float → Float → Float
  add_token avgdl len tf none score = score
  add_token avgdl len tf (some weight) score =
      add score (div (mul weight (mul (of_nat tf) (add k1 (of_nat 1)))) (saturation avgdl len tf))

  abbrev pub score_tokens : Index → ℕ → Dict ℕ → Float → List String → Float
  score_tokens index len tf score [] = score
  score_tokens index len tf score (token ∷ tokens) =
      score_tokens index len tf
        (add_token index.avgdl len (Dict.get_or 0 token tf) (lookup token index.idf) score) tokens

  -- the loop over the documents, from the index `i`
  abbrev pub score_docs : Index → List String → ℕ → List ℕ → List (Dict ℕ) → List (ℕ × Float)
  score_docs index tokens i (len ∷ lens) (tf ∷ tfs) =
      (i, score_tokens index len tf (of_nat 0) tokens) ∷ score_docs index tokens (i + 1) lens tfs
  score_docs index tokens i _ _ = []

  -- `score`, for the tokens of the query
  unfoldable pub score : Index → List String → List (ℕ × Float)
  unfolding sort_desc
  score index tokens =
      sort_desc lt (λ p. p.1) (score_docs index tokens 0 index.doc_lengths index.per_doc)

  -- `vocabulary`
  abbrev pub vocabulary : Index → List String
  vocabulary index = keys index.idf

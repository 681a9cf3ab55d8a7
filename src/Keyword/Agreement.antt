-- ===== src/Keyword/Agreement.antt =====
-- The keyword search ranks as the design search does: its set of seen words gives the same document
-- frequencies, and its average length differs only where no score depends on it.

use enterprise_angular_nest.Base.{
  ℕ, ◌+◌, Bool, true, false, String, List, [], ◌∷◌, map, ◌≡◌, ◌∙◌, refl, sym, ap, arith, length,
  eqb, Bool-cases, inl, inr,
}
use enterprise_angular_nest.Base.Text.{contains}
use text.Mathlib.Text.{◌==◌}
use text.Mathlib.TextEquality.{eq_iff}
use enterprise_angular_nest.Base.Dict
use enterprise_angular_nest.Base.Dict.{Dict, insert, keys, has, lookup}
use enterprise_angular_nest.Base.Distinct.{
  append_new, append_all, first_of_each, append_all-first_of_each,
}
use enterprise_angular_nest.Base.Floats.{Floats}
use enterprise_angular_nest.Base.Sort.{sort_desc}
use enterprise_angular_nest.Ranking.Index.{
  bump, bump_all, term_freqs, count_docs, doc_freqs, sum, idf_table, fit, Index, score, score_docs,
  score_tokens, add_token,
}
use enterprise_angular_nest.Keyword.Ranking.{
  count_new, count_seen, seen_freqs, KeywordIndex, fit_seen, keyword_tokens, keyword_docs,
  keyword_score,
}

sym_test : (j k : String) → (k == j) ≡ (j == k)
sym_test j k = ground (arith, eq_iff j k, eq_iff k j)

keys-insert : (k : String) (v : ℕ) (d : Dict ℕ) → keys (insert k v d) ≡ append_new (keys d) k
keys-insert k v [] = refl
keys-insert k v ((j, w) ∷ d) = elim (Bool-cases (j == k)) [
  | inl e ↦ rw (sym_test j k, e) refl
  | inr e ↦
      rw (sym_test j k, e, keys-insert k v d)
        (elim (Bool-cases (contains (keys d) k)) [ inl c ↦ rw c refl | inr c ↦ rw c refl ])
]

keys-bump_all :
    (d : Dict ℕ) (words : List String) → keys (bump_all d words) ≡ append_all (keys d) words
keys-bump_all d [] = refl
keys-bump_all d (w ∷ words) =
    keys-bump_all (bump d w) words
    ∙ ap (λ ks. append_all ks words) (keys-insert w (Dict.get_or 0 w d + 1) d)

keys-term_freqs : (doc : List String) → keys (term_freqs doc) ≡ first_of_each [] doc
unfolding term_freqs
keys-term_freqs doc = keys-bump_all [] doc ∙ append_all-first_of_each [] doc

count_new-first_of_each :
    (d : Dict ℕ) (seen doc : List String)
    → count_new d seen doc ≡ bump_all d (first_of_each seen doc)
count_new-first_of_each d seen [] = refl
count_new-first_of_each d seen (w ∷ doc) = elim (Bool-cases (contains seen w)) [
  | inl e ↦ rw e (count_new-first_of_each d seen doc)
  | inr e ↦ rw e (count_new-first_of_each (bump d w) (w ∷ seen) doc)
]

count_seen-count_docs :
    (d : Dict ℕ) (docs : List (List String)) → count_seen d docs ≡ count_docs d docs
count_seen-count_docs d [] = refl
count_seen-count_docs d (doc ∷ docs) =
    count_seen-count_docs (count_new d [] doc) docs
    ∙ ap (λ e. count_docs e docs)
        (count_new-first_of_each d [] doc ∙ ap (bump_all d) (sym (keys-term_freqs doc)))

-- The set of seen words gives the document frequencies that the term counts give, in the same order.
pub seen_freqs-eq-doc_freqs : (docs : List (List String)) → seen_freqs docs ≡ doc_freqs docs
unfolding seen_freqs doc_freqs
seen_freqs-eq-doc_freqs docs = count_seen-count_docs [] docs

module _ (F : Floats) where
  open F use {Float, of_nat, lt}

  -- Two averages that the weights never meet give one score.
  module _ (k : KeywordIndex F) (x : Index F) (idf : k.idf ≡ x.idf) where
    tokens_same_average :
        k.avgdl ≡ x.avgdl
        → (len : ℕ) (tf : Dict ℕ) (total : Float) (tokens : List String)
        → keyword_tokens F k len tf total tokens ≡ score_tokens F x len tf total tokens
    tokens_same_average e len tf total [] = refl
    tokens_same_average e len tf total (t ∷ tokens) =
        rw (idf, e)
          (tokens_same_average e len tf
            (add_token F x.avgdl len (Dict.get_or 0 t tf) (lookup t x.idf) total) tokens)

    tokens_no_weights :
        x.idf ≡ []
        → (len : ℕ) (tf : Dict ℕ) (total : Float) (tokens : List String)
        → keyword_tokens F k len tf total tokens ≡ score_tokens F x len tf total tokens
    tokens_no_weights e len tf total [] = refl
    tokens_no_weights e len tf total (t ∷ tokens) =
        rw (idf, e) (tokens_no_weights e len tf total tokens)

    docs_same :
        ((len : ℕ) (tf : Dict ℕ) (total : Float) (tokens : List String)
          → keyword_tokens F k len tf total tokens ≡ score_tokens F x len tf total tokens)
        → (tokens : List String) (i : ℕ) (docs : List (List String))
        → keyword_docs F k tokens i (map length docs) docs
          ≡ score_docs F x tokens i (map length docs) (map term_freqs docs)
    docs_same h tokens i [] = refl
    docs_same h tokens i (doc ∷ docs) =
        rw (h (length doc) (term_freqs doc) (of_nat 0) tokens, docs_same h tokens (i + 1) docs)

  no_words : (docs : List (List String)) → sum (map length docs) ≡ 0 → count_docs [] docs ≡ []
  unfolding term_freqs
  no_words [] h = refl
  no_words ([] ∷ docs) h = no_words docs (omega (arith, h))
  no_words ((w ∷ doc) ∷ docs) h = absurd (omega arith)

  same_docs :
      (d : List String) (ds : List (List String)) (tokens : List String)
      → (b : Bool) → eqb (sum (map length (d ∷ ds))) 0 ≡ b
      → keyword_docs F (fit_seen F (d ∷ ds)) tokens 0 (map length (d ∷ ds)) (d ∷ ds)
        ≡ score_docs F (fit F (d ∷ ds)) tokens 0 (map length (d ∷ ds)) (map term_freqs (d ∷ ds))
  unfolding fit_seen fit doc_freqs
  same_docs d ds tokens true e =
      docs_same (fit_seen F (d ∷ ds)) (fit F (d ∷ ds))
        (ap (idf_table F (length (d ∷ ds))) (seen_freqs-eq-doc_freqs (d ∷ ds)))
        (tokens_no_weights (fit_seen F (d ∷ ds)) (fit F (d ∷ ds))
          (ap (idf_table F (length (d ∷ ds))) (seen_freqs-eq-doc_freqs (d ∷ ds)))
          (ap (idf_table F (length (d ∷ ds))) (no_words (d ∷ ds) (ground arith))))
        tokens 0 (d ∷ ds)
  same_docs d ds tokens false e =
      docs_same (fit_seen F (d ∷ ds)) (fit F (d ∷ ds))
        (ap (idf_table F (length (d ∷ ds))) (seen_freqs-eq-doc_freqs (d ∷ ds)))
        (tokens_same_average (fit_seen F (d ∷ ds)) (fit F (d ∷ ds))
          (ap (idf_table F (length (d ∷ ds))) (seen_freqs-eq-doc_freqs (d ∷ ds))) (rw e refl))
        tokens 0 (d ∷ ds)

  -- On the same documents and the same query, given as lists of words, the two implementations of BM25
  -- rank alike. The words themselves may differ: each has its own tokenizer.
  pub keyword_score-eq-score :
      (docs : List (List String)) (tokens : List String)
      → keyword_score F (fit_seen F docs) tokens ≡ score F (fit F docs) tokens
  unfolding keyword_score fit_seen score fit
  keyword_score-eq-score [] tokens = refl
  keyword_score-eq-score (d ∷ ds) tokens =
      ap (sort_desc lt (λ p. p.1)) (same_docs d ds tokens (eqb (sum (map length (d ∷ ds))) 0) refl)

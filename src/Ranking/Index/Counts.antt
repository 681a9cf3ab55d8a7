-- ===== src/Ranking/Index/Counts.antt =====
-- The dictionaries of the index hold the counts that their names promise.
use enterprise_angular_nest.Base.{
  ℕ, suc, ◌+◌, ◌≤◌, not, ◌&&◌, ◌||◌, String, ◌==◌, eq_iff, List, [], ◌∷◌, none, some, ◌≡◌, refl,
  ◌∙◌, arith, length, any, Bool-cases, inl, inr, if◌then◌else◌,
}
use enterprise_angular_nest.Base.Text.{contains}
use enterprise_angular_nest.Base.Dict
use enterprise_angular_nest.Base.Dict.{
  Dict, lookup, insert, keys, has, get_or-insert, has-insert, lookup-get_or,
}
use enterprise_angular_nest.Base.Floats.{Floats}
use enterprise_angular_nest.Ranking.Index.{
  bump, bump_all, term_freqs, count_docs, doc_freqs, idf_of, idf_table,
}

-- how often a word stands in a document
abbrev pub count : String → List String → ℕ
count w [] = 0
count w (x ∷ xs) = if x == w then suc (count w xs) else count w xs

-- in how many documents a word stands
abbrev pub docs_with : String → List (List String) → ℕ
docs_with w [] = 0
docs_with w (doc ∷ docs) = if contains doc w then suc (docs_with w docs) else docs_with w docs

get_or-bump_all :
    (w : String) (d : Dict ℕ) (words : List String)
    → Dict.get_or 0 w (bump_all d words) ≡ Dict.get_or 0 w d + count w words
get_or-bump_all w d [] = omega arith
get_or-bump_all w d (x ∷ words) = ground (
  arith,
  get_or-bump_all w (bump d x) words,
  get_or-insert 0 x w (Dict.get_or 0 x d + 1) d,
  eq_iff x w,
)

has-bump_all :
    (w : String) (d : Dict ℕ) (words : List String)
    → has w (bump_all d words) ≡ has w d || contains words w
has-bump_all w d [] = ground arith
has-bump_all w d (x ∷ words) = ground (
  arith,
  has-bump_all w (bump d x) words,
  has-insert x w (Dict.get_or 0 x d + 1) d,
  eq_iff x w,
  eq_iff w x,
)

-- The term frequencies of a document are its word counts.
pub term_freqs-count :
    (w : String) (doc : List String) → Dict.get_or 0 w (term_freqs doc) ≡ count w doc
unfolding term_freqs
term_freqs-count w doc = omega (arith, get_or-bump_all w [] doc)

count-keys-insert :
    (w k : String) (v : ℕ) (d : Dict ℕ)
    → count w (keys (insert k v d))
      ≡ (if (k == w) && not (has k d) then suc (count w (keys d)) else count w (keys d))
count-keys-insert w k v [] = ground arith
count-keys-insert w k v ((j, x) ∷ d) =
    ground (arith, count-keys-insert w k v d, eq_iff j k, eq_iff k w, eq_iff j w)

-- each key stands once
abbrev Once : Dict ℕ → Type 0
Once d = (w : String) → count w (keys d) ≡ (if has w d then 1 else 0)

insert-Once : (k : String) (v : ℕ) (d : Dict ℕ) → Once d → Once (insert k v d)
insert-Once k v d h w =
    ground (arith, h w, count-keys-insert w k v d, has-insert k w v d, eq_iff k w)

bump_all-Once : (d : Dict ℕ) (words : List String) → Once d → Once (bump_all d words)
bump_all-Once d [] h = h
bump_all-Once d (x ∷ words) h =
    bump_all-Once (bump d x) words (insert-Once x (Dict.get_or 0 x d + 1) d h)

-- A document's distinct words hold each of its words once.
count-term_freqs :
    (w : String) (doc : List String)
    → count w (keys (term_freqs doc)) ≡ (if contains doc w then 1 else 0)
unfolding term_freqs
count-term_freqs w doc = ground (arith, bump_all-Once [] doc (λ v. refl) w, has-bump_all w [] doc)

get_or-count_docs :
    (w : String) (d : Dict ℕ) (docs : List (List String))
    → Dict.get_or 0 w (count_docs d docs) ≡ Dict.get_or 0 w d + docs_with w docs
get_or-count_docs w d [] = omega arith
get_or-count_docs w d (doc ∷ docs) = ground (
  arith,
  get_or-count_docs w (bump_all d (keys (term_freqs doc))) docs,
  get_or-bump_all w d (keys (term_freqs doc)),
  count-term_freqs w doc,
)

docs_with-le : (w : String) (docs : List (List String)) → docs_with w docs ≤ length docs
docs_with-le w [] = omega arith
docs_with-le w (doc ∷ docs) = ground (arith, docs_with-le w docs)

-- The frequency of a word is the number of documents that hold it, which is at most their number:
-- the difference in `idf` is never negative.
pub doc_freqs-docs_with :
    (w : String) (docs : List (List String))
    → (Dict.get_or 0 w (doc_freqs docs) ≡ docs_with w docs)
      × (Dict.get_or 0 w (doc_freqs docs) ≤ length docs)
unfolding doc_freqs
doc_freqs-docs_with w docs = (
  omega (arith, get_or-count_docs w [] docs),
  omega (arith, get_or-count_docs w [] docs, docs_with-le w docs),
)

contains-keys : (w : String) (d : Dict ℕ) → contains (keys d) w ≡ has w d
contains-keys w [] = refl
contains-keys w ((j, v) ∷ d) = ground (arith, contains-keys w d, eq_iff w j, eq_iff j w)

contains-term_freqs :
    (w : String) (doc : List String) → contains (keys (term_freqs doc)) w ≡ contains doc w
unfolding term_freqs
contains-term_freqs w doc = contains-keys w (bump_all [] doc) ∙ has-bump_all w [] doc

has-count_docs :
    (w : String) (d : Dict ℕ) (docs : List (List String))
    → has w (count_docs d docs) ≡ has w d || any (λ doc. contains doc w) docs
has-count_docs w d [] = ground arith
has-count_docs w d (doc ∷ docs) = ground (
  arith,
  has-count_docs w (bump_all d (keys (term_freqs doc))) docs,
  has-bump_all w d (keys (term_freqs doc)),
  contains-term_freqs w doc,
)

module _ (F : Floats) where
  lookup-idf_table :
      (n : ℕ) (w : String) (d : Dict ℕ)
      → lookup w (idf_table F n d)
        ≡ (if has w d then some (idf_of F n (Dict.get_or 0 w d)) else none)
  lookup-idf_table n w [] = refl
  lookup-idf_table n w ((j, v) ∷ d) = elim (Bool-cases (j == w)) [
    | inl e ↦ rw e
    | inr e ↦ rw e (lookup-idf_table n w d)
  ]

  -- A word has a weight exactly if some document holds it.
  pub lookup-idf :
      (n : ℕ) (w : String) (docs : List (List String))
      → lookup w (idf_table F n (doc_freqs docs))
        ≡ (if any (λ doc. contains doc w) docs then some (idf_of F n (docs_with w docs)) else none)
  unfolding doc_freqs
  lookup-idf n w docs =
      let held : has w (count_docs [] docs) ≡ any (λ doc. contains doc w) docs =
        ground (arith, has-count_docs w [] docs) in
      let counted : Dict.get_or 0 w (count_docs [] docs) ≡ docs_with w docs =
        omega (arith, get_or-count_docs w [] docs) in
      lookup-idf_table n w (count_docs [] docs) ∙ rw (held, counted)

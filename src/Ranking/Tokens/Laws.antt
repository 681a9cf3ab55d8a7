-- ===== src/Ranking/Tokens/Laws.antt =====
-- What a token is.
use Prim.Native.String.{[], ◌∷◌}
use mathlib.Core.List.{List}
use enterprise_angular_nest.Base.{
  ◌≤◌, Bool, true, false, not, ◌||◌, Char, String, ◌≡◌, refl, arith, leb, All, filter, Bool-cases,
  and-parts, not-true, leb→le, inl, inr,
}
use enterprise_angular_nest.Base.Text.{
  Unicode, size, contains, split, split_from, add_word, all_chars,
}
use enterprise_angular_nest.Ranking.Vocabulary.{stopwords}
use enterprise_angular_nest.Ranking.Tokens.{blank_punctuation, keeps, normalize, tokenize}

-- a word of at least two word characters that is no stop word
pub record IsToken (u : Unicode) (w : String) : Type 0 where
  pub long : 2 ≤ size w
  pub signal : contains stopwords w ≡ false
  pub letters : all_chars u.is_word w ≡ true

module _ (u : Unicode) where
  -- each character is a word character or white space
  abbrev pub wordy : Char → Bool
  wordy c = u.is_word c || u.is_space c

  blank_punctuation-wordy :
      (s : String) → u.is_space " " ≡ true → all_chars wordy (blank_punctuation u s) ≡ true
  blank_punctuation-wordy [] h = refl
  blank_punctuation-wordy (c ∷ s) h = ground (arith, h, blank_punctuation-wordy s h)

  add_word-All :
      (w : String) (ws : List String)
      → all_chars u.is_word w ≡ true
      → All (λ v. all_chars u.is_word v ≡ true) ws
      → All (λ v. all_chars u.is_word v ≡ true) (add_word w ws)
  add_word-All [] ws h k = k
  add_word-All (c ∷ w) ws h k = (h, k)

  split_from-All :
      (s : String)
      → all_chars wordy s ≡ true
      → (all_chars u.is_word (split_from u.is_space s).0 ≡ true)
        × All (λ v. all_chars u.is_word v ≡ true) (split_from u.is_space s).1
  split_from-All [] h = (refl, tt)
  split_from-All (c ∷ s) h =
      let (first, others) = split_from-All s (ground (arith, h)) in
      elim (Bool-cases (u.is_space c)) [
        | inl e ↦ rw e (
          refl,
          add_word-All (split_from u.is_space s).0 (split_from u.is_space s).1 first others,
        )
        | inr e ↦ rw e (ground (arith, h, e, first), others)
      ]

  keeps-IsToken : (w : String) → keeps u w ≡ true → all_chars u.is_word w ≡ true → IsToken u w
  keeps-IsToken w e h =
      let parts = and-parts (leb 2 (size w)) (not (contains stopwords w)) e in
      record {
        long = leb→le 2 (size w) parts.0;
        signal = not-true (contains stopwords w) parts.1;
        letters = h;
      }

  filter-IsToken :
      (ws : List String)
      → All (λ v. all_chars u.is_word v ≡ true) ws
      → All (IsToken u) (filter (keeps u) ws)
  filter-IsToken List.[] h = tt
  filter-IsToken (List.◌∷◌ w ws) h = elim (Bool-cases (keeps u w)) [
    | inl e ↦ rw e (keeps-IsToken w e h.0, filter-IsToken ws h.1)
    | inr e ↦ rw e (filter-IsToken ws h.1)
  ]

  -- Every token of a text is a word of at least two word characters, and no stop word, if the blank is
  -- white space.
  pub tokenize-IsToken : (s : String) → u.is_space " " ≡ true → All (IsToken u) (tokenize u s)
  unfolding tokenize
  tokenize-IsToken s h =
      let t = blank_punctuation u (normalize u (u.lower s)) in
      let (first, others) =
        split_from-All t (blank_punctuation-wordy (normalize u (u.lower s)) h) in
      filter-IsToken (split u.is_space t)
        (add_word-All (split_from u.is_space t).0 (split_from u.is_space t).1 first others)

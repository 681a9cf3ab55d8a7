-- ===== src/Ranking/Tokens.antt =====
-- `_normalize` and `BM25.tokenize`.
pub mod Laws
use enterprise_angular_nest.Base.{
  ℕ, zero, suc, ◌-◌, Bool, false, not, ◌&&◌, ◌||◌, String, ◌<>◌, List, [], ◌∷◌, ltb, leb, filter,
  if◌then◌else◌,
}
use enterprise_angular_nest.Base.Text.{Unicode, size, contains, split}
use enterprise_angular_nest.Base.Sort.{sort_desc}
use enterprise_angular_nest.Base.Words.{ends_here}
use enterprise_angular_nest.Ranking.Vocabulary.{stopwords, synonyms}

-- `_SYNONYM_PATTERNS`: the longest variants first
pub synonym_patterns : List (String × String)
unfolding sort_desc
synonym_patterns = sort_desc ltb (λ p. size p.0) synonyms

module _ (u : Unicode) where
  -- the variant at the head of the text, in any case, and no word character behind it
  abbrev pub variant_here : String → String → Bool
  variant_here String.[] s = ends_here u.is_word s
  variant_here (String.◌∷◌ c p) String.[] = false
  variant_here (String.◌∷◌ c p) (String.◌∷◌ d s) = u.same_letter c d && variant_here p s

  -- `pattern.sub(canonical, s)`. `skip` counts the characters of a match that are still to pass, and
  -- `after` says that the character before is a word character.
  abbrev pub replace_from : String → String → ℕ → Bool → String → String
  replace_from variant canonical skip after String.[] = ""
  replace_from variant canonical (suc k) after (String.◌∷◌ c s) =
      replace_from variant canonical k (u.is_word c) s
  replace_from variant canonical zero after (String.◌∷◌ c s) =
      let hit = not after && variant_here variant (String.◌∷◌ c s) in
      (if hit then canonical else String.◌∷◌ c "")
      <> replace_from variant canonical (if hit then size variant - 1 else 0) (u.is_word c) s

  abbrev pub replace_all : List (String × String) → String → String
  replace_all [] s = s
  replace_all ((variant, canonical) ∷ patterns) s =
      replace_all patterns (replace_from variant canonical 0 false s)

  unfoldable pub normalize : String → String
  unfolding synonym_patterns
  normalize s = replace_all synonym_patterns s

  -- `re.sub(r'[^\w\s]', ' ', s)`
  abbrev pub blank_punctuation : String → String
  blank_punctuation String.[] = ""
  blank_punctuation (String.◌∷◌ c s) =
      String.◌∷◌ (if u.is_word c || u.is_space c then c else " ") (blank_punctuation s)

  abbrev pub keeps : String → Bool
  keeps w = leb 2 (size w) && not (contains stopwords w)

  unfoldable pub tokenize : String → List String
  unfolding split
  tokenize s = filter keeps (split u.is_space (blank_punctuation (normalize (u.lower s))))

-- ===== src/Base/Words.antt =====
-- `re.search(r"(?<!\w)" + re.escape(p) + r"(?!\w)", s)`: a phrase that stands on its own.
pub mod Spec
use Prim.Native.String.{[], ◌∷◌}
use enterprise_angular_nest.Base.{Bool, true, false, not, ◌&&◌, ◌||◌, String, Char, code, eqb}

module _ (word : Char → Bool) where
  -- `(?!\w)` at the head of `s`
  abbrev pub ends_here : String → Bool
  ends_here [] = true
  ends_here (c ∷ s) = not (word c)

  -- the phrase at the head of the text, and the look-ahead behind it
  abbrev pub phrase_here : String → String → Bool
  phrase_here [] s = ends_here s
  phrase_here (c ∷ p) [] = false
  phrase_here (c ∷ p) (d ∷ s) = eqb (code c) (code d) && phrase_here p s

  -- The search at each position: `after` says that the character before it is a word character.
  abbrev pub phrase_from : Bool → String → String → Bool
  phrase_from after p [] = not after && phrase_here p []
  phrase_from after p (c ∷ s) = (not after && phrase_here p (c ∷ s)) || phrase_from (word c) p s

  unfoldable pub search_phrase : String → String → Bool
  search_phrase p s = phrase_from false p s

  -- `re.search(r"\b" + stem + r"\w*", s)`, for a stem of word characters
  abbrev starts_here : String → String → Bool
  starts_here [] s = true
  starts_here (c ∷ p) [] = false
  starts_here (c ∷ p) (d ∷ s) = eqb (code c) (code d) && starts_here p s

  abbrev stem_from : Bool → String → String → Bool
  stem_from after p [] = not after && starts_here p []
  stem_from after p (c ∷ s) = (not after && starts_here p (c ∷ s)) || stem_from (word c) p s

  unfoldable pub search_stem : String → String → Bool
  search_stem p s = stem_from false p s

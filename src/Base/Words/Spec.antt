-- ===== src/Base/Words/Spec.antt =====
-- The search for a phrase finds exactly the occurrences between word boundaries.
use Prim.Native.String.{[], ◌∷◌}
use text.Mathlib.TextLemmas.{nil-append, cons-append}
use text.Mathlib.TextEquality.{Char-path}
use enterprise_angular_nest.Base.{
  Bool, true, false, not, String, Char, code, eqb, ◌<>◌, ◌≡◌, ◌↔◌, inl, inr, refl, arith, eqb_iff,
  Bool-cases, ap, sym, and-parts, not-true, ◌&&◌,
}
use enterprise_angular_nest.Base.Words.{ends_here, phrase_here, phrase_from, search_phrase}

-- the last character of `a` is a word character, or `after` if `a` is empty
abbrev pub ends_in_word : (Char → Bool) → Bool → String → Bool
ends_in_word word after [] = after
ends_in_word word after (c ∷ a) = ends_in_word word (word c) a

-- `s` is `a ++ p ++ b`, and no word character touches `p` on either side
pub record Occurs (word : Char → Bool) (after : Bool) (p s : String) : Type 0 where
  pub before : String
  pub behind : String
  pub splits : s ≡ before <> (p <> behind)
  pub starts : ends_in_word word after before ≡ false
  pub ends : ends_here word behind ≡ true

module _ (word : Char → Bool) where
  phrase_here_sound :
      (p s : String)
      → phrase_here word p s ≡ true
      → (b : String) × (s ≡ p <> b) × (ends_here word b ≡ true)
  phrase_here_sound [] s h = (s, sym (nil-append s), h)
  phrase_here_sound (c ∷ p) [] h = ground arith
  phrase_here_sound (c ∷ p) (d ∷ s) h =
      let parts = and-parts (eqb (code c) (code d)) (phrase_here word p s) h in
      let (b, e, k) = phrase_here_sound p s parts.1 in
      let same = Char-path c d ((eqb_iff (code c) (code d)).0 parts.0) in
      (b, rw (same, cons-append) (ap (◌∷◌ d) e), k)

  phrase_here_complete :
      (p b : String) → ends_here word b ≡ true → phrase_here word p (p <> b) ≡ true
  phrase_here_complete [] b h = rw nil-append h
  phrase_here_complete (c ∷ p) b h =
      rw (cons-append, (eqb_iff (code c) (code c)).1 refl) (phrase_here_complete p b h)

  phrase_from-here :
      (after : Bool) (p s : String)
      → after ≡ false
      → phrase_here word p s ≡ true
      → phrase_from word after p s ≡ true
  phrase_from-here after p [] e h = rw (e, h)
  phrase_from-here after p (c ∷ s) e h = rw (e, h)

  phrase_from-later :
      (after : Bool) (p : String) (c : Char) (s : String)
      → phrase_from word (word c) p s ≡ true
      → phrase_from word after p (c ∷ s) ≡ true
  phrase_from-later after p c s h = ground arith

  at_head :
      (after : Bool) (p s : String)
      → (not after && phrase_here word p s) ≡ true
      → Occurs word after p s
  at_head after p s h =
      let parts = and-parts (not after) (phrase_here word p s) h in
      let (b, e, k) = phrase_here_sound p s parts.1 in
      record {
        before = "";
        behind = b;
        splits = rw nil-append e;
        starts = not-true after parts.0;
        ends = k;
      }

  one_later :
      (after : Bool) (p : String) (c : Char) (s : String)
      → Occurs word (word c) p s
      → Occurs word after p (c ∷ s)
  one_later after p c s o = record {
    before = c ∷ o.before;
    behind = o.behind;
    splits = rw cons-append (ap (◌∷◌ c) o.splits);
    starts = o.starts;
    ends = o.ends;
  }

  phrase_from_sound :
      (after : Bool) (p s : String) → phrase_from word after p s ≡ true → Occurs word after p s
  phrase_from_sound after p [] h = at_head after p [] h
  phrase_from_sound after p (c ∷ s) h =
      elim (Bool-cases (not after && phrase_here word p (c ∷ s))) [
        | inl e ↦ at_head after p (c ∷ s) e
        | inr e ↦ one_later after p c s (phrase_from_sound (word c) p s (rw e at h))
      ]

  phrase_from_complete :
      (before : String) (after : Bool) (p b : String)
      → ends_in_word word after before ≡ false
      → ends_here word b ≡ true
      → phrase_from word after p (before <> (p <> b)) ≡ true
  phrase_from_complete [] after p b h k =
      rw nil-append (phrase_from-here after p (p <> b) h (phrase_here_complete p b k))
  phrase_from_complete (c ∷ a) after p b h k =
      rw cons-append
        (phrase_from-later after p c (a <> (p <> b)) (phrase_from_complete a (word c) p b h k))

  -- The search answers `true` exactly when the phrase occurs between word boundaries.
  pub search_phrase_iff : (p s : String) → (search_phrase word p s ≡ true) ↔ Occurs word false p s
  unfolding search_phrase
  search_phrase_iff p s = (
    phrase_from_sound false p s,
    λ o. rw o.splits (phrase_from_complete o.before false p o.behind o.starts o.ends),
  )

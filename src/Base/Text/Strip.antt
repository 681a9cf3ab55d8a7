-- ===== src/Base/Text/Strip.antt =====
-- Laws of `strip`.
use Prim.Native.String.{String, [], ◌∷◌}
use Prim.Native.Char.{Char}
use mathlib.Core.Path.{◌≡◌, refl, ◌∙◌, ap}
use mathlib.Core.Logic.{inl, inr}
use mathlib.Core.Bool.{Bool, true, false}
use enterprise_angular_nest.Base.Tests.{Bool-cases, and-parts}
use enterprise_angular_nest.Base.Text.{all_chars, add_char, strip_left, strip_right, strip}

module _ (p space : Char → Bool) where
  all_chars-strip_left :
      (s : String) → all_chars p s ≡ true → all_chars p (strip_left space s) ≡ true
  all_chars-strip_left [] h = refl
  all_chars-strip_left (c ∷ s) h = elim (Bool-cases (space c)) [
    | inl e ↦ rw e (all_chars-strip_left s (and-parts (p c) (all_chars p s) h).1)
    | inr e ↦ rw e h
  ]

  all_chars-add_char :
      (c : Char) (s : String)
      → p c ≡ true
      → all_chars p s ≡ true
      → all_chars p (add_char space c s) ≡ true
  all_chars-add_char c [] h k = elim (Bool-cases (space c)) [
    | inl e ↦ rw e refl
    | inr e ↦ rw (e, h) refl
  ]
  all_chars-add_char c (d ∷ s) h k = rw (h, k) refl

  all_chars-strip_right :
      (s : String) → all_chars p s ≡ true → all_chars p (strip_right space s) ≡ true
  all_chars-strip_right [] h = refl
  all_chars-strip_right (c ∷ s) h =
      let parts = and-parts (p c) (all_chars p s) h in
      all_chars-add_char c (strip_right space s) parts.0 (all_chars-strip_right s parts.1)

  -- Stripping keeps a property of all the characters.
  pub all_chars-strip : (s : String) → all_chars p s ≡ true → all_chars p (strip space s) ≡ true
  unfolding strip
  all_chars-strip s h = all_chars-strip_right (strip_left space s) (all_chars-strip_left s h)

module _ (space : Char → Bool) where
  add_char-kept : (c : Char) (s : String) → space c ≡ false → add_char space c s ≡ c ∷ s
  add_char-kept c [] e = rw e refl
  add_char-kept c (d ∷ s) e = refl

  strip_right-add_char :
      (c : Char) (s : String)
      → strip_right space s ≡ s
      → strip_right space (add_char space c s) ≡ add_char space c s
  strip_right-add_char c [] h = elim (Bool-cases (space c)) [
    | inl e ↦ rw e refl
    | inr e ↦ rw e (rw e refl)
  ]
  strip_right-add_char c (d ∷ s) h = ap (add_char space c) h

  strip_right_idem : (s : String) → strip_right space (strip_right space s) ≡ strip_right space s
  strip_right_idem [] = refl
  strip_right_idem (c ∷ s) = strip_right-add_char c (strip_right space s) (strip_right_idem s)

  -- what the left strip leaves starts with no space, and the right strip does not change that
  strip_left-right :
      (s : String)
      → strip_left space (strip_right space (strip_left space s))
        ≡ strip_right space (strip_left space s)
  strip_left-right [] = refl
  strip_left-right (c ∷ s) = elim (Bool-cases (space c)) [
    | inl e ↦ rw e (strip_left-right s)
    | inr e ↦ rw e (rw (add_char-kept c (strip_right space s) e) (rw e refl))
  ]

  pub strip_idem : (s : String) → strip space (strip space s) ≡ strip space s
  unfolding strip
  strip_idem s = ap (strip_right space) (strip_left-right s) ∙ strip_right_idem (strip_left space s)

-- ===== src/Tailwind/Plugins/Laws.antt =====
-- What plugin names the generator lets into the configuration.
use Prim.Native.String.{[], ◌∷◌}
use Prim.Native.Char.{Char, code}
use text.Mathlib.TextLemmas.{cons-append}
use enterprise_angular_nest.Base.{
  ◌∙◌, refl, none, inl, inr, ap, ◌<>◌, Bool, true, String, some, eqb, ◌&&◌, ◌||◌, ◌≡◌, ◌⊎◌, arith,
  Option, false,
}
use enterprise_angular_nest.Base.Text.{all_chars}
use enterprise_angular_nest.Tailwind.Plugins.{
  is_path_char, Place, start, at_sign, scope, scope_slash, name, slash, subpath, newline, advance,
  matches_from, is_plugin_name,
}

-- a character of a package name: a letter, a digit, one of `_ - . / @`
abbrev pub is_package_char : Char → Bool
is_package_char c = is_path_char c || eqb (code c) b'/' || eqb (code c) b'@'

-- characters of a package name, and perhaps a newline at the very end
abbrev pub is_package_line : String → Bool
is_package_line [] = true
is_package_line (c ∷ []) = is_package_char c || eqb (code c) b'\n'
is_package_line (c ∷ (d ∷ s)) = is_package_char c && is_package_line (d ∷ s)

advance-Safe :
    (p : Place) (c : Char) (q : Place)
    → advance p c ≡ some q
    → (is_package_char c ≡ true) ⊎ ((code c ≡ b'\n') × (q ≡ newline))
advance-Safe start c q h = ground arith
advance-Safe at_sign c q h = ground arith
advance-Safe scope c q h = ground arith
advance-Safe scope_slash c q h = ground arith
advance-Safe name c q h = ground arith
advance-Safe slash c q h = ground arith
advance-Safe subpath c q h = ground arith
advance-Safe newline c q h = ground arith

matched :
    (o : Option Place) (s : String)
    → matches_from o s ≡ true
    → (q : Place) × (o ≡ some q) × (matches_from (some q) s ≡ true)
matched none s h = ground (arith, h)
matched (some q) s h = (q, refl, h)

-- behind the last newline nothing matches
ended : (c : Char) (s : String) (q : Place) → q ≡ newline → matches_from (some q) (c ∷ s) ≡ false
ended c s q e = ap (λ p. matches_from (some p) (c ∷ s)) e

line-Safe : (o : Option Place) (s : String) → matches_from o s ≡ true → is_package_line s ≡ true
line-Safe none s h = ground (arith, h)
line-Safe (some p) [] h = refl
line-Safe (some p) (c ∷ []) h = by_step (matched (advance p c) [] h)
  where
    by_step :
        (q : Place) × (advance p c ≡ some q) × (matches_from (some q) [] ≡ true)
        → is_package_line (c ∷ []) ≡ true
    by_step m = elim (advance-Safe p c m.0 m.1) [
      | inl e ↦ rw e refl
      | inr e ↦ rw e.0 (ground arith)
    ]
line-Safe (some p) (c ∷ (d ∷ s)) h =
    by_step (matched (advance p c) (d ∷ s) h) (line-Safe (advance p c) (d ∷ s) h)
  where
    by_step :
        (q : Place) × (advance p c ≡ some q) × (matches_from (some q) (d ∷ s) ≡ true)
        → is_package_line (d ∷ s) ≡ true
        → is_package_line (c ∷ (d ∷ s)) ≡ true
    by_step m rest = elim (advance-Safe p c m.0 m.1) [
      | inl e ↦ rw (e, rest) refl
      | inr e ↦ ground (arith, m.2, ended d s m.0 e.1)
    ]

-- A plugin's name that `_format_plugins` lets pass has only letters, digits and the characters
-- `_ - . / @`, but for a newline that may be its last character.
pub is_plugin_name-Safe :
    (plugin : String) → is_plugin_name plugin ≡ true → is_package_line plugin ≡ true
unfolding is_plugin_name
is_plugin_name-Safe plugin h = line-Safe (some start) plugin h

-- a place from which a newline can still end the match where the text may end
abbrev is_open : Place → Bool
is_open newline = false
is_open _ = true

advance-open :
    (p : Place) (c : Char) (q : Place)
    → advance p c ≡ some q
    → is_package_char c ≡ true
    → is_open q ≡ true
advance-open start c q h k = ground arith
advance-open at_sign c q h k = ground arith
advance-open scope c q h k = ground arith
advance-open scope_slash c q h k = ground arith
advance-open name c q h k = ground arith
advance-open slash c q h k = ground arith
advance-open subpath c q h k = ground arith
advance-open newline c q h k = ground arith

newline-step :
    (p : Place) (c : Char) (s : String)
    → is_open p ≡ true
    → all_chars is_package_char (c ∷ s) ≡ true
    → ((q : Place) → is_open q ≡ true → matches_from (some q) (s <> "\n") ≡ matches_from (some q) s)
    → matches_from (advance p c) (s <> "\n") ≡ matches_from (advance p c) s
newline-step p c s o h rest = by_step (advance p c) refl
  where
    by_step : (q : Option Place) → advance p c ≡ q → matches_from q (s <> "\n") ≡ matches_from q s
    by_step none e = refl
    by_step (some q) e = rest q (advance-open p c q e (ground arith))

newline-from :
    (p : Place) (s : String)
    → is_open p ≡ true
    → all_chars is_package_char s ≡ true
    → matches_from (some p) (s <> "\n") ≡ matches_from (some p) s
newline-from p [] o h = at_end p o
  where
    at_end : (p : Place) → is_open p ≡ true → matches_from (some p) "\n" ≡ matches_from (some p) []
    at_end start o = refl
    at_end at_sign o = refl
    at_end scope o = refl
    at_end scope_slash o = refl
    at_end name o = refl
    at_end slash o = refl
    at_end subpath o = refl
    at_end newline o = ground (arith, o)
newline-from p (c ∷ s) o h =
    ap (matches_from (some p)) (cons-append c s "\n")
    ∙ newline-step p c s o h (λ q e. newline-from q s e (ground arith))

-- A plugin's name of package characters stays as valid, or as invalid, when a newline is put behind it.
pub is_plugin_name-newline :
    (plugin : String)
    → all_chars is_package_char plugin ≡ true
    → is_plugin_name (plugin <> "\n") ≡ is_plugin_name plugin
unfolding is_plugin_name
is_plugin_name-newline plugin h = newline-from start plugin refl h

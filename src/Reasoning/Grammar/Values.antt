-- ===== src/Reasoning/Grammar/Values.antt =====
-- What a validated action says: its prefix is in the vocabulary, and its value fits the prefix.
use Prim.Native.String.{[], ◌∷◌}
use enterprise_angular_nest.Base.{
  Bool, true, false, ◌||◌, String, code, eqb, Char, eq_iff, Option, none, some, ◌≡◌, refl, arith,
}
use enterprise_angular_nest.Base.Text.{Unicode, contains, all_chars}
use enterprise_angular_nest.Reasoning.Vocabulary.{action_prefixes, token_action_prefixes, modes}
use enterprise_angular_nest.Reasoning.Grammar.{
  split_colon, validate_action, check_parts, check_value, is_token, is_token_char, token_from,
  is_blank,
}

-- what the interpreter may rely on, for a prefix and its value
pub record FitsPrefix (u : Unicode) (prefix value : String) : Type 0 where
  pub known : contains action_prefixes prefix ≡ true
  pub token : contains token_action_prefixes prefix ≡ true → is_token value ≡ true
  pub named : prefix ≡ "pattern" → is_blank u value ≡ false
  pub chosen : prefix ≡ "mode" → contains modes value ≡ true

check_value-Fits : (u : Unicode) (a p v : String) → check_value u a p v ≡ none → FitsPrefix u p v
check_value-Fits u a p v h = record {
  known = ground (arith, h);
  token = λ e. ground (arith, h, e);
  named = λ e. ground (arith, h, e, eq_iff p "pattern");
  chosen = λ e. ground (arith, h, e, eq_iff p "mode", eq_iff p "pattern");
}

-- An action that passes the validation splits at its first colon into a known prefix and a value that
-- fits it: a token for a style or a constraint, a name for a pattern, "dark" or "light" for a mode.
pub validate_action-Fits :
    (u : Unicode) (action : String)
    → validate_action u action ≡ none
    → (p : String) × (v : String) × (split_colon action ≡ some (p, v)) × FitsPrefix u p v
unfolding validate_action
validate_action-Fits u action h = by_split (split_colon action) h
  where
    by_split :
        (s : Option (String × String))
        → check_parts u action s ≡ none
        → (p : String) × (v : String) × (s ≡ some (p, v)) × FitsPrefix u p v
    by_split none e = absurd (ground (arith, e))
    by_split (some (p, v)) e = (p, v, refl, check_value-Fits u action p v e)

pub validate-mode :
    (u : Unicode) (a p v : String)
    → validate_action u a ≡ none
    → split_colon a ≡ some (p, v)
    → p ≡ "mode"
    → contains modes v ≡ true
unfolding validate_action
validate-mode u a p v h e q = (check_value-Fits u a p v (rw e at h)).chosen q

-- `[a-z0-9-]`
abbrev pub is_slug_char : Char → Bool
is_slug_char c = is_token_char c || eqb (code c) b'-'

token_from-slug :
    (inside : Bool) (s : String) → token_from inside s ≡ true → all_chars is_slug_char s ≡ true
token_from-slug inside [] h = refl
token_from-slug inside (c ∷ s) h =
    ground (arith, h, token_from-slug true s, token_from-slug false s)

-- ===== src/Reasoning/Grammar.antt =====
-- `TOKEN_RE`, `action.split(":", 1)` and `_validate_action`.
pub mod Values
use Prim.Native.String.{[], ◌∷◌}
use enterprise_angular_nest.Base.{
  Bool, true, false, not, ◌&&◌, ◌||◌, String, Char, code, leb, eqb, ◌==◌, Option, none, some,
  if◌then◌else◌,
}
use enterprise_angular_nest.Base.Text.{Unicode, contains, all_chars}
use enterprise_angular_nest.Reasoning.Vocabulary.{action_prefixes, token_action_prefixes, modes}

-- The `ValueError`s of the contract. What `format` puts into a message is the argument.
pub data RuleError : Type 0 where
  invalid_json not_an_object pattern_unnamed mode_unknown : RuleError
  duplicate_key unknown_condition no_actions duplicate_actions no_prefix unknown_action :
      String → RuleError
  invalid_value : String → String → RuleError

-- `[a-z0-9]`
abbrev pub is_token_char : Char → Bool
is_token_char c =
    (leb b'a' (code c) && leb (code c) b'z') || (leb b'0' (code c) && leb (code c) b'9')

-- `TOKEN_RE.fullmatch`: runs of letters and digits, joined by single dashes. The flag says that the
-- character before is in a run.
abbrev pub token_from : Bool → String → Bool
token_from inside [] = inside
token_from inside (c ∷ s) =
    if eqb (code c) b'-' then inside && token_from false s else is_token_char c && token_from true s

abbrev pub is_token : String → Bool
is_token value = token_from false value

abbrev prepend : Char → Option (String × String) → Option (String × String)
prepend c none = none
prepend c (some (p, v)) = some (c ∷ p, v)

-- `action.split(":", 1)`; `none` without a colon, where Python's list has one part.
abbrev pub split_colon : String → Option (String × String)
split_colon [] = none
split_colon (c ∷ s) =
    let rest = split_colon s in if eqb (code c) b':' then some ("", s) else prepend c rest

-- `not value.strip()`
abbrev pub is_blank : Unicode → String → Bool
is_blank u value = all_chars u.is_space value

abbrev check_value : Unicode → String → String → String → Option RuleError
check_value u action prefix value =
    if not (contains action_prefixes prefix)
    then some (unknown_action action)
    else if contains token_action_prefixes prefix && not (is_token value)
    then some (invalid_value prefix value)
    else if (prefix == "pattern") && is_blank u value
    then some pattern_unnamed
    else if (prefix == "mode") && not (contains modes value)
    then some mode_unknown
    else none

abbrev check_parts : Unicode → String → Option (String × String) → Option RuleError
check_parts u action none = some (no_prefix action)
check_parts u action (some (prefix, value)) = check_value u action prefix value

-- `_validate_action` on a text: the error that it raises, if any.
unfoldable pub validate_action : Unicode → String → Option RuleError
validate_action u action = check_parts u action (split_colon action)

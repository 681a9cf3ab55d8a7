-- ===== src/Reasoning/Parse.antt =====
-- `_object_without_duplicates` and `parse_decision_rules`.
pub mod Accepted
pub mod Documents
use enterprise_angular_nest.Base.{
  Bool, false, not, ◌||◌, String, ◌==◌, Option, none, some, List, [], ◌∷◌, if◌then◌else◌,
}
use enterprise_angular_nest.Base.Text.{Unicode, contains}
use enterprise_angular_nest.Base.Dict.{Dict}
use enterprise_angular_nest.Reasoning.Vocabulary.{allowed_conditions}
use enterprise_angular_nest.Reasoning.Grammar.{
  RuleError, invalid_json, not_an_object, duplicate_key, unknown_condition, no_actions,
  duplicate_actions, no_prefix, validate_action,
}

-- A decoded document; an object keeps its pairs in the order of the text, repeated keys included.
mutual
  pub data Json : Type 0 where
    null : Json
    bool : Bool → Json
    number : String → Json
    text : String → Json
    array : Items → Json
    object : Pairs → Json

  pub data Items : Type 0 where
    nil : Items
    cons : Json → Items → Items

  pub data Pairs : Type 0 where
    end : Pairs
    pair : String → Json → Pairs → Pairs

-- a value, or the `ValueError` that was raised
pub data Result {κ} (V : Type κ) : Type κ where
  err : RuleError → Result V
  ok : V → Result V

infixl 5 ◌>>=◌
-- what follows runs only where nothing was raised
abbrev pub ◌>>=◌ {κ ν} : {V : Type κ} {W : Type ν} → Result V → (V → Result W) → Result W
err raised >>= next = err raised
ok value >>= next = next value

abbrev has_key : String → Pairs → Bool
has_key k end = false
has_key k (pair j v ps) = (j == k) || has_key k ps

-- the first key that the pairs before it already hold
abbrev duplicate_in : List String → Pairs → Option RuleError
duplicate_in seen end = none
duplicate_in seen (pair k v ps) =
    if contains seen k then some (duplicate_key k) else duplicate_in (k ∷ seen) ps

abbrev pub first_error : Option RuleError → Option RuleError → Option RuleError
first_error none e = e
first_error (some x) e = some x

-- The hook runs when an object closes, so the inner objects come first.
mutual
  object_error : Json → Option RuleError
  object_error (array xs) = items_error xs
  object_error (object ps) = first_error (pairs_error ps) (duplicate_in [] ps)
  object_error _ = none

  items_error : Items → Option RuleError
  items_error nil = none
  items_error (cons x xs) = first_error (object_error x) (items_error xs)

  pairs_error : Pairs → Option RuleError
  pairs_error end = none
  pairs_error (pair k v ps) = first_error (object_error v) (pairs_error ps)

-- `_validate_action` begins with `isinstance(action, str)`.
abbrev checked : String → Option RuleError → Result String
checked action none = ok action
checked action (some e) = err e

abbrev one_action : Unicode → Json → Result String
one_action u (text action) = checked action (validate_action u action)
one_action u _ = err (no_prefix "")

abbrev all_actions : Unicode → Items → Result (List String)
all_actions u nil = ok []
all_actions u (cons x xs) = do
  action ← one_action u x
  actions ← all_actions u xs
  ok (action ∷ actions)

-- `len(actions) != len(set(actions))`
abbrev pub repeats : List String → Bool
repeats [] = false
repeats (x ∷ xs) = contains xs x || repeats xs

abbrev without_repeats : String → List String → Result (List String)
without_repeats condition actions =
    if repeats actions then err (duplicate_actions condition) else ok actions

abbrev action_array : Unicode → String → Json → Result (List String)
action_array u condition (array (cons x xs)) = do
  actions ← all_actions u (cons x xs)
  without_repeats condition actions
action_array u condition _ = err (no_actions condition)

one_rule : Unicode → String → Json → Result (List String)
one_rule u condition actions =
    if not (contains allowed_conditions condition)
    then err (unknown_condition condition)
    else action_array u condition actions

all_rules : Unicode → Pairs → Result (Dict (List String))
unfolding one_rule
all_rules u end = ok []
all_rules u (pair condition actions ps) = do
  rule ← one_rule u condition actions
  rules ← all_rules u ps
  ok ((condition, rule) ∷ rules)

abbrev rules_of : Unicode → Json → Result (Dict (List String))
rules_of u (object ps) = all_rules u ps
rules_of u _ = err not_an_object

abbrev loaded : Unicode → Json → Option RuleError → Result (Dict (List String))
loaded u document none = rules_of u document
loaded u document (some e) = err e

abbrev decoded : Unicode → Option Json → Result (Dict (List String))
decoded u none = err invalid_json
decoded u (some document) = loaded u document (object_error document)

-- `parse_decision_rules`; `loads` is `json.loads`, and an empty text stands for `None` too.
unfoldable pub parse_decision_rules :
    Unicode → (String → Option Json) → String → Result (Dict (List String))
unfolding all_rules object_error
parse_decision_rules u loads raw = decoded u (loads (if raw == "" then "{}" else raw))

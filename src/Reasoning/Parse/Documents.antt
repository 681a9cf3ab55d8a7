-- ===== src/Reasoning/Parse/Documents.antt =====
-- Rules written as a document, and read back.
use enterprise_angular_nest.Base.{
  true, false, String, ◌==◌, eq_iff, Option, none, some, List, [], ◌∷◌, ◌≡◌, refl, arith, All,
  if◌then◌else◌,
}
use enterprise_angular_nest.Base.Text.{Unicode, contains}
use enterprise_angular_nest.Base.Dict.{Dict, keys}
use enterprise_angular_nest.Reasoning.Grammar.{validate_action}
use enterprise_angular_nest.Reasoning.Parse.Accepted.{IsRule, IsRuleSet}
use enterprise_angular_nest.Reasoning.Parse.{
  Json, Items, Pairs, ok, repeats, parse_decision_rules, all_actions, action_array, all_rules,
  object_error, items_error, pairs_error, duplicate_in, array, object, text, nil, cons, end, pair,
}

abbrev items_of : List String → Items
items_of [] = nil
items_of (a ∷ actions) = cons (text a) (items_of actions)

abbrev pairs_of : Dict (List String) → Pairs
pairs_of [] = end
pairs_of ((condition, actions) ∷ rules) = pair condition (array (items_of actions)) (pairs_of rules)

-- the JSON object with an array of texts for each condition
abbrev pub document_of : Dict (List String) → Json
document_of rules = object (pairs_of rules)

all_actions-items_of :
    (u : Unicode) (actions : List String)
    → All (λ a. validate_action u a ≡ none) actions
    → all_actions u (items_of actions) ≡ ok actions
all_actions-items_of u [] h = refl
all_actions-items_of u (a ∷ actions) h = rw (h.0, all_actions-items_of u actions h.1)

array-items_of :
    (u : Unicode) (condition : String) (actions : List String)
    → IsRule u condition actions
    → action_array u condition (array (items_of actions)) ≡ ok actions
array-items_of u condition [] r = absurd (ground (arith, r.some_action))
array-items_of u condition (a ∷ actions) r =
    rw (all_actions-items_of u (a ∷ actions) r.each_valid, r.once_each)

all_rules-pairs_of :
    (u : Unicode) (rules : Dict (List String))
    → All (λ r. IsRule u r.0 r.1) rules
    → all_rules u (pairs_of rules) ≡ ok rules
unfolding all_rules
all_rules-pairs_of u [] h = refl
all_rules-pairs_of u ((condition, actions) ∷ rules) h =
    rw (h.0.known, array-items_of u condition actions h.0, all_rules-pairs_of u rules h.1)

items_error-items_of : (actions : List String) → items_error (items_of actions) ≡ none
unfolding object_error items_error
items_error-items_of [] = refl
items_error-items_of (a ∷ actions) = items_error-items_of actions

pairs_error-pairs_of : (rules : Dict (List String)) → pairs_error (pairs_of rules) ≡ none
unfolding object_error pairs_error
pairs_error-pairs_of [] = refl
pairs_error-pairs_of ((condition, actions) ∷ rules) =
    rw (items_error-items_of actions) (pairs_error-pairs_of rules)

duplicate_in-pairs_of :
    (seen : List String) (rules : Dict (List String))
    → repeats (keys rules) ≡ false
    → ((k : String) → contains seen k ≡ true → contains (keys rules) k ≡ false)
    → duplicate_in seen (pairs_of rules) ≡ none
duplicate_in-pairs_of seen [] h apart = refl
duplicate_in-pairs_of seen ((k, actions) ∷ rules) h apart = ground (
  arith,
  eq_iff k k,
  apart k,
  duplicate_in-pairs_of (k ∷ seen) rules (ground (arith, h))
      (λ j m. ground (arith, h, m, apart j, eq_iff j k)),
)

-- A set of rules written as a document is read back as it was.
pub parse-document_of :
    (u : Unicode) (loads : String → Option Json) (raw : String) (rules : Dict (List String))
    → loads (if raw == "" then "{}" else raw) ≡ some (document_of rules)
    → IsRuleSet u rules
    → parse_decision_rules u loads raw ≡ ok rules
unfolding parse_decision_rules
parse-document_of u loads raw rules loaded_as r =
    rw
      (
        loaded_as,
        pairs_error-pairs_of rules,
        duplicate_in-pairs_of [] rules r.once (λ k m. absurd (ground (arith, m))),
      )
      (all_rules-pairs_of u rules r.each)

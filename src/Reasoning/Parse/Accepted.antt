-- ===== src/Reasoning/Parse/Accepted.antt =====
-- What `parse_decision_rules` accepts, and that it accepts every such set of rules.
use enterprise_angular_nest.Base.{
  true, false, String, ◌==◌, eq_iff, Option, none, some, List, [], ◌∷◌, ◌≡◌, inl, inr, refl, arith,
  ap, is_empty, All, Bool-cases, Option-cases, if◌then◌else◌,
}
use enterprise_angular_nest.Base.Text.{Unicode, contains}
use enterprise_angular_nest.Base.Dict.{Dict, keys}
use enterprise_angular_nest.Reasoning.Vocabulary.{allowed_conditions}
use enterprise_angular_nest.Reasoning.Grammar.{validate_action, RuleError}
use enterprise_angular_nest.Reasoning.Parse.{
  Json, Items, Pairs, Result, ok, err, ◌>>=◌, first_error, repeats, parse_decision_rules,
  all_actions, action_array, one_rule, all_rules, rules_of, decoded, object_error, pairs_error,
  duplicate_in, without_repeats, one_action, array, object, text, nil, cons, end, pair,
}

pub record IsRule (u : Unicode) (condition : String) (actions : List String) : Type 0 where
  pub known : contains allowed_conditions condition ≡ true
  pub some_action : is_empty actions ≡ false
  pub each_valid : All (λ a. validate_action u a ≡ none) actions
  pub once_each : repeats actions ≡ false

pub record IsRuleSet (u : Unicode) (rules : Dict (List String)) : Type 0 where
  pub each : All (λ r. IsRule u r.0 r.1) rules
  pub once : repeats (keys rules) ≡ false

ok-injective {κ} : {V : Type κ} {v w : V} → ok v ≡ ok w → v ≡ w
ok-injective same = ground arith

-- what does not raise has a first step that does not
bind-ok {κ ν} :
    {V : Type κ} {W : Type ν} (first : Result V) (next : V → Result W) {w : W}
    → (first >>= next) ≡ ok w
    → (v : V) × (first ≡ ok v) × (next v ≡ ok w)
bind-ok (err raised) next returns = cc
bind-ok (ok v) next returns = (v, refl, returns)

without_repeats-ok :
    (condition : String) (xs ys : List String)
    → without_repeats condition xs ≡ ok ys
    → (repeats xs ≡ false) × (xs ≡ ys)
without_repeats-ok condition xs ys h = ground arith

abbrev pair_keys : Pairs → List String
pair_keys end = []
pair_keys (pair k v ps) = k ∷ pair_keys ps

first_error-none : (a b : Option RuleError) → first_error a b ≡ none → b ≡ none
first_error-none a b h = ground arith

duplicate_in-fresh :
    (seen : List String) (ps : Pairs)
    → duplicate_in seen ps ≡ none
    → (repeats (pair_keys ps) ≡ false)
      × ((k : String) → contains seen k ≡ true → contains (pair_keys ps) k ≡ false)
duplicate_in-fresh seen end h = (refl, λ k m. refl)
duplicate_in-fresh seen (pair k v ps) h =
    let fresh : contains seen k ≡ false = ground (arith, h) in
    let (once, apart) = duplicate_in-fresh (k ∷ seen) ps (ground (arith, h, fresh)) in
    (
      ground (arith, once, apart k, eq_iff k k),
      λ j m. ground (arith, fresh, m, apart j, eq_iff j k),
    )

module _ (u : Unicode) where
  one_action-valid : (x : Json) (a : String) → one_action u x ≡ ok a → validate_action u a ≡ none
  one_action-valid (text s) a h = elim (Option-cases (validate_action u s)) [
    | inl e ↦ ground (arith, e)
    | inr (x, e) ↦ ground (arith, e)
  ]
  one_action-valid _ a h = ground arith

  all_actions-valid :
      (xs : Items) (actions : List String)
      → all_actions u xs ≡ ok actions
      → All (λ a. validate_action u a ≡ none) actions
  all_actions-valid nil [] h = tt
  all_actions-valid nil (a ∷ as') h = absurd (ground arith)
  all_actions-valid (cons x xs) actions h =
      let (a, ea, h1) = bind-ok (one_action u x) _ h in
      let (rest, er, h2) = bind-ok (all_actions u xs) _ h1 in
      let e : a ∷ rest ≡ actions = ok-injective h2 in
      rw (← e) (one_action-valid x a ea, all_actions-valid xs rest er)

  all_actions-some :
      (x : Json) (xs : Items) (actions : List String)
      → all_actions u (cons x xs) ≡ ok actions
      → is_empty actions ≡ false
  all_actions-some x xs [] h =
      let (a, ea, h1) = bind-ok (one_action u x) _ h in
      let (rest, er, h2) = bind-ok (all_actions u xs) _ h1 in absurd (ground (arith, h2))
  all_actions-some x xs (a ∷ actions) h = refl

  array-IsRule :
      (condition : String) (x : Json) (xs : Items) (actions : List String)
      → contains allowed_conditions condition ≡ true
      → action_array u condition (array (cons x xs)) ≡ ok actions
      → IsRule u condition actions
  array-IsRule condition x xs actions known h =
      let (all, ea, h1) = bind-ok (all_actions u (cons x xs)) _ h in
      let (once, e) = without_repeats-ok condition all actions h1 in
      rw (← e) (record {
        known = known;
        some_action = all_actions-some x xs all ea;
        each_valid = all_actions-valid (cons x xs) all ea;
        once_each = once;
      })

  one_rule-IsRule :
      (condition : String) (j : Json) (actions : List String)
      → one_rule u condition j ≡ ok actions
      → IsRule u condition actions
  unfolding one_rule
  one_rule-IsRule condition j actions h =
      elim (Bool-cases (contains allowed_conditions condition)) [
        | inl known ↦ value_case j known (rw known at h)
        | inr e ↦ absurd (ground (arith, e))
      ]
    where
      value_case :
          (k : Json)
          → contains allowed_conditions condition ≡ true
          → action_array u condition k ≡ ok actions
          → IsRule u condition actions
      value_case (array (cons x xs)) known e = array-IsRule condition x xs actions known e
      value_case (array nil) known e = absurd (ground (arith, e))
      value_case _ known e = absurd (ground (arith, e))

  all_rules-IsRule :
      (ps : Pairs) (rules : Dict (List String))
      → all_rules u ps ≡ ok rules
      → All (λ r. IsRule u r.0 r.1) rules
  unfolding all_rules
  all_rules-IsRule end [] h = tt
  all_rules-IsRule end (r ∷ rules) h = absurd (ground arith)
  all_rules-IsRule (pair c j ps) rules h =
      let (rule, e1, h1) = bind-ok (one_rule u c j) _ h in
      let (rest, e2, h2) = bind-ok (all_rules u ps) _ h1 in
      let e : (c, rule) ∷ rest ≡ rules = ok-injective h2 in
      rw (← e) (one_rule-IsRule c j rule e1, all_rules-IsRule ps rest e2)

  all_rules-keys :
      (ps : Pairs) (rules : Dict (List String))
      → all_rules u ps ≡ ok rules
      → keys rules ≡ pair_keys ps
  unfolding all_rules
  all_rules-keys end rules h = ground (arith, ok-injective h)
  all_rules-keys (pair c j ps) rules h =
      let (rule, e1, h1) = bind-ok (one_rule u c j) _ h in
      let (rest, e2, h2) = bind-ok (all_rules u ps) _ h1 in
      let e : (c, rule) ∷ rest ≡ rules = ok-injective h2 in
      rw (← e) (ap (◌∷◌ c) (all_rules-keys ps rest e2))

  rules_of-IsRuleSet :
      (j : Json) (rules : Dict (List String))
      → object_error j ≡ none
      → rules_of u j ≡ ok rules
      → IsRuleSet u rules
  unfolding object_error
  rules_of-IsRuleSet (object ps) rules e h = record {
    each = all_rules-IsRule ps rules h;
    once =
        rw (all_rules-keys ps rules h)
          (duplicate_in-fresh [] ps (first_error-none (pairs_error ps) (duplicate_in [] ps) e)).0;
  }
  rules_of-IsRuleSet _ rules e h = absurd (ground (arith, h))

  -- What the parser accepts is a set of rules: every condition is in the vocabulary and stands once,
  -- and its actions are some valid actions with no repetition.
  pub parse-IsRuleSet :
      (loads : String → Option Json) (raw : String) (rules : Dict (List String))
      → parse_decision_rules u loads raw ≡ ok rules
      → IsRuleSet u rules
  unfolding parse_decision_rules
  parse-IsRuleSet loads raw rules h = by_document (loads (if raw == "" then "{}" else raw)) h
    where
      by_document : (d : Option Json) → decoded u d ≡ ok rules → IsRuleSet u rules
      by_document none e = absurd (ground (arith, e))
      by_document (some j) e = elim (Option-cases (object_error j)) [
        | inl q ↦ rules_of-IsRuleSet j rules q (rw q at e)
        | inr (x, q) ↦ absurd (ground (arith, q, e))
      ]

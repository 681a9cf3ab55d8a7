-- ===== src/Reasoning/Apply/Effects.antt =====
-- The interpreter's loops compute what the specification says.
use mathlib.Core.List.{append-nil, append_assoc}
use enterprise_angular_nest.Base.{
  Bool, String, ◌==◌, eq_iff, Option, none, some, List, [], ◌∷◌, ◌++◌, ◌≡◌, refl, ◌∙◌, ap, arith,
  All, All-imp, Bool-cases, Option-cases, inl, inr, if◌then◌else◌,
}
use enterprise_angular_nest.Base.Distinct.{append_all, append_all-append, append_all-first_of_each}
use enterprise_angular_nest.Base.Text.{Unicode}
use enterprise_angular_nest.Base.Dict.{Dict}
use enterprise_angular_nest.Reasoning.Grammar.{split_colon, validate_action}
use enterprise_angular_nest.Reasoning.Parse.Accepted.{IsRule, IsRuleSet}
use enterprise_angular_nest.Reasoning.Apply.{
  Outcome, perform, perform_split, act_all, is_active, run_rules, note, nothing_done,
  apply_decision_rules,
}
use enterprise_angular_nest.Reasoning.Apply.Spec.{
  actions_of, asked, asked_by, last_or, active_rules, specified,
}

abbrev asked_from : Outcome → List String → Outcome
asked_from r actions = record r {
  style_ids = append_all r.style_ids (asked "style" actions);
  constraints = append_all r.constraints (asked "constraint" actions);
  pattern_name = last_or r.pattern_name (asked "pattern" actions);
  mode = last_or r.mode (asked "mode" actions);
}

abbrev Splits : String → Type 0
Splits a = (part : String × String) × (split_colon a ≡ some part)

validate-Splits : (u : Unicode) (a : String) → validate_action u a ≡ none → Splits a
unfolding validate_action
validate-Splits u a h = elim (Option-cases (split_colon a)) [
  | inl e ↦ absurd (ground (arith, e, h))
  | inr (part, e) ↦ (part, e)
]

perform-asked :
    (r : Outcome) (p v : String) (actions : List String)
    → asked_from (perform r p v) actions ≡ record r {
      style_ids =
          append_all r.style_ids
            (if p == "style" then v ∷ asked "style" actions else asked "style" actions);
      constraints = append_all r.constraints (
          if p == "constraint" then v ∷ asked "constraint" actions else asked "constraint" actions);
      pattern_name =
          last_or r.pattern_name
            (if p == "pattern" then v ∷ asked "pattern" actions else asked "pattern" actions);
      mode =
          last_or r.mode (if p == "mode" then v ∷ asked "mode" actions else asked "mode" actions);
    }
perform-asked r p v actions = elim (Bool-cases (p == "style")) [
  | inl e ↦ rw ((eq_iff p "style").0 e)
  | inr e1 ↦ elim (Bool-cases (p == "constraint")) [
    | inl e ↦ rw ((eq_iff p "constraint").0 e)
    | inr e2 ↦ elim (Bool-cases (p == "pattern")) [
      | inl e ↦ rw ((eq_iff p "pattern").0 e)
      | inr e3 ↦ elim (Bool-cases (p == "mode")) [
        | inl e ↦ rw ((eq_iff p "mode").0 e)
        | inr e4 ↦ rw (e1, e2, e3, e4)
      ]
    ]
  ]
]

act_all-asked :
    (r : Outcome) (actions : List String)
    → All Splits actions
    → act_all (some r) actions ≡ some (asked_from r actions)
unfolding act_all
act_all-asked r [] h = refl
act_all-asked r (a ∷ actions) (((p, v), e), h) =
    ap (λ s. act_all (perform_split r s) actions) e
    ∙ rw e (act_all-asked (perform r p v) actions h ∙ ap some (perform-asked r p v actions))

asked_by-append :
    (prefix : String) (s : Option (String × String)) (xs ys : List String)
    → asked_by prefix s (xs ++ ys) ≡ asked_by prefix s xs ++ ys
asked_by-append prefix none xs ys = refl
asked_by-append prefix (some (p, v)) xs ys = ground arith

asked-append :
    (prefix : String) (xs ys : List String)
    → asked prefix (xs ++ ys) ≡ asked prefix xs ++ asked prefix ys
asked-append prefix [] ys = refl
asked-append prefix (x ∷ xs) ys =
    rw (asked-append prefix xs ys)
      (asked_by-append prefix (split_colon x) (asked prefix xs) (asked prefix ys))

last_or-append :
    (d : Option String) (xs ys : List String) → last_or d (xs ++ ys) ≡ last_or (last_or d xs) ys
last_or-append d [] ys = refl
last_or-append d (x ∷ xs) ys = last_or-append (some x) xs ys

asked_from-append :
    (r : Outcome) (xs ys : List String) → asked_from (asked_from r xs) ys ≡ asked_from r (xs ++ ys)
asked_from-append r xs ys = simp (asked-append, append_all-append, last_or-append)

-- the outcome after the active rules `chosen`, from `r`
abbrev chosen_from : Outcome → Dict (List String) → Outcome
chosen_from r chosen = record (asked_from r (actions_of chosen)) {
  activated = r.activated ++ chosen;
}

chosen_from-cons :
    (r : Outcome) (condition : String) (actions : List String) (chosen : Dict (List String))
    → chosen_from (asked_from (note r condition actions) actions) chosen
      ≡ chosen_from r ((condition, actions) ∷ chosen)
chosen_from-cons r condition actions chosen =
    simp (asked-append, append_all-append, last_or-append, append_assoc)

run_rules-chosen :
    (u : Unicode) (query : String) (r : Outcome) (rules : Dict (List String))
    → All (λ x. All Splits x.1) rules
    → run_rules u (u.casefold query) (some r) rules
      ≡ some (chosen_from r (active_rules u rules query))
unfolding run_rules
run_rules-chosen u query r [] h = rw append-nil
run_rules-chosen u query r ((condition, actions) ∷ rules) h =
    let q = u.casefold query in
    let noted = note r condition actions in
    let next = λ (o : Option Outcome). run_rules u q o rules in
    let branch = λ (b : Bool). next (if b then act_all (some noted) actions else some r) in
    elim (Bool-cases (is_active u q condition)) [
      | inl e ↦
          ap branch e
          ∙ ap next (act_all-asked noted actions h.0)
          ∙ run_rules-chosen u query (asked_from noted actions) rules h.1
          ∙ rw e (ap some (chosen_from-cons r condition actions (active_rules u rules query)))
      | inr e ↦ ap branch e ∙ rw e (run_rules-chosen u query r rules h.1)
    ]

rules-Split :
    (u : Unicode) (rules : Dict (List String))
    → All (λ r. IsRule u r.0 r.1) rules
    → All (λ x. All Splits x.1) rules
rules-Split u [] h = tt
rules-Split u ((condition, actions) ∷ rules) h =
    (All-imp _ _ actions (λ a v. validate-Splits u a v) h.0.each_valid, rules-Split u rules h.1)

-- On accepted rules the interpreter never fails, and does what the specification says: the active
-- rules are logged in order, styles and constraints are those asked for without repetition, and the
-- last pattern and the last mode win.
pub apply-specified :
    (u : Unicode) (rules : Dict (List String)) (query : String)
    → IsRuleSet u rules
    → apply_decision_rules u rules query ≡ some (specified u rules query)
unfolding apply_decision_rules
apply-specified u rules query h =
    run_rules-chosen u query nothing_done rules (rules-Split u rules h.each)
    ∙ simp append_all-first_of_each

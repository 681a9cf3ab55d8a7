-- ===== src/Reasoning/Apply.antt =====
-- `apply_decision_rules`: which rules a query activates, and what their actions do.
pub mod Spec
pub mod Modes
pub mod Effects
use enterprise_angular_nest.Base.{
  Bool, ◌||◌, String, ◌==◌, Option, none, some, List, [], ◌∷◌, ◌++◌, if◌then◌else◌, any,
}
use enterprise_angular_nest.Base.Distinct.{append_new}
use enterprise_angular_nest.Base.Text.{Unicode, contains}
use enterprise_angular_nest.Base.Dict.{Dict, get_or}
use enterprise_angular_nest.Base.Words.{search_phrase}
use enterprise_angular_nest.Reasoning.Vocabulary.{condition_signals}
use enterprise_angular_nest.Reasoning.Grammar.{split_colon}

-- the dictionary `result`
pub record Outcome : Type 0 where
  pub activated : List (String × List String)
  pub style_ids : List String
  pub constraints : List String
  pub pattern_name : Option String
  pub mode : Option String

abbrev pub nothing_done : Outcome
nothing_done = record {
  activated = [];
  style_ids = [];
  constraints = [];
  pattern_name = none;
  mode = none;
}

abbrev pub perform : Outcome → String → String → Outcome
perform r prefix value =
    if prefix == "style"
    then record r { style_ids = append_new r.style_ids value }
    else if prefix == "constraint"
    then record r { constraints = append_new r.constraints value }
    else if prefix == "pattern"
    then record r { pattern_name = some value }
    else if prefix == "mode"
    then record r { mode = some value }
    else r

-- The `elif` chain guards the repeated value inside its test, so a repeated style falls through to
-- tests that its prefix cannot pass. `none` is the `ValueError` of an action without a colon.
abbrev pub perform_split : Outcome → Option (String × String) → Option Outcome
perform_split r none = none
perform_split r (some (prefix, value)) = some (perform r prefix value)

abbrev pub act : Outcome → String → Option Outcome
act r action = perform_split r (split_colon action)

-- `for action in actions`
pub act_all : Option Outcome → List String → Option Outcome
act_all none actions = none
act_all (some r) [] = some r
act_all (some r) (action ∷ actions) = act_all (act r action) actions

-- `must_have`, or a signal of the condition stands in the query as a phrase
unfoldable pub is_active : Unicode → String → String → Bool
is_active u normalized condition =
    (condition == "must_have")
    || any (λ signal. search_phrase u.is_word signal normalized)
        (get_or [] condition condition_signals)

abbrev pub note : Outcome → String → List String → Outcome
note r condition actions = record r { activated = r.activated ++ ((condition, actions) ∷ []) }

-- `for condition, actions in rules.items()`
pub run_rules : Unicode → String → Option Outcome → Dict (List String) → Option Outcome
run_rules u normalized none rules = none
run_rules u normalized (some r) [] = some r
run_rules u normalized (some r) ((condition, actions) ∷ rules) =
    run_rules u normalized
      (if is_active u normalized condition
        then act_all (some (note r condition actions)) actions
        else some r)
      rules

-- `apply_decision_rules`; the empty text stands for a query of `None`.
unfoldable pub apply_decision_rules : Unicode → Dict (List String) → String → Option Outcome
unfolding act_all run_rules
apply_decision_rules u rules query = run_rules u (u.casefold query) (some nothing_done) rules

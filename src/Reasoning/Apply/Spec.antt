-- ===== src/Reasoning/Apply/Spec.antt =====
-- What `apply_decision_rules` promises, without its loops: the active rules in order, and of their
-- actions the values for each prefix.
use mathlib.Core.Path.{subst}
use mathlib.Core.Option.{some-injective}
use enterprise_angular_nest.Base.{
  true, false, String, ◌==◌, eq_iff, Option, none, some, List, [], ◌∷◌, ◌++◌, ◌≡◌, refl, arith, All,
  filter, if◌then◌else◌,
}
use enterprise_angular_nest.Base.Distinct.{first_of_each}
use enterprise_angular_nest.Base.Text.{Unicode, contains}
use enterprise_angular_nest.Base.Dict.{Dict}
use enterprise_angular_nest.Reasoning.Grammar.{split_colon}
use enterprise_angular_nest.Reasoning.Parse.{repeats}
use enterprise_angular_nest.Reasoning.Apply.{Outcome, is_active}

-- the actions of all rules, in order
abbrev pub actions_of : Dict (List String) → List String
actions_of [] = []
actions_of ((condition, actions) ∷ rules) = actions ++ actions_of rules

abbrev pub asked_by : String → Option (String × String) → List String → List String
asked_by prefix none rest = rest
asked_by prefix (some (p, value)) rest = if p == prefix then value ∷ rest else rest

-- the values of the actions with this prefix, in order
abbrev pub asked : String → List String → List String
asked prefix [] = []
asked prefix (a ∷ actions) = asked_by prefix (split_colon a) (asked prefix actions)

abbrev pub last_or : Option String → List String → Option String
last_or value [] = value
last_or value (x ∷ xs) = last_or (some x) xs

abbrev pub active_rules : Unicode → Dict (List String) → String → Dict (List String)
active_rules u rules query = filter (λ r. is_active u (u.casefold query) r.0) rules

abbrev pub specified : Unicode → Dict (List String) → String → Outcome
specified u rules query =
    let chosen = active_rules u rules query in
    record {
      activated = chosen;
      style_ids = first_of_each [] (asked "style" (actions_of chosen));
      constraints = first_of_each [] (asked "constraint" (actions_of chosen));
      pattern_name = last_or none (asked "pattern" (actions_of chosen));
      mode = last_or none (asked "mode" (actions_of chosen));
    }

-- What `first_of_each` keeps of a value.
pub contains-first_of_each :
    (seen xs : List String) (v : String)
    → contains seen v ≡ false
    → contains (first_of_each seen xs) v ≡ contains xs v
contains-first_of_each seen [] v h = refl
contains-first_of_each seen (x ∷ xs) v h =
    ground (
      arith,
      eq_iff v x,
      contains-first_of_each seen xs v h,
      contains-first_of_each (x ∷ seen) xs v,
    )

-- A value in `seen` is not kept.
first_of_each-seen :
    (seen xs : List String) (v : String)
    → contains seen v ≡ true
    → contains (first_of_each seen xs) v ≡ false
first_of_each-seen seen [] v h = refl
first_of_each-seen seen (x ∷ xs) v h =
    ground (arith, eq_iff v x, first_of_each-seen seen xs v h, first_of_each-seen (x ∷ seen) xs v)

-- No value is kept twice.
pub first_of_each-once : (seen xs : List String) → repeats (first_of_each seen xs) ≡ false
first_of_each-once seen [] = refl
first_of_each-once seen (x ∷ xs) = ground (
  arith,
  first_of_each-once seen xs,
  first_of_each-once (x ∷ seen) xs,
  first_of_each-seen (x ∷ seen) xs x,
  eq_iff x x,
)

-- What holds of every candidate holds of the last one.
pub last_or-All {ℓ} :
    (P : String → Type ℓ) (d : Option String) (xs : List String)
    → ((v : String) → d ≡ some v → P v)
    → All P xs
    → (v : String) → last_or d xs ≡ some v
    → P v
last_or-All P d [] h k v e = h v e
last_or-All P d (x ∷ xs) h k v e =
    last_or-All P (some x) xs (λ w q. subst P (some-injective x w q) k.0) k.1 v e

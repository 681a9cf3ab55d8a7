-- ===== src/Base/Distinct.antt =====
-- Appending what is not there yet, and the first of each value.
use mathlib.Core.List.{List, [], ◌∷◌, ◌++◌, append-nil, append_assoc}
use mathlib.Core.Path.{◌≡◌, refl, ◌∙◌, ap}
use mathlib.Core.Logic.{inl, inr}
use mathlib.Core.Bool.{◌||◌}
use Prim.Native.String.{String}
use native.Mathlib.Omega.{arith}
use text.Mathlib.Text.{◌==◌}
use enterprise_angular_nest.Base.Tests.{Bool-cases, if◌then◌else◌}
use enterprise_angular_nest.Base.Text.{contains}

-- `value not in xs` guards the append
abbrev pub append_new : List String → String → List String
append_new xs value = if contains xs value then xs else xs ++ (value ∷ [])

abbrev pub append_all : List String → List String → List String
append_all acc [] = acc
append_all acc (x ∷ xs) = append_all (append_new acc x) xs

-- the values that are not in `seen`, each where it first stands
abbrev pub first_of_each : List String → List String → List String
first_of_each seen [] = []
first_of_each seen (x ∷ xs) =
    let rest = first_of_each seen xs in
    let later = first_of_each (x ∷ seen) xs in if contains seen x then rest else x ∷ later

pub contains-append_one :
    (acc : List String) (x v : String) → contains (acc ++ (x ∷ [])) v ≡ contains (x ∷ acc) v
contains-append_one [] x v = refl
contains-append_one (y ∷ acc) x v = ground (arith, contains-append_one acc x v)

pub first_of_each-same :
    (s t xs : List String)
    → ((v : String) → contains s v ≡ contains t v)
    → first_of_each s xs ≡ first_of_each t xs
first_of_each-same s t [] same = refl
first_of_each-same s t (x ∷ xs) same = rw (
  same x,
  first_of_each-same s t xs same,
  first_of_each-same (x ∷ s) (x ∷ t) xs (λ v. ap (λ b. (v == x) || b) (same v)),
)

pub append_all-first_of_each :
    (acc xs : List String) → append_all acc xs ≡ acc ++ first_of_each acc xs
append_all-first_of_each acc [] = rw append-nil
append_all-first_of_each acc (x ∷ xs) = elim (Bool-cases (contains acc x)) [
  | inl e ↦ rw e (append_all-first_of_each acc xs)
  | inr e ↦ rw e (
      append_all-first_of_each (acc ++ (x ∷ [])) xs
      ∙ append_assoc acc (x ∷ []) (first_of_each (acc ++ (x ∷ [])) xs)
      ∙ ap (λ l. acc ++ (x ∷ l))
          (first_of_each-same (acc ++ (x ∷ [])) (x ∷ acc) xs (contains-append_one acc x)))
]

pub append_all-append :
    (acc xs ys : List String) → append_all acc (xs ++ ys) ≡ append_all (append_all acc xs) ys
append_all-append acc [] ys = refl
append_all-append acc (x ∷ xs) ys = append_all-append (append_new acc x) xs ys

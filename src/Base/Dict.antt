-- ===== src/Base/Dict.antt =====
-- Python's `dict` with text keys, in insertion order.
use Prim.Native.String.{String}
use mathlib.Core.Path.{◌≡◌, refl, ◌∙◌}
use mathlib.Core.Bool.{Bool, true, false}
use mathlib.Core.Option.{Option, none, some}
use mathlib.Core.List.{List, [], ◌∷◌}
use native.Mathlib.Omega.{arith}
use text.Mathlib.Text.{◌==◌}
use text.Mathlib.TextEquality.{eq_iff}
use enterprise_angular_nest.Base.Tests.{if◌then◌else◌}

abbrev pub Dict {ℓ} : Type ℓ → Type ℓ
Dict V = List (String × V)

module _ {ℓ} {V : Type ℓ} where
  -- `d.get(k)`
  abbrev pub lookup : String → Dict V → Option V
  lookup k [] = none
  lookup k ((j, v) ∷ d) = if j == k then some v else lookup k d

  -- `d.get(k, default)`
  abbrev pub get_or : V → String → Dict V → V
  get_or v k [] = v
  get_or v k ((j, w) ∷ d) = if j == k then w else get_or v k d

  -- `k in d`
  abbrev pub has : String → Dict V → Bool
  has k [] = false
  has k ((j, v) ∷ d) = if j == k then true else has k d

  -- `d[k] = v`
  abbrev pub insert : String → V → Dict V → Dict V
  insert k v [] = (k, v) ∷ []
  insert k v ((j, w) ∷ d) = if j == k then (j, v) ∷ d else (j, w) ∷ insert k v d

  -- `d.update(e)`
  abbrev pub update : Dict V → Dict V → Dict V
  update d [] = d
  update d ((k, v) ∷ e) = update (insert k v d) e

  -- `d.pop(k, None)`
  abbrev pub remove : String → Dict V → Dict V
  remove k [] = []
  remove k ((j, v) ∷ d) = let rest = remove k d in if j == k then rest else (j, v) ∷ rest

  abbrev pub keys : Dict V → List String
  keys [] = []
  keys ((k, v) ∷ d) = k ∷ keys d

  pub lookup-insert :
      (k j : String) (v : V) (d : Dict V)
      → lookup j (insert k v d) ≡ (if k == j then some v else lookup j d)
  lookup-insert k j v [] = refl
  lookup-insert k j v ((i, w) ∷ d) =
      ground (arith, eq_iff k j, eq_iff i k, eq_iff i j, lookup-insert k j v d)

  pub lookup-remove :
      (k j : String) (d : Dict V) → lookup j (remove k d) ≡ (if k == j then none else lookup j d)
  lookup-remove k j [] = ground arith
  lookup-remove k j ((i, w) ∷ d) =
      ground (arith, eq_iff k j, eq_iff i k, eq_iff i j, lookup-remove k j d)

  pub has-eq-lookup :
      (k : String) (d : Dict V) → has k d ≡ elim (lookup k d) [ none ↦ false | some v ↦ true ]
  has-eq-lookup k [] = refl
  has-eq-lookup k ((j, v) ∷ d) = ground (arith, has-eq-lookup k d)

module _ {ℓ} {V : Type ℓ} where
  pub get_or-insert :
      (u : V) (k j : String) (v : V) (d : Dict V)
      → get_or u j (insert k v d) ≡ (if k == j then v else get_or u j d)
  get_or-insert u k j v [] = refl
  get_or-insert u k j v ((i, w) ∷ d) =
      ground (arith, eq_iff k j, eq_iff i k, eq_iff i j, get_or-insert u k j v d)

  pub has-insert :
      (k j : String) (v : V) (d : Dict V)
      → has j (insert k v d) ≡ (if k == j then true else has j d)
  has-insert k j v [] = refl
  has-insert k j v ((i, w) ∷ d) =
      ground (arith, eq_iff k j, eq_iff i k, eq_iff i j, has-insert k j v d)

  pub lookup-get_or :
      (u : V) (k : String) (d : Dict V)
      → lookup k d ≡ (if has k d then some (get_or u k d) else none)
  lookup-get_or u k [] = refl
  lookup-get_or u k ((j, v) ∷ d) = ground (arith, lookup-get_or u k d)

module _ {ℓ} {V : Type ℓ} where
  -- An update leaves the keys that it does not have.
  pub lookup-update_absent :
      (k : String) (d e : Dict V) → has k e ≡ false → lookup k (update d e) ≡ lookup k d
  lookup-update_absent k d [] h = refl
  lookup-update_absent k d ((j, v) ∷ e) h =
      lookup-update_absent k (insert j v d) e (ground (arith, h))
      ∙ ground (arith, lookup-insert j k v d, h)

  pub get_or-update_absent :
      (u : V) (k : String) (d e : Dict V) → has k e ≡ false → get_or u k (update d e) ≡ get_or u k d
  get_or-update_absent u k d [] h = refl
  get_or-update_absent u k d ((j, v) ∷ e) h =
      get_or-update_absent u k (insert j v d) e (ground (arith, h))
      ∙ ground (arith, get_or-insert u j k v d, h)

-- ===== src/Design/Dials.antt =====
-- The design dials: `DIAL_TIERS` and `_resolve_dial`, with a tier's keywords, motion tier or spacing as
-- its payload.
pub mod Laws
use enterprise_angular_nest.Base.{
  ℕ, Bool, true, false, ◌&&◌, String, Option, none, some, List, [], ◌∷◌, leb, if◌then◌else◌,
}
use enterprise_angular_nest.Base.Dict.{Dict}

pub record Tier {ℓ} (A : Type ℓ) : Type ℓ where
  pub low : ℕ
  pub high : ℕ
  pub label : String
  pub payload : A

-- `{**info, "value": value}`
pub record Dial {ℓ} (A : Type ℓ) : Type ℓ where
  pub value : ℕ
  pub label : String
  pub payload : A

module _ {ℓ} {A : Type ℓ} where
  abbrev pub tier : ℕ → ℕ → String → A → Tier A
  tier low high label payload = record { low = low; high = high; label = label; payload = payload }

abbrev pub variance_tiers : List (Tier (List String))
variance_tiers =
    tier 1 3 "Centered / Minimal"
      ("Minimalism" ∷ "Exaggerated Minimalism" ∷ "centered" ∷ "symmetric" ∷ "grid-based" ∷ [])
    ∷ tier 4 7 "Balanced / Modern" ("modern" ∷ "structured" ∷ "balanced" ∷ [])
    ∷ tier 8 10 "Bold / Asymmetric"
        ("Brutalism" ∷ "Bento Grids" ∷ "asymmetric" ∷ "experimental" ∷ [])
    ∷ []

abbrev pub motion_tiers : List (Tier String)
motion_tiers =
    tier 1 3 "Subtle" "Subtle" ∷ tier 4 7 "Standard" "Standard" ∷ tier 8 10 "Complex" "Complex" ∷ []

abbrev spacing : String → String → String → String → String → String → String → Dict String
spacing xs sm md lg xl xl2 xl3 =
    ("xs", xs)
    ∷ ("sm", sm)
    ∷ ("md", md)
    ∷ ("lg", lg)
    ∷ ("xl", xl)
    ∷ ("2xl", xl2)
    ∷ ("3xl", xl3)
    ∷ []

abbrev pub density_tiers : List (Tier (Dict String))
density_tiers =
    tier 1 3 "Spacious" (spacing "4px" "8px" "24px" "32px" "48px" "64px" "96px")
    ∷ tier 4 7 "Standard" (spacing "4px" "8px" "16px" "24px" "32px" "48px" "64px")
    ∷ tier 8 10 "Dense / Dashboard" (spacing "2px" "4px" "8px" "12px" "16px" "24px" "32px")
    ∷ []

-- an integer: a natural number, or one below zero
pub data Integer : Type 0 where
  natural : ℕ → Integer
  below_zero : ℕ → Integer

-- `max(1, min(10, value))`
abbrev pub clamp : Integer → ℕ
clamp (below_zero n) = 1
clamp (natural n) = if leb 10 n then 10 else if leb 1 n then n else 1

module _ {ℓ} {A : Type ℓ} where
  -- the loop over the tiers
  abbrev pub tier_of : ℕ → List (Tier A) → Option (Dial A)
  tier_of value [] = none
  tier_of value (t ∷ tiers) =
      let later = tier_of value tiers in
      if leb t.low value && leb value t.high
      then some (record { value = value; label = t.label; payload = t.payload })
      else later

  -- `_resolve_dial`
  unfoldable pub resolve_dial : List (Tier A) → Option Integer → Option (Dial A)
  resolve_dial tiers none = none
  resolve_dial tiers (some value) = tier_of (clamp value) tiers

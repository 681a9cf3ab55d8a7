-- ===== src/Design/Dials/Laws.antt =====
-- A dial that is set always has a tier.
use enterprise_angular_nest.Base.{
  ℕ, ◌+◌, ◌≤◌, ◌<◌, Option, some, List, [], ◌∷◌, ◌≡◌, refl, arith, leb, ◌&&◌, Bool-cases, inl, inr,
  ◌⊎◌,
}
use enterprise_angular_nest.Design.Dials.{
  Dial, Integer, Tier, clamp, natural, below_zero, resolve_dial, tier_of,
}

-- the number from 1 to 10 that is nearest to a value
abbrev pub IsNearest : Integer → ℕ → Type 0
IsNearest (below_zero v) n = n ≡ 1
IsNearest (natural v) n =
    (1 ≤ n) × (n ≤ 10) × (v < 1 → n ≡ 1) × (1 ≤ v → v ≤ 10 → n ≡ v) × (10 < v → n ≡ 10)

clamp-IsNearest : (value : Integer) → IsNearest value (clamp value)
clamp-IsNearest (below_zero v) = refl
clamp-IsNearest (natural v) =
    (ground arith, ground arith, λ h. ground arith, λ h k. ground arith, λ h. ground arith)

clamp-bounds : (value : Integer) → (1 ≤ clamp value) × (clamp value ≤ 10)
clamp-bounds (below_zero n) = (omega arith, omega arith)
clamp-bounds (natural n) = (ground arith, ground arith)

module _ {A : Type 0} where
  -- the tiers go on from `n` without a gap, up to 10
  abbrev pub IsPartition : ℕ → List (Tier A) → Type 0
  IsPartition n [] = 10 < n
  IsPartition n (t ∷ tiers) = (t.low ≡ n) × (n ≤ t.high) × IsPartition (t.high + 1) tiers

  -- the dial has the value and stands for the one of the tiers that holds it
  abbrev pub IsTier : ℕ → List (Tier A) → Dial A → Type 0
  IsTier value [] d = ⊥
  IsTier value (t ∷ tiers) d =
      ((d.value ≡ value)
        × (d.label ≡ t.label)
        × (d.payload ≡ t.payload)
        × (t.low ≤ value)
        × (value ≤ t.high))
      ⊎ IsTier value tiers d

  abbrev pub IsResolved : ℕ → List (Tier A) → Option (Dial A) → Type 0
  IsResolved value tiers found = (d : Dial A) × (found ≡ some d) × IsTier value tiers d

  later-IsResolved :
      (value : ℕ) (t : Tier A) (tiers : List (Tier A)) (found : Option (Dial A))
      → IsResolved value tiers found
      → IsResolved value (t ∷ tiers) found
  later-IsResolved value t tiers found (d, e, h) = (d, e, inr h)

  tier_of-IsResolved :
      (n value : ℕ) (tiers : List (Tier A))
      → IsPartition n tiers
      → n ≤ value
      → value ≤ 10
      → IsResolved value tiers (tier_of value tiers)
  tier_of-IsResolved n value [] h low high = absurd (omega (arith, h, low, high))
  tier_of-IsResolved n value (t ∷ tiers) h low high =
      elim (Bool-cases (leb t.low value && leb value t.high)) [
        | inl e ↦ rw e (
          record { value = value; label = t.label; payload = t.payload },
          refl,
          inl (refl, refl, refl, ground (arith, e), ground (arith, e)),
        )
        | inr e ↦ rw e (
            later-IsResolved value t tiers (tier_of value tiers)
              (tier_of-IsResolved (t.high + 1) value tiers h.2 (ground (arith, e, h.0, low)) high))
      ]

  -- If the tiers divide the numbers from 1 to 10, every integer that a dial is set to gives a dial with
  -- the nearest number of that range, so with the integer itself where it lies in it, and with the label
  -- and the payload of the tier that holds this number.
  pub resolve_dial-IsResolved :
      (tiers : List (Tier A)) (value : Integer)
      → IsPartition 1 tiers
      → (n : ℕ) × IsNearest value n × IsResolved n tiers (resolve_dial tiers (some value))
  unfolding resolve_dial
  resolve_dial-IsResolved tiers value h = (
    clamp value,
    clamp-IsNearest value,
    tier_of-IsResolved 1 (clamp value) tiers h (clamp-bounds value).0 (clamp-bounds value).1,
  )

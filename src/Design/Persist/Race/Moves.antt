-- ===== src/Design/Persist/Race/Moves.antt =====
-- What one call of an agent does to a path.
use enterprise_angular_nest.Base.{
  ℕ, suc, ◌+◌, Bool, true, false, ◌&&◌, String, ◌==◌, eq_iff, none, some, List, [], ◌∷◌, ◌++◌, All,
  ◌≡◌, refl, ◌∙◌, ◌⊎◌, inl, inr, arith, Bool-cases, if◌then◌else◌,
}
use enterprise_angular_nest.Base.Dict.{has-eq-lookup, lookup, lookup-insert, lookup-remove}
use enterprise_angular_nest.Design.Persist.{Files}
use enterprise_angular_nest.Design.Persist.Race.{
  Agent, Call, Phase, finished, link, linked, refuse, starting, unlink, write, written,
}

abbrev pub has_won : Phase → Bool
has_won starting = false
has_won (written temp) = false
has_won (linked temp won) = won
has_won (finished won) = won

abbrev pub is_winner : String → Agent → Bool
is_winner path a = has_won a.phase && a.path == path

abbrev pub winners : String → List Agent → ℕ
winners path [] = 0
winners path (a ∷ agents) =
    let rest = winners path agents in if is_winner path a then suc rest else rest

pub winners-append :
    (path : String) (before after : List Agent)
    → winners path (before ++ after) ≡ winners path before + winners path after
winners-append path [] after = omega arith
winners-append path (a ∷ before) after = ground (arith, winners-append path before after)

-- the temporary name that an agent holds
abbrev pub Holds : (String → Bool) → Phase → Type 0
Holds is_temp starting = Unit
Holds is_temp (written temp) = is_temp temp ≡ true
Holds is_temp (linked temp won) = is_temp temp ≡ true
Holds is_temp (finished won) = Unit

-- what one call does to a path that is no temporary name: it keeps it, or it publishes it
abbrev pub IsMove : String → Agent → Files → Agent → Files → Type 0
IsMove path a files b files2 =
    ((is_winner path b ≡ is_winner path a) × (lookup path files2 ≡ lookup path files))
    ⊎ ((is_winner path a ≡ false)
        × (is_winner path b ≡ true)
        × (lookup path files ≡ none)
        × (lookup path files2 ≡ some b.content))

module _ (is_temp : String → Bool) where
  pub Call-IsMove :
      (path : String) (a b : Agent) (files files2 : Files)
      → is_temp path ≡ false
      → Holds is_temp a.phase
      → Call is_temp a files b files2
      → IsMove path a files b files2 × Holds is_temp b.phase
  Call-IsMove path a b files files2 e h (write temp p q r) = (
    inl (
      rw p refl,
      ground (arith, lookup-insert temp path a.content files, eq_iff temp path, e, q),
    ),
    q,
  )
  Call-IsMove path a b files files2 e h (link temp p q) = elim (Bool-cases (a.path == path)) [
    | inl s ↦ (
      inr (
        rw p refl,
        rw s refl,
        ground
            (arith, has-eq-lookup a.path files, q, (eq_iff a.path path).0 s, eq_iff a.path path, s),
        lookup-insert a.path path a.content files ∙ rw s refl,
      ),
      rw p at h,
    )
    | inr s ↦
        (inl (rw (p, s) refl, lookup-insert a.path path a.content files ∙ rw s refl), rw p at h)
  ]
  Call-IsMove path a b files files2 e h (refuse temp p q) = (inl (rw p refl, refl), rw p at h)
  Call-IsMove path a b files files2 e h (unlink temp won p) = (
    inl (
      rw p refl,
      ground (arith, lookup-remove temp path files, eq_iff temp path, e, unlinked temp won p h),
    ),
    tt,
  )
    where
      unlinked :
          (temp : String) (won : Bool)
          → a.phase ≡ linked temp won
          → Holds is_temp a.phase
          → is_temp temp ≡ true
      unlinked temp won p h = rw p at h

  abbrev pub AllHold : List Agent → Type 0
  AllHold agents = All (λ (a : Agent). Holds is_temp a.phase) agents

  pub AllHold-replace :
      (before after : List Agent) (a b : Agent)
      → AllHold (before ++ (a ∷ after))
      → Holds is_temp a.phase × (Holds is_temp b.phase → AllHold (before ++ (b ∷ after)))
  AllHold-replace [] after a b h = (h.0, λ k. (k, h.1))
  AllHold-replace (c ∷ before) after a b h =
      let rest = AllHold-replace before after a b h.1 in (rest.0, λ k. (h.0, rest.1 k))

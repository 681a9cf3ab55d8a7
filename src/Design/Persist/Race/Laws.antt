-- ===== src/Design/Persist/Race/Laws.antt =====
-- No agent replaces what another has published, and each path has one winner at most.
use enterprise_angular_nest.Design.Persist.Race.Moves.{
  winners, winners-append, IsMove, AllHold, AllHold-replace, Call-IsMove,
}
use enterprise_angular_nest.Base.{
  suc, ◌≤◌, Bool, true, false, String, none, some, List, [], ◌∷◌, ◌++◌, All, ◌≡◌, refl, sym, ◌∙◌,
  ◌⊎◌, inl, inr, arith,
}
use enterprise_angular_nest.Base.Dict.{has, has-eq-lookup, lookup}
use enterprise_angular_nest.Design.Persist.{Files}
use enterprise_angular_nest.Design.Persist.Race.{
  Agent, Step, Steps, World, starting, step, stop, turn,
}

has_same : (path : String) (d e : Files) → lookup path d ≡ lookup path e → has path d ≡ has path e
has_same path d e h = has-eq-lookup path d ∙ rw h (sym (has-eq-lookup path e))

has_or_free : (path : String) (d : Files) → has path d ≡ true → lookup path d ≡ none → ⊥
has_or_free path d h k = ground (arith, h, k, has-eq-lookup path d)

taken_or_free :
    (path : String) (d : Files) (c : String) → lookup path d ≡ some c → lookup path d ≡ none → ⊥
taken_or_free path d c h k = cc (h, k)

module _ (is_temp : String → Bool) where
  -- what a step does to a path: one agent more has won it, which was free, or it is as it was
  abbrev IsTurn : String → World → World → Type 0
  IsTurn path s t =
      ((winners path t.agents ≡ winners path s.agents)
        × (lookup path t.files ≡ lookup path s.files))
      ⊎ ((winners path t.agents ≡ suc (winners path s.agents))
          × (lookup path s.files ≡ none)
          × (has path t.files ≡ true))

  move-IsTurn :
      (path : String) (before after : List Agent) (a b : Agent) (files files2 : Files)
      → IsMove path a files b files2
      → IsTurn path
          (record { files = files; agents = before ++ (a ∷ after) })
          (record { files = files2; agents = before ++ (b ∷ after) })
  move-IsTurn path before after a b files files2 (inl (same, kept)) = inl (
    winners-append path before (b ∷ after) ∙ rw same (sym (winners-append path before (a ∷ after))),
    kept,
  )
  move-IsTurn path before after a b files files2 (inr (lost, wins, free, taken)) =
      let later : winners path (a ∷ after) ≡ winners path after = rw lost refl in
      let more : winners path (b ∷ after) ≡ suc (winners path after) = rw wins refl in
      inr (
        omega (
          arith,
          winners-append path before (b ∷ after),
          winners-append path before (a ∷ after),
          later,
          more,
        ),
        free,
        has-eq-lookup path files2 ∙ rw taken refl,
      )

  step-IsTurn :
      (path : String) (s t : World)
      → is_temp path ≡ false
      → AllHold is_temp s.agents
      → Step is_temp s t
      → IsTurn path s t × AllHold is_temp t.agents
  step-IsTurn path s t e h (turn before after a b files files2 call) =
      let parts = AllHold-replace is_temp before after a b h in
      let move = Call-IsMove is_temp path a b files files2 e parts.0 call in
      (move-IsTurn path before after a b files files2 move.0, parts.1 move.1)

  -- What is published is kept, and a path that has a winner was won once and is taken.
  abbrev IsKept : String → World → World → Type 0
  IsKept path s t =
      AllHold is_temp t.agents
      × ((c : String) → lookup path s.files ≡ some c → lookup path t.files ≡ some c)
      × ((winners path s.agents ≡ 0) ⊎ (has path s.files ≡ true)
          → winners path s.agents ≤ 1
          → (winners path t.agents ≤ 1) × ((winners path t.agents ≡ 0) ⊎ (has path t.files ≡ true)))

  turn-IsKept :
      (path : String) (s t r : World)
      → IsKept path s t
      → IsTurn path t r
      → AllHold is_temp r.agents
      → IsKept path s r
  turn-IsKept path s t r (hold, kept, fair) (inl (same, as_was)) h = (
    h,
    (λ c e. as_was ∙ kept c e),
    λ k l. (
      omega (arith, same, (fair k l).0),
      elim (fair k l).1 [
        | inl z ↦ inl (same ∙ z)
        | inr q ↦ inr (has_same path r.files t.files as_was ∙ q)
      ],
    ),
  )
  turn-IsKept path s t r (hold, kept, fair) (inr (more, free, taken)) h = (
    h,
    (λ c e. absurd (taken_or_free path t.files c (kept c e) free)),
    λ k l. (
      elim (fair k l).1 [
        | inl z ↦ omega (arith, more, z)
        | inr q ↦ absurd (has_or_free path t.files q free)
      ],
      inr taken,
    ),
  )

  Steps-IsKept :
      (path : String) (s t : World)
      → is_temp path ≡ false
      → AllHold is_temp s.agents
      → Steps is_temp s t
      → IsKept path s t
  Steps-IsKept path s t e h stop = (h, (λ c q. q), λ k l. (l, k))
  Steps-IsKept path s t e h (step {t = m} steps last) =
      let kept = Steps-IsKept path s m e h steps in
      let turned = step-IsTurn path m t e kept.0 last in
      turn-IsKept path s m t kept turned.0 turned.1

  AllStarting-AllHold :
      (agents : List Agent)
      → All (λ (a : Agent). a.phase ≡ starting) agents
      → AllHold is_temp agents
  AllStarting-AllHold [] h = tt
  AllStarting-AllHold (a ∷ agents) h = (rw h.0 tt, AllStarting-AllHold agents h.1)

  winners_none :
      (path : String) (agents : List Agent)
      → All (λ (a : Agent). a.phase ≡ starting) agents
      → winners path agents ≡ 0
  winners_none path [] h = refl
  winners_none path (a ∷ agents) h = rw h.0 (winners_none path agents h.1)

  -- However the calls of agents that write without force alternate, from the start on: a path that is no
  -- temporary name has at most one winner, and a file that is there at some time has its content at every
  -- later time.
  pub race-IsExclusive :
      (path : String) (first s t : World)
      → is_temp path ≡ false
      → All (λ (a : Agent). a.phase ≡ starting) first.agents
      → Steps is_temp first s
      → Steps is_temp s t
      → (winners path t.agents ≤ 1)
        × ((c : String) → lookup path s.files ≡ some c → lookup path t.files ≡ some c)
  race-IsExclusive path first s t e starts before after =
      let nobody = winners_none path first.agents starts in
      let till = Steps-IsKept path first s e (AllStarting-AllHold first.agents starts) before in
      let fair = till.2 (inl nobody) (omega (arith, nobody)) in
      let from = Steps-IsKept path s t e till.0 after in ((from.2 fair.1 fair.0).0, from.1)

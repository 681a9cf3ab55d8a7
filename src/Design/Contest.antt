-- ===== src/Design/Contest.antt =====
-- Two agents that persist the same project at once.
use enterprise_angular_nest.Base.{Bool, String, some, [], ◌∷◌, ◌≡◌, refl, ◌≤◌, true, false}
use enterprise_angular_nest.Base.Dict.{lookup}
use enterprise_angular_nest.Base.Text.{is_prefix}
use enterprise_angular_nest.Design.Persist.{Files}
use enterprise_angular_nest.Design.Persist.Race.{
  Agent, Phase, Steps, World, link, linked, refuse, starting, step, stop, turn, write, written,
}
use enterprise_angular_nest.Design.Persist.Race.Laws.{race-IsExclusive}
use enterprise_angular_nest.Design.Persist.Race.Moves.{winners}

abbrev is_temp : String → Bool
is_temp name = is_prefix "." name

abbrev writer : String → Phase → Agent
writer content phase = record { path = "MASTER.md"; content = content; phase = phase }

abbrev both : Phase → Phase → Files → World
both p q files = record { files = files; agents = writer "one" p ∷ writer "two" q ∷ [] }

abbrev first_done : World
first_done =
    both (linked ".1" true) (written ".2")
      ((".1", "one") ∷ (".2", "two") ∷ ("MASTER.md", "one") ∷ [])

abbrev second_done : World
second_done =
    both (linked ".1" true) (linked ".2" false)
      ((".1", "one") ∷ (".2", "two") ∷ ("MASTER.md", "one") ∷ [])

to_first_done : Steps is_temp (both starting starting []) first_done
to_first_done =
    step
      (step
        (step stop (
          turn [] (writer "two" starting ∷ []) (writer "one" starting) (writer "one" (written ".1"))
            [] ((".1", "one") ∷ []) (write ".1" refl refl refl)))
        (turn (writer "one" (written ".1") ∷ []) [] (writer "two" starting)
          (writer "two" (written ".2")) ((".1", "one") ∷ []) ((".1", "one") ∷ (".2", "two") ∷ [])
          (write ".2" refl refl refl)))
      (turn [] (writer "two" (written ".2") ∷ []) (writer "one" (written ".1"))
        (writer "one" (linked ".1" true)) ((".1", "one") ∷ (".2", "two") ∷ [])
        ((".1", "one") ∷ (".2", "two") ∷ ("MASTER.md", "one") ∷ []) (link ".1" refl refl))

to_second_done : Steps is_temp first_done second_done
to_second_done = step stop (
    turn (writer "one" (linked ".1" true) ∷ []) [] (writer "two" (written ".2"))
      (writer "two" (linked ".2" false)) ((".1", "one") ∷ (".2", "two") ∷ ("MASTER.md", "one") ∷ [])
      ((".1", "one") ∷ (".2", "two") ∷ ("MASTER.md", "one") ∷ []) (refuse ".2" refl refl))

race-IsExclusive_example :
    (winners "MASTER.md" second_done.agents ≤ 1)
    × ((c : String)
        → lookup "MASTER.md" first_done.files ≡ some c
        → lookup "MASTER.md" second_done.files ≡ some c)
race-IsExclusive_example =
    race-IsExclusive is_temp "MASTER.md" (both starting starting []) first_done second_done refl
      (refl, (refl, tt)) to_first_done to_second_done

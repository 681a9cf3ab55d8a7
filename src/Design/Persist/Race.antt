-- ===== src/Design/Persist/Race.antt =====
-- `_write_persisted_file` without force, run by several agents at once: each call to the operating
-- system is one step, and the agents take turns in any order. `is_temp` tells the names that
-- `NamedTemporaryFile` makes.
pub mod Moves
pub mod Laws
use enterprise_angular_nest.Base.{
  Bool, true, false, String, ◌==◌, Option, none, some, List, [], ◌∷◌, ◌++◌, ◌≡◌,
}
use enterprise_angular_nest.Base.Dict.{has, insert, lookup, remove}
use enterprise_angular_nest.Design.Persist.{Files}

-- Before the temporary file; with it, written; after the attempt to link it, with what came of that; and
-- after it is removed.
pub data Phase : Type 0 where
  starting : Phase
  written : String → Phase
  linked : String → Bool → Phase
  finished : Bool → Phase

pub record Agent : Type 0 where
  pub path : String
  pub content : String
  pub phase : Phase

pub record World : Type 0 where
  pub files : Files
  pub agents : List Agent

abbrev pub at : Agent → Phase → Agent
at a phase = record a { phase = phase }

module _ (is_temp : String → Bool) where
  -- one call of one agent: what it does to the agent and to the files
  pub data Call (a : Agent) (files : Files) : Agent → Files → Type 0 where
    -- the temporary file gets a new name, and the content
    write :
        (temp : String)
        → a.phase ≡ starting
        → is_temp temp ≡ true
        → lookup temp files ≡ none
        → Call a files (at a (written temp)) (insert temp a.content files)
    -- `os.link` where the path is free, and where it is taken
    link :
        (temp : String)
        → a.phase ≡ written temp
        → has a.path files ≡ false
        → Call a files (at a (linked temp true)) (insert a.path a.content files)
    refuse :
        (temp : String)
        → a.phase ≡ written temp
        → has a.path files ≡ true
        → Call a files (at a (linked temp false)) files
    -- `os.unlink`
    unlink :
        (temp : String) (won : Bool)
        → a.phase ≡ linked temp won
        → Call a files (at a (finished won)) (remove temp files)

  -- one of the agents makes a call
  pub data Step : World → World → Type 0 where
    turn :
        (before after : List Agent) (a b : Agent) (files files2 : Files)
        → Call a files b files2
        → Step
            (record { files = files; agents = before ++ (a ∷ after) })
            (record { files = files2; agents = before ++ (b ∷ after) })

  pub data Steps (s : World) : World → Type 0 where
    stop : Steps s s
    step : {t r : World} → Steps s t → Step t r → Steps s r

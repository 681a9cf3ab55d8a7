-- ===== src/Installer/Laws.antt =====
-- The dry run of the installer.
use enterprise_angular_nest.Base.{
  Bool, true, false, String, Option, none, some, List, [], ◌∷◌, ◌++◌, filter, ◌≡◌, refl, Bool-cases,
  inl, inr,
}
use enterprise_angular_nest.Base.Text.{Unicode, contains}
use enterprise_angular_nest.Installer.{
  Project, Run, Message, would_run, Answer, overwrite_flag, with_version, unless_installed,
  check_shadcn_config, get_installed_components, get_shadcn_version, add_components,
}

-- the command that an answer announces
abbrev pub announced_by : Option (Bool × Message) → List (List String)
announced_by none = []
announced_by (some (ok, would_run cmd)) = cmd ∷ []
announced_by (some (ok, _)) = []

-- A dry run runs nothing and announces what the other run runs.
pub record IsRehearsal (dry real : Answer) : Type 0 where
  pub runs_nothing : dry.1 ≡ []
  pub announces : announced_by dry.0 ≡ real.1

module _ (u : Unicode) (npx : List String → Run) where
  version-IsRehearsal :
      (names arguments : List String) (version : Option String)
      → IsRehearsal
          (with_version u npx true names arguments version)
          (with_version u npx false names arguments version)
  version-IsRehearsal names arguments none = record { runs_nothing = refl; announces = refl }
  version-IsRehearsal names arguments (some v) = record { runs_nothing = refl; announces = refl }

  installed-IsRehearsal :
      (overwrite : Bool) (p : Project) (names present : List String)
      → IsRehearsal
          (unless_installed u npx true overwrite p names present)
          (unless_installed u npx false overwrite p names present)
  installed-IsRehearsal overwrite p names [] =
      version-IsRehearsal names (names ++ overwrite_flag overwrite) (get_shadcn_version u p)
  installed-IsRehearsal true p names (c ∷ present) =
      version-IsRehearsal names (names ++ overwrite_flag true) (get_shadcn_version u p)
  installed-IsRehearsal false p names (c ∷ present) = record {
    runs_nothing = refl;
    announces = refl;
  }

  -- On every project, request and behaviour of npx, the dry run of `add_components` runs no command and
  -- announces exactly the commands that the same request runs without it.
  pub add_components-IsRehearsal :
      (overwrite : Bool) (p : Project) (names : List String)
      → IsRehearsal
          (add_components u npx true overwrite p names)
          (add_components u npx false overwrite p names)
  unfolding add_components
  add_components-IsRehearsal overwrite p [] = record { runs_nothing = refl; announces = refl }
  add_components-IsRehearsal overwrite p (name ∷ names) =
      elim (Bool-cases (check_shadcn_config p)) [
        | inl e ↦ rw e (
            installed-IsRehearsal overwrite p (name ∷ names)
              (filter (λ c. contains (get_installed_components p) c) (name ∷ names)))
        | inr e ↦ rw e (record { runs_nothing = refl; announces = refl })
      ]

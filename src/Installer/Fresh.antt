-- ===== src/Installer/Fresh.antt =====
-- What the installer adds without `overwrite`, and when it refuses.
use enterprise_angular_nest.Base.{
  ◌∙◌, sym, Bool, true, false, String, Option, none, some, List, [], ◌∷◌, ◌++◌, ◌<>◌, filter, ◌≡◌,
  refl, All, Bool-cases, inl, inr, arith, ap,
}
use enterprise_angular_nest.Base.Text.{Unicode, contains, remove_pair}
use enterprise_angular_nest.Installer.{
  Project, Run, with_version, unless_installed, check_shadcn_config, get_installed_components,
  get_shadcn_version, add_components, config_alias, installed_under, alias_or_default, listed,
  already_installed, Answer,
}

-- the names of the component files in the directory that components.json gives
abbrev pub files_under : Project → Option String → List String
files_under p alias =
    listed (p.components_in (remove_pair b'@' b'/' (alias_or_default alias) <> "/ui"))

-- The commands that add components: none in a dry run, for no components, or where the version of
-- shadcn cannot be read, and else one, with exactly the named components and that version.
abbrev pub runs_of : Bool → List String → Option String → List (List String)
runs_of dry_run [] version = []
runs_of true (name ∷ names) version = []
runs_of false (name ∷ names) none = []
runs_of false (name ∷ names) (some version) =
    ("npx" ∷ ("shadcn@" <> version) ∷ "add" ∷ name ∷ (names ++ [])) ∷ []

-- What an answer without `overwrite` is, where these components are installed.
pub data IsGuarded (u : Unicode) (dry_run : Bool) (p : Project) (names installed : List String)
    : Answer → Type 0 where
  adds :
      {answer : Answer}
      → All (λ name. contains installed name ≡ false) names
      → answer.1 ≡ runs_of dry_run names (get_shadcn_version u p)
      → IsGuarded u dry_run p names installed answer
  refuses :
      {name : String} {present : List String}
      → filter (λ c. contains installed c) names ≡ name ∷ present
      → IsGuarded u dry_run p names installed (some (false, already_installed (name ∷ present)), [])

skip :
    (test : String → Bool) (name : String) (names : List String)
    → test name ≡ false
    → filter test (name ∷ names) ≡ filter test names
skip test name names e = rw e refl

none_left :
    (test : String → Bool) (names : List String)
    → filter test names ≡ []
    → All (λ name. test name ≡ false) names
none_left test [] h = tt
none_left test (name ∷ names) h = elim (Bool-cases (test name)) [
  | inl e ↦ ground (arith, e, h)
  | inr e ↦ (e, none_left test names (sym (skip test name names e) ∙ h))
]

installed-lem :
    (p : Project) (alias : Option String)
    → p.components_json ≡ config_alias alias
    → get_installed_components p ≡ files_under p alias
unfolding get_installed_components
installed-lem p alias config = ap (installed_under p) config

configured :
    (p : Project) (alias : Option String)
    → p.components_json ≡ config_alias alias
    → check_shadcn_config p ≡ true
configured p alias h = rw h refl

module _ (u : Unicode) (npx : List String → Run) where
  version-runs :
      (dry_run : Bool) (name : String) (names : List String) (version : Option String)
      → (with_version u npx dry_run (name ∷ names) ((name ∷ names) ++ []) version).1
        ≡ runs_of dry_run (name ∷ names) version
  version-runs true name names none = refl
  version-runs true name names (some v) = refl
  version-runs false name names none = refl
  version-runs false name names (some v) = refl

  present-IsGuarded :
      (dry_run : Bool) (p : Project) (name : String) (names installed present : List String)
      → filter (λ c. contains installed c) (name ∷ names) ≡ present
      → IsGuarded u dry_run p
          (name ∷ names)
          installed
          (unless_installed u npx dry_run false p (name ∷ names) present)
  present-IsGuarded dry_run p name names installed [] e =
      adds (none_left (λ c. contains installed c) (name ∷ names) e)
        (version-runs dry_run name names (get_shadcn_version u p))
  present-IsGuarded dry_run p name names installed (c ∷ present) e = refuses e

  ready-IsGuarded :
      (dry_run : Bool) (p : Project) (names : List String)
      → check_shadcn_config p ≡ true
      → IsGuarded u dry_run p names
          (get_installed_components p)
          (add_components u npx dry_run false p names)
  unfolding add_components
  ready-IsGuarded dry_run p [] ready = adds tt refl
  ready-IsGuarded dry_run p (name ∷ names) ready = rw ready (
      present-IsGuarded dry_run p name names (get_installed_components p)
        (filter (λ c. contains (get_installed_components p) c) (name ∷ names)) refl)

  -- In a project with a readable components.json, `add_components` without `overwrite` does one of two
  -- things. If none of the named components has a file in the directory that components.json gives, it
  -- runs one command, which adds exactly these components by the project's version of shadcn, or none in
  -- a dry run, for no components, or without such a version. If some have a file there, it runs nothing
  -- and lists exactly those.
  pub add_components-IsGuarded :
      (dry_run : Bool) (p : Project) (names : List String) (alias : Option String)
      → p.components_json ≡ config_alias alias
      → IsGuarded u dry_run p names
          (files_under p alias)
          (add_components u npx dry_run false p names)
  add_components-IsGuarded dry_run p names alias config =
      rw (← installed-lem p alias config)
        (ready-IsGuarded dry_run p names (configured p alias config))

-- ===== src/Installer.antt =====
-- The component installer (apps/web/.agents/skills/ui-styling/scripts/shadcn_add.py): the class
-- `ShadcnInstaller` over the files of the project it reads, which are given. `npx` is a parameter, and
-- the commands that have been run are the state.
pub mod Laws
pub mod Fresh
pub mod Examples
use Prim.Native.Char.{Char, code}
use text.Mathlib.Text.{◌==◌}
use enterprise_angular_nest.Base.{
  Bool, true, false, String, Option, none, some, List, [], ◌∷◌, ◌++◌, ◌<>◌, filter, eqb, ◌||◌, ◌&&◌,
  if◌then◌else◌,
}
use enterprise_angular_nest.Base.Text.{Unicode, contains, split, strip_left, remove_pair}

-- components.json: missing, not readable as JSON, or with the alias of the components directory
pub data ConfigFile : Type 0 where
  config_absent config_malformed : ConfigFile
  config_alias : Option String → ConfigFile

-- package.json: missing, not readable as JSON, or with the versions of shadcn in the two sections
pub data PackageFile : Type 0 where
  package_absent package_malformed : PackageFile
  package_versions : Option String → Option String → PackageFile

-- the project: its two files, and the stems of the component files of a directory, if it exists
pub record Project : Type 0 where
  pub components_json : ConfigFile
  pub package_json : PackageFile
  pub components_in : String → Option (List String)

abbrev pub check_shadcn_config : Project → Bool
check_shadcn_config p = elim p.components_json [
  | config_absent ↦ false
  | config_malformed ↦ true
  | config_alias alias ↦ true
]

abbrev pub listed : Option (List String) → List String
listed none = []
listed (some names) = names

abbrev pub alias_or_default : Option String → String
alias_or_default none = "components"
alias_or_default (some alias) = alias

abbrev pub installed_under : Project → ConfigFile → List String
installed_under p config_absent = []
installed_under p config_malformed = []
installed_under p (config_alias alias) =
    listed (p.components_in (remove_pair b'@' b'/' (alias_or_default alias) <> "/ui"))

unfoldable pub get_installed_components : Project → List String
get_installed_components p = installed_under p p.components_json

-- `version.lstrip("^~>=<").split()[0]`; `none` is the `IndexError` of a text without a word
abbrev pub is_range_char : Char → Bool
is_range_char c =
    eqb (code c) b'^'
    || eqb (code c) b'~'
    || eqb (code c) b'>'
    || eqb (code c) b'='
    || eqb (code c) b'<'

abbrev pub first_word : List String → Option String
first_word [] = none
first_word (word ∷ words) = some word

abbrev pub plain_version : Unicode → String → Option String
plain_version u version = first_word (split u.is_space (strip_left is_range_char version))

abbrev pub pick_version : Unicode → List (Option String) → Option String
pick_version u [] = some "2.3.0"
pick_version u (none ∷ rest) = pick_version u rest
pick_version u (some version ∷ rest) =
    let later = pick_version u rest in if version == "" then later else plain_version u version

abbrev pub version_in : Unicode → PackageFile → Option String
version_in u package_absent = some "2.3.0"
version_in u package_malformed = some "2.3.0"
version_in u (package_versions dependencies dev_dependencies) =
    pick_version u (dependencies ∷ dev_dependencies ∷ [])

-- `_get_shadcn_version`
unfoldable pub get_shadcn_version : Unicode → Project → Option String
unfolding split
get_shadcn_version u p = version_in u p.package_json

-- what `subprocess.run` does: it returns with an output, raises `CalledProcessError` with a text, or
-- finds no `npx`
pub data Run : Type 0 where
  completed called_process_error : String → Run
  file_not_found : Run

-- the messages, with what they tell
pub data Message : Type 0 where
  no_components not_initialized npx_not_found : Message
  already_installed : List String → Message
  would_run : List String → Message
  added : List String → String → Message
  failed_to_add : String → Message

-- the answer (`none` is an exception) and the commands that were run
abbrev pub Answer : Type 0
Answer = Option (Bool × Message) × List (List String)

abbrev pub overwrite_flag : Bool → List String
overwrite_flag true = "--overwrite" ∷ []
overwrite_flag false = []

module _ (u : Unicode) (npx : List String → Run) where
  abbrev pub report : List String → Run → Bool × Message
  report names (completed output) = (true, added names output)
  report names (called_process_error text) = (false, failed_to_add text)
  report names file_not_found = (false, npx_not_found)

  abbrev pub run_command : Bool → List String → List String → Answer
  run_command true names cmd = (some (true, would_run cmd), [])
  run_command false names cmd = (some (report names (npx cmd)), cmd ∷ [])

  abbrev pub with_version : Bool → List String → List String → Option String → Answer
  with_version dry_run names arguments none = (none, [])
  with_version dry_run names arguments (some version) =
      run_command dry_run names ("npx" ∷ ("shadcn@" <> version) ∷ "add" ∷ arguments)

  abbrev pub unless_installed : Bool → Bool → Project → List String → List String → Answer
  unless_installed dry_run overwrite p names [] =
      with_version dry_run names (names ++ overwrite_flag overwrite) (get_shadcn_version u p)
  unless_installed dry_run overwrite p names (name ∷ more) =
      if overwrite
      then with_version dry_run names (names ++ overwrite_flag overwrite) (get_shadcn_version u p)
      else (some (false, already_installed (name ∷ more)), [])

  -- `add_components`
  unfoldable pub add_components : Bool → Bool → Project → List String → Answer
  unfolding get_installed_components get_shadcn_version
  add_components dry_run overwrite p [] = (some (false, no_components), [])
  add_components dry_run overwrite p (name ∷ names) =
      if check_shadcn_config p
      then unless_installed dry_run overwrite p (name ∷ names)
          (filter (λ c. contains (get_installed_components p) c) (name ∷ names))
      else (some (false, not_initialized), [])

  -- `add_all_components`
  unfoldable pub add_all_components : Bool → Bool → Project → Answer
  unfolding get_shadcn_version
  add_all_components dry_run overwrite p =
      if check_shadcn_config p
      then with_version dry_run [] ("--all" ∷ overwrite_flag overwrite) (get_shadcn_version u p)
      else (some (false, not_initialized), [])

-- ===== src/Tailwind/CommandLine.antt =====
-- `validate_config` and `main` of the generator, from the parsed arguments on.
pub mod Laws
use enterprise_angular_nest.Tailwind.Plugins.{Formatted, formatted, invalid_plugin, format_plugins}
use enterprise_angular_nest.Base.{
  not, Bool, true, false, String, Option, none, some, List, [], ◌∷◌, map, eqb, ◌||◌, if◌then◌else◌,
}
use Prim.Native.Char.{Char, code}
use enterprise_angular_nest.Base.Dict.{Dict, insert}
use enterprise_angular_nest.Base.Text.{Unicode, strip, split_on}
use enterprise_angular_nest.Reasoning.Grammar.{split_colon}
use enterprise_angular_nest.Tailwind.Generator.{
  Generator, Written, add_plugins, Extend, new_generator, add_section, recommend_plugins,
  add_breakpoints, add_spacing, add_fonts, add_colors, write_config, config_text, Outcome,
}

-- the parsed arguments; a list that is not given is empty
pub record Arguments : Type 0 where
  pub framework : String
  pub js : Bool
  pub output : Option String
  pub colors : List String
  pub fonts : List String
  pub spacing : List String
  pub breakpoints : List String
  pub plugins : Bool
  pub validate_only : Bool
  pub force : Bool

-- how `main` ends: an argument without a colon, an invalid configuration, the configuration shown, the
-- `ValueError` of a plugin, or the answer of `write_config`
pub data Exit : Type 0 where
  invalid_spec : String → Exit
  validation_failed : Exit
  shown raised : String → Exit
  ended : Written → Exit

-- `validate_config`, without the warning about a theme that is not extended
abbrev pub validate_config : Generator → Bool
validate_config g = elim g.content [ [] ↦ false | path ∷ paths ↦ true ]

-- the specs as a dictionary, or the first that has no colon
pub data Specs (V : Type 0) : Type 0 where
  specs : Dict V → Specs V
  no_colon : String → Specs V

abbrev pub read_specs : {V : Type 0} → (String → V) → Dict V → List String → Specs V
read_specs value d [] = specs d
read_specs value d (spec ∷ rest) = elim (split_colon spec) [
  | none ↦ no_colon spec
  | some p ↦ read_specs value (insert p.0 (value p.1) d) rest
]

abbrev pub is_quote : Char → Bool
is_quote c = eqb (code c) b'\'' || eqb (code c) b'"'

-- `[f.strip().strip("'\"") for f in family.split(",")]`
abbrev pub families_of : Unicode → String → List String
families_of u family = map (λ f. strip is_quote (strip u.is_space f)) (split_on "," family)

-- the generator so far, or the spec at which `main` exits
pub data Built : Type 0 where
  built : Generator → Built
  stopped : String → Built

abbrev pub extend_with :
    {V : Type 0} → (Dict V → Generator → Generator) → Generator → Specs V → Built
extend_with add g (specs d) = built (add d g)
extend_with add g (no_colon spec) = stopped spec

-- One option: nothing happens where it is not given.
abbrev pub add_option :
    {V : Type 0} → (String → V) → (Dict V → Generator → Generator) → List String → Built → Built
add_option value add given (stopped spec) = stopped spec
add_option value add [] (built g) = built g
add_option value add (spec ∷ rest) (built g) = extend_with add g (read_specs value [] (spec ∷ rest))

abbrev pub as_given : String → String
as_given value = value

-- the generator that `main` builds before the plugins
unfoldable pub build : Unicode → Arguments → Built
unfolding new_generator add_section strip split_on
build u a = add_option as_given add_breakpoints a.breakpoints (
    add_option as_given add_spacing a.spacing (
      add_option (families_of u) add_fonts a.fonts (
        add_option as_given add_colors a.colors
          (built (new_generator (not a.js) a.framework a.output a.force)))))

abbrev pub with_plugins : Bool → Generator → Generator
with_plugins true g = add_plugins (recommend_plugins g) g
with_plugins false g = g

module _ (dumps : List String → Extend → String) (outcome : Outcome) where
  abbrev pub show : Generator → Formatted → Exit
  show g (formatted requires) = shown (config_text dumps outcome g requires)
  show g (invalid_plugin plugin) = raised plugin

  abbrev pub end_write : Written × Dict String → Exit × Dict String
  end_write (answer, files) = (ended answer, files)

  abbrev pub conclude : Bool → Generator → Dict String → Exit × Dict String
  conclude validate_only g files =
      if validate_config g
      then (if validate_only
          then (show g (format_plugins g.plugins), files)
          else end_write (write_config dumps outcome g files))
      else (validation_failed, files)

  abbrev pub run_built : Arguments → Dict String → Built → Exit × Dict String
  run_built a files (stopped spec) = (invalid_spec spec, files)
  run_built a files (built g) = conclude a.validate_only (with_plugins a.plugins g) files

  -- `main`
  unfoldable pub main : Unicode → Arguments → Dict String → Exit × Dict String
  unfolding build add_plugins recommend_plugins format_plugins write_config
  main u a files = run_built a files (build u a)

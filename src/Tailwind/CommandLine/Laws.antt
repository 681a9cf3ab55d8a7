-- ===== src/Tailwind/CommandLine/Laws.antt =====
-- The command line never ends in the exception of an invalid plugin.
use text.Mathlib.Text.{◌==◌}
use enterprise_angular_nest.Base.{
  not, Bool, true, false, String, List, [], ◌∷◌, ◌≡◌, refl, ap, ◌∙◌, if◌then◌else◌,
}
use enterprise_angular_nest.Base.Dict.{Dict}
use enterprise_angular_nest.Base.Text.{Unicode}
use enterprise_angular_nest.Base.Distinct.{append_all}
use enterprise_angular_nest.Tailwind.Plugins.{formatted, format_plugins, is_plugin_name}
use enterprise_angular_nest.Tailwind.Generator.{
  Outcome, saved, not_opened, cut_off, Extend, Generator, already_exists, bad_plugin, new_generator,
  add_section, add_plugins, recommend_plugins, write_config, existing_paths, unless_existing,
  put_text, add_colors, add_fonts, add_spacing, add_breakpoints, not_opened, cut_off,
}
use enterprise_angular_nest.Tailwind.CommandLine.{
  Arguments, Exit, validation_failed, raised, ended, Built, built, stopped, Specs, specs, no_colon,
  extend_with, add_option, read_specs, families_of, as_given, build, with_plugins, show, end_write,
  conclude, run_built, main, validate_config, Outcome,
}

-- `main` ends in the `ValueError` of a plugin's name
abbrev pub is_raise : Exit → Bool
is_raise (raised plugin) = true
is_raise (ended (bad_plugin plugin)) = true
is_raise (ended answer) = false
is_raise exit = false

abbrev NoPlugins : Built → Type 0
NoPlugins (built g) = g.plugins ≡ []
NoPlugins (stopped spec) = Unit

extend-NoPlugins :
    {V : Type 0} (add : Dict V → Generator → Generator) (g : Generator) (s : Specs V)
    → ((d : Dict V) → (add d g).plugins ≡ g.plugins)
    → g.plugins ≡ []
    → NoPlugins (extend_with add g s)
extend-NoPlugins add g (specs d) keeps h = keeps d ∙ h
extend-NoPlugins add g (no_colon spec) keeps h = tt

option-NoPlugins :
    {V : Type 0} (value : String → V) (add : Dict V → Generator → Generator) (given : List String)
    (b : Built)
    → ((d : Dict V) (g : Generator) → (add d g).plugins ≡ g.plugins)
    → NoPlugins b
    → NoPlugins (add_option value add given b)
option-NoPlugins value add [] (built g) keeps h = h
option-NoPlugins value add [] (stopped spec) keeps h = tt
option-NoPlugins value add (spec ∷ rest) (stopped s) keeps h = tt
option-NoPlugins value add (spec ∷ rest) (built g) keeps h =
    extend-NoPlugins add g (read_specs value [] (spec ∷ rest)) (λ d. keeps d g) h

build-NoPlugins : (u : Unicode) (a : Arguments) → NoPlugins (build u a)
unfolding build add_section new_generator
build-NoPlugins u a =
    option-NoPlugins as_given add_breakpoints a.breakpoints _ (λ d g. refl)
      (option-NoPlugins as_given add_spacing a.spacing _ (λ d g. refl)
        (option-NoPlugins (families_of u) add_fonts a.fonts _ (λ d g. refl)
          (option-NoPlugins as_given add_colors a.colors
            (built (new_generator (not a.js) a.framework a.output a.force)) (λ d g. refl) refl)))

-- what is recommended is valid
recommended-valid :
    (nextjs : Bool)
    → (requires : List String) × (format_plugins (
          append_all [] (
            if nextjs
            then "tailwindcss-animate" ∷ "@tailwindcss/typography" ∷ []
            else "tailwindcss-animate" ∷ []))
        ≡ formatted requires)
unfolding format_plugins is_plugin_name
recommended-valid true =
    ("require('tailwindcss-animate')" ∷ "require('@tailwindcss/typography')" ∷ [], refl)
recommended-valid false = ("require('tailwindcss-animate')" ∷ [], refl)

with_plugins-valid :
    (wanted : Bool) (g : Generator)
    → g.plugins ≡ []
    → (requires : List String) × (format_plugins (with_plugins wanted g).plugins
        ≡ formatted requires)
unfolding add_plugins recommend_plugins format_plugins
with_plugins-valid false g h = ([], ap format_plugins h)
with_plugins-valid true g h =
    let valid = recommended-valid (g.framework == "nextjs") in
    (valid.0, ap (λ plugins. format_plugins (append_all plugins (recommend_plugins g))) h ∙ valid.1)

module _ (dumps : List String → Extend → String) (outcome : Outcome) where
  put-no_raise :
      (g : Generator) (files : Dict String) (requires : List String) (o : Outcome)
      → is_raise (end_write dumps outcome (put_text dumps outcome g files (formatted requires) o)).0
        ≡ false
  put-no_raise g files requires saved = refl
  put-no_raise g files requires (not_opened error) = refl
  put-no_raise g files requires (cut_off error left) = refl

  existing-no_raise :
      (g : Generator) (files : Dict String) (requires : List String) (paths : List String)
      → format_plugins g.plugins ≡ formatted requires
      → is_raise (end_write dumps outcome (unless_existing dumps outcome g files paths)).0 ≡ false
  existing-no_raise g files requires [] e =
      ap (λ f. is_raise (end_write dumps outcome (put_text dumps outcome g files f outcome)).0) e
      ∙ put-no_raise g files requires outcome
  existing-no_raise g files requires (path ∷ paths) e = by_force g.force
    where
      by_force :
          (force : Bool)
          → is_raise
              (end_write dumps outcome (
                if force
                then put_text dumps outcome g files (format_plugins g.plugins) outcome
                else (already_exists (path ∷ paths), files))).0
            ≡ false
      by_force true =
          ap (λ f. is_raise (end_write dumps outcome (put_text dumps outcome g files f outcome)).0)
            e
          ∙ put-no_raise g files requires outcome
      by_force false = refl

  conclude-no_raise :
      (validate_only : Bool) (g : Generator) (files : Dict String) (requires : List String)
      → format_plugins g.plugins ≡ formatted requires
      → is_raise (conclude dumps outcome validate_only g files).0 ≡ false
  unfolding write_config
  conclude-no_raise validate_only g files requires e = by_tests (validate_config g) validate_only
    where
      by_tests :
          (valid only : Bool)
          → is_raise
              (if valid
                then (if only
                    then (show dumps outcome g (format_plugins g.plugins), files)
                    else end_write dumps outcome (write_config dumps outcome g files))
                else (validation_failed, files)).0
            ≡ false
      by_tests false only = refl
      by_tests true true = ap (λ f. is_raise (show dumps outcome g f)) e
      by_tests true false = existing-no_raise g files requires (existing_paths files g) e

  run-no_raise :
      (a : Arguments) (files : Dict String) (b : Built)
      → NoPlugins b
      → is_raise (run_built dumps outcome a files b).0 ≡ false
  run-no_raise a files (stopped spec) h = refl
  run-no_raise a files (built g) h =
      let valid = with_plugins-valid a.plugins g h in
      conclude-no_raise a.validate_only (with_plugins a.plugins g) files valid.0 valid.1

  -- Whatever the arguments and the files, `main` never ends in the `ValueError` of an invalid plugin
  -- name.
  pub main-no_raise :
      (u : Unicode) (a : Arguments) (files : Dict String)
      → is_raise (main dumps outcome u a files).0 ≡ false
  unfolding main
  main-no_raise u a files = run-no_raise a files (build u a) (build-NoPlugins u a)

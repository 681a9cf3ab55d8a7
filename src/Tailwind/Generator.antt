-- ===== src/Tailwind/Generator.antt =====
-- The class `TailwindConfigGenerator`: its configuration, the operations that extend it, and
-- `write_config` over the files of the output directory. The text of the configuration without its
-- plugins is `json.dumps`, a parameter; how the write to the disk ends is given.

pub mod Laws
use text.Mathlib.Text.{◌==◌}
use enterprise_angular_nest.Base.{
  Bool, String, Option, none, some, List, [], ◌∷◌, ◌<>◌, if◌then◌else◌, filter,
}
use enterprise_angular_nest.Base.Dict
use enterprise_angular_nest.Base.Dict.{Dict, insert, has, update}
use enterprise_angular_nest.Base.Text.{contains, join}
use enterprise_angular_nest.Base.Distinct.{append_all}
use enterprise_angular_nest.Tailwind.Plugins.{Formatted, formatted, invalid_plugin, format_plugins}

-- what a theme extension holds under a name: a text, the shades of a palette, or font families
pub data Value : Type 0 where
  one_text : String → Value
  shades : Dict String → Value
  families : List String → Value

-- `self.config["theme"]["extend"]`: sections by name
abbrev pub Extend : Type 0
Extend = Dict (Dict Value)

pub record Generator : Type 0 where
  pub typescript : Bool
  pub framework : String
  pub output_name : String
  pub force : Bool
  pub content : List String
  pub extend : Extend
  pub plugins : List String

abbrev pub react_paths : List String
react_paths = "./src/**/*.{js,jsx,ts,tsx}" ∷ "./index.html" ∷ []

abbrev pub content_paths : Dict (List String)
content_paths =
    ("react", react_paths)
    ∷ ("vue", "./src/**/*.{vue,js,ts,jsx,tsx}" ∷ "./index.html" ∷ [])
    ∷ ("svelte", "./src/**/*.{svelte,js,ts}" ∷ "./src/app.html" ∷ [])
    ∷ (
      "nextjs",
      "./app/**/*.{js,ts,jsx,tsx}" ∷ "./pages/**/*.{js,ts,jsx,tsx}"
          ∷ "./components/**/*.{js,ts,jsx,tsx}" ∷ [],
    )
    ∷ []

-- `__init__`, with the file name that `_default_output_path` takes in the current directory
unfoldable pub new_generator : Bool → String → Option String → Bool → Generator
new_generator typescript framework output force = record {
  typescript = typescript;
  framework = framework;
  output_name = elim output [
    | none ↦ if typescript then "tailwind.config.ts" else "tailwind.config.js"
    | some name ↦ name
  ];
  force = force;
  content = Dict.get_or react_paths framework content_paths;
  extend = [];
  plugins = [];
}

-- The section is made where it is missing, and then updated.
unfoldable pub add_section : String → Dict Value → Generator → Generator
add_section section values g = record {
  typescript = g.typescript;
  framework = g.framework;
  output_name = g.output_name;
  force = g.force;
  content = g.content;
  extend = insert section (update (Dict.get_or [] section g.extend) values) g.extend;
  plugins = g.plugins;
}

abbrev texts : Dict String → Dict Value
texts [] = []
texts ((name, value) ∷ d) = (name, one_text value) ∷ texts d

abbrev family_lists : Dict (List String) → Dict Value
family_lists [] = []
family_lists ((name, names) ∷ d) = (name, families names) ∷ family_lists d

abbrev pub add_colors : Dict String → Generator → Generator
add_colors colors g = add_section "colors" (texts colors) g

abbrev shade_names : List String
shade_names =
    "50" ∷ "100" ∷ "200" ∷ "300" ∷ "400" ∷ "500" ∷ "600" ∷ "700" ∷ "800" ∷ "900" ∷ "950" ∷ []

abbrev shades_of : String → List String → Dict String
shades_of name [] = []
shades_of name (shade ∷ rest) =
    (shade, "var(--color-" <> (name <> ("-" <> (shade <> ")")))) ∷ shades_of name rest

abbrev pub add_color_palette : String → Generator → Generator
add_color_palette name g = add_section "colors" ((name, shades (shades_of name shade_names)) ∷ []) g

abbrev pub add_fonts : Dict (List String) → Generator → Generator
add_fonts fonts g = add_section "fontFamily" (family_lists fonts) g

abbrev pub add_spacing : Dict String → Generator → Generator
add_spacing spacing g = add_section "spacing" (texts spacing) g

abbrev pub add_breakpoints : Dict String → Generator → Generator
add_breakpoints breakpoints g = add_section "screens" (texts breakpoints) g

unfoldable pub add_plugins : List String → Generator → Generator
add_plugins plugins g = record {
  typescript = g.typescript;
  framework = g.framework;
  output_name = g.output_name;
  force = g.force;
  content = g.content;
  extend = g.extend;
  plugins = append_all g.plugins plugins;
}

unfoldable pub recommend_plugins : Generator → List String
recommend_plugins g =
    if g.framework == "nextjs"
    then "tailwindcss-animate" ∷ "@tailwindcss/typography" ∷ []
    else "tailwindcss-animate" ∷ []

abbrev pub config_names : List String
config_names =
    "tailwind.config.js" ∷ "tailwind.config.cjs" ∷ "tailwind.config.mjs" ∷ "tailwind.config.ts" ∷ []

-- What `write_config` returns or raises: the message's paths, and the error's text.
pub data Written : Type 0 where
  written : Written
  already_exists : List String → Written
  write_failed : String → Written
  bad_plugin : String → Written

-- the configuration files of the output directory that are in the way
abbrev pub existing_paths : Dict String → Generator → List String
existing_paths files g =
    if contains config_names g.output_name
    then filter (λ name. has name files) config_names
    else if has g.output_name files
    then g.output_name ∷ []
    else []

-- How `Path.write_text` ends: with the text in the file, with an `OSError` before the file is opened,
-- or with one after that. The file is emptied when it is opened, so what a failed write leaves in it is
-- given.
pub data Outcome : Type 0 where
  saved : Outcome
  not_opened : String → Outcome
  cut_off : String → String → Outcome

module _ (dumps : List String → Extend → String) (outcome : Outcome) where
  -- `generate_config_string`, with the plugins required; `dumps` gives the indented lines of the object
  abbrev pub config_text : Generator → List String → String
  config_text g requires =
      if g.typescript
      then "import type { Config } from 'tailwindcss'\n\nconst config: Config = {\n"
        <> (dumps g.content g.extend
            <> (",\n  plugins: [" <> (join ", " requires <> "],\n}\n\nexport default config\n")))
      else "/** @type {import('tailwindcss').Config} */\nmodule.exports = {\n"
        <> (dumps g.content g.extend <> (",\n  plugins: [" <> (join ", " requires <> "],\n}\n")))

  abbrev pub put_text : Generator → Dict String → Formatted → Outcome → Written × Dict String
  put_text g files (invalid_plugin plugin) _ = (bad_plugin plugin, files)
  put_text g files (formatted requires) saved =
      (written, insert g.output_name (config_text g requires) files)
  put_text g files (formatted requires) (not_opened error) = (write_failed error, files)
  put_text g files (formatted requires) (cut_off error left) =
      (write_failed error, insert g.output_name left files)

  abbrev pub unless_existing : Generator → Dict String → List String → Written × Dict String
  unless_existing g files [] = put_text g files (format_plugins g.plugins) outcome
  unless_existing g files (path ∷ paths) =
      if g.force
      then put_text g files (format_plugins g.plugins) outcome
      else (already_exists (path ∷ paths), files)

  -- `write_config`
  unfoldable pub write_config : Generator → Dict String → Written × Dict String
  unfolding format_plugins
  write_config g files = unless_existing g files (existing_paths files g)

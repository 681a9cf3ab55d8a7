-- ===== src/Tailwind/Examples.antt =====
-- Plugin names and writes of the generator.
use enterprise_angular_nest.Base.{false, true, none, String, List, [], ◌∷◌, ◌≡◌, refl, ◌<>◌}
use enterprise_angular_nest.Base.Dict.{Dict}
use enterprise_angular_nest.Tailwind.Plugins.{is_plugin_name, format_plugins}
use enterprise_angular_nest.Tailwind.Plugins.Laws.{
  is_package_line, is_plugin_name-Safe, is_plugin_name-newline,
}
use enterprise_angular_nest.Tailwind.Plugins.Format.{IsChecked, format_plugins-IsChecked}
use enterprise_angular_nest.Base.Ascii.{ascii}
use enterprise_angular_nest.Tailwind.CommandLine.{Arguments, main}
use enterprise_angular_nest.Tailwind.CommandLine.Laws.{is_raise, main-no_raise}
use enterprise_angular_nest.Tailwind.Generator.{
  Extend, Generator, new_generator, add_colors, add_plugins, saved,
}

scoped : is_plugin_name "@tailwindcss/typography" ≡ true
unfolding is_plugin_name
scoped = refl

two_slashes : is_plugin_name "a//b" ≡ false
unfolding is_plugin_name
two_slashes = refl

is_plugin_name-Safe_example : is_package_line "tailwindcss-animate" ≡ true
unfolding is_plugin_name
is_plugin_name-Safe_example = is_plugin_name-Safe "tailwindcss-animate" refl

is_plugin_name-newline_example : is_plugin_name ("forms" <> "\n") ≡ is_plugin_name "forms"
is_plugin_name-newline_example = is_plugin_name-newline "forms" refl

format_plugins-IsChecked_example :
    IsChecked ("forms" ∷ "x');" ∷ []) (format_plugins ("forms" ∷ "x');" ∷ []))
format_plugins-IsChecked_example = format_plugins-IsChecked ("forms" ∷ "x');" ∷ [])

abbrev dumps : List String → Extend → String
dumps content extend = "  \"darkMode\": []"

abbrev brand : Generator
brand =
    add_plugins ("tailwindcss-animate" ∷ [])
      (add_colors (("brand", "#3b82f6") ∷ []) (new_generator true "react" none false))

abbrev files : Dict String
files = ("tailwind.config.js", "old") ∷ []

abbrev arguments : Arguments
arguments = record {
  framework = "nextjs";
  js = false;
  output = none;
  colors = "brand:#3b82f6" ∷ [];
  fonts = "sans:Inter, serif" ∷ [];
  spacing = [];
  breakpoints = [];
  plugins = true;
  validate_only = false;
  force = true;
}

main-no_raise_example : is_raise (main dumps saved ascii arguments files).0 ≡ false
main-no_raise_example = main-no_raise dumps saved ascii arguments files

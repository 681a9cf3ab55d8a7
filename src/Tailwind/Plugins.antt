-- ===== src/Tailwind/Plugins.antt =====
-- The plugin names of the generator: `_VALID_PLUGIN_NAME`, `_format_plugins` and `add_plugins`.
pub mod Laws
pub mod Format
use Prim.Native.String.{[], ◌∷◌, ◌++◌ as ◌<>◌}
use Prim.Native.Char.{Char, code}
use mathlib.Core.List.{List}
use enterprise_angular_nest.Base.{
  Bool, true, false, String, Option, none, some, eqb, leb, ◌&&◌, ◌||◌, if◌then◌else◌,
}
use enterprise_angular_nest.Base.Text.{join}

-- `[a-zA-Z0-9_-]`
abbrev pub is_name_char : Char → Bool
is_name_char c =
    (leb b'a' (code c) && leb (code c) b'z')
    || (leb b'A' (code c) && leb (code c) b'Z')
    || (leb b'0' (code c) && leb (code c) b'9')
    || eqb (code c) b'_'
    || eqb (code c) b'-'

-- `[a-zA-Z0-9_.-]`
abbrev pub is_path_char : Char → Bool
is_path_char c = is_name_char c || eqb (code c) b'.'

-- Where the match of `_VALID_PLUGIN_NAME` stands: at the start, behind `@`, in the scope, behind the
-- scope's slash, in the name, behind a slash of the subpath, in the subpath, and behind a last newline,
-- before which `$` matches too.
pub data Place : Type 0 where
  start at_sign scope scope_slash name slash subpath newline : Place

abbrev pub when : Bool → Place → Option Place
when true place = some place
when false place = none

abbrev pub or_when : Bool → Place → Option Place → Option Place
or_when true place other = some place
or_when false place other = other

abbrev pub advance : Place → Char → Option Place
advance start c = or_when (is_name_char c) name (when (eqb (code c) b'@') at_sign)
advance at_sign c = when (is_name_char c) scope
advance scope c = or_when (is_name_char c) scope (when (eqb (code c) b'/') scope_slash)
advance scope_slash c = when (is_name_char c) name
advance name c =
    or_when (is_name_char c) name
      (or_when (eqb (code c) b'/') slash (when (eqb (code c) b'\n') newline))
advance slash c = when (is_path_char c) subpath
advance subpath c =
    or_when (is_path_char c) subpath
      (or_when (eqb (code c) b'/') slash (when (eqb (code c) b'\n') newline))
advance newline c = none

abbrev pub is_end : Place → Bool
is_end name = true
is_end subpath = true
is_end newline = true
is_end _ = false

abbrev pub matches_from : Option Place → String → Bool
matches_from none s = false
matches_from (some place) [] = is_end place
matches_from (some place) (c ∷ s) = matches_from (advance place c) s

-- `_VALID_PLUGIN_NAME.match(plugin)`
unfoldable pub is_plugin_name : String → Bool
is_plugin_name plugin = matches_from (some start) plugin

pub data Formatted : Type 0 where
  formatted : List String → Formatted
  -- the `ValueError`, with the plugin
  invalid_plugin : String → Formatted

abbrev pub add_require : String → Formatted → Formatted
add_require plugin (formatted requires) =
    formatted (List.◌∷◌ ("require('" <> (plugin <> "')")) requires)
add_require plugin (invalid_plugin other) = invalid_plugin other

-- the loop of `_format_plugins`, before the join
unfoldable pub format_plugins : List String → Formatted
unfolding is_plugin_name
format_plugins List.[] = formatted List.[]
format_plugins (List.◌∷◌ plugin plugins) =
    let rest = format_plugins plugins in
    if is_plugin_name plugin then add_require plugin rest else invalid_plugin plugin

-- `recommend_plugins`

-- ===== src/Tailwind/Plugins/Format.antt =====
-- What `_format_plugins` returns or raises.
use enterprise_angular_nest.Base.{
  true, false, String, List, [], ◌∷◌, ◌++◌, map, ◌≡◌, refl, All, Bool-cases, inl, inr, ◌<>◌, ap,
}
use enterprise_angular_nest.Tailwind.Plugins.{
  is_plugin_name, Formatted, formatted, invalid_plugin, add_require, format_plugins,
}

-- The plugins are all valid and all required, or the first that is not is named.
pub data IsChecked (plugins : List String) : Formatted → Type 0 where
  all_valid :
      All (λ p. is_plugin_name p ≡ true) plugins
      → IsChecked plugins (formatted (map (λ p. "require('" <> (p <> "')")) plugins))
  first_invalid :
      (before behind : List String) {plugin : String}
      → plugins ≡ before ++ (plugin ∷ behind)
      → All (λ p. is_plugin_name p ≡ true) before
      → is_plugin_name plugin ≡ false
      → IsChecked plugins (invalid_plugin plugin)

IsChecked-cons :
    (plugin : String) {plugins : List String} {answer : Formatted}
    → is_plugin_name plugin ≡ true
    → IsChecked plugins answer
    → IsChecked (plugin ∷ plugins) (add_require plugin answer)
IsChecked-cons plugin e (all_valid h) = all_valid (e, h)
IsChecked-cons plugin e (first_invalid before behind p h k) =
    first_invalid (plugin ∷ before) behind (ap (λ l. plugin ∷ l) p) (e, h) k

-- `_format_plugins` requires every plugin, in order, when all the names are valid, and otherwise raises
-- with the first name that is not.
pub format_plugins-IsChecked : (plugins : List String) → IsChecked plugins (format_plugins plugins)
unfolding format_plugins
format_plugins-IsChecked [] = all_valid tt
format_plugins-IsChecked (plugin ∷ plugins) = elim (Bool-cases (is_plugin_name plugin)) [
  | inl e ↦ rw e (IsChecked-cons plugin e (format_plugins-IsChecked plugins))
  | inr e ↦ rw e (first_invalid [] plugins refl tt e)
]

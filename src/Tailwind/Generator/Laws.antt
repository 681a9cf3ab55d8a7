-- ===== src/Tailwind/Generator/Laws.antt =====
-- What the generator keeps, and when it writes.

use enterprise_angular_nest.Base.{◌<>◌, true, false, String, List, [], ◌∷◌, ◌≡◌, All, map, ◌⊎◌}
use enterprise_angular_nest.Base.Dict.{Dict, insert}
use enterprise_angular_nest.Base.Text.{contains}
use enterprise_angular_nest.Tailwind.Plugins.{is_plugin_name}
use enterprise_angular_nest.Tailwind.Generator.{
  Extend, Generator, Written, written, already_exists, write_failed, bad_plugin, existing_paths,
  config_text, Outcome, saved, not_opened, cut_off,
}

module _ (dumps : List String → Extend → String) (outcome : Outcome) where
  -- What `write_config` does to the files, for each answer.
  pub data IsWrite (g : Generator) (files : Dict String) : Written × Dict String → Type 0 where
    wrote :
        (g.force ≡ true) ⊎ (existing_paths files g ≡ [])
        → outcome ≡ saved
        → All (λ p. is_plugin_name p ≡ true) g.plugins
        → IsWrite g files (
          written,
          insert g.output_name
              (config_text dumps outcome g (map (λ p. "require('" <> (p <> "')")) g.plugins))
              files,
        )
    refused :
        {path : String} {paths : List String}
        → g.force ≡ false
        → existing_paths files g ≡ path ∷ paths
        → IsWrite g files (already_exists (path ∷ paths), files)
    failed :
        {error : String}
        → (g.force ≡ true) ⊎ (existing_paths files g ≡ [])
        → outcome ≡ not_opened error
        → All (λ p. is_plugin_name p ≡ true) g.plugins
        → IsWrite g files (write_failed error, files)
    broken :
        {error left : String}
        → (g.force ≡ true) ⊎ (existing_paths files g ≡ [])
        → outcome ≡ cut_off error left
        → All (λ p. is_plugin_name p ≡ true) g.plugins
        → IsWrite g files (write_failed error, insert g.output_name left files)
    invalid :
        {plugin : String}
        → contains g.plugins plugin ≡ true
        → is_plugin_name plugin ≡ false
        → IsWrite g files (bad_plugin plugin, files)

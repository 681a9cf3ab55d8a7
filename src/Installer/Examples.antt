-- ===== src/Installer/Examples.antt =====
-- The installer in a project with one component.
use enterprise_angular_nest.Base.{true, false, String, none, some, List, [], ◌∷◌, ◌≡◌, refl}
use enterprise_angular_nest.Base.Ascii.{ascii}
use enterprise_angular_nest.Base.Text.{split}
use enterprise_angular_nest.Installer.{
  Project, Run, completed, config_alias, package_versions, would_run, add_components,
  get_installed_components, get_shadcn_version,
}
use enterprise_angular_nest.Installer.Laws.{IsRehearsal, add_components-IsRehearsal}
use enterprise_angular_nest.Installer.Fresh.{IsGuarded, add_components-IsGuarded}

abbrev site : Project
site = record {
  components_json = config_alias (some "@/components");
  package_json = package_versions none (some "^2.1.0");
  components_in = λ directory. some ("button" ∷ []);
}

abbrev npx : List String → Run
npx cmd = completed "done"

dry :
    add_components ascii npx true false site ("card" ∷ [])
    ≡ (some (true, would_run ("npx" ∷ "shadcn@2.1.0" ∷ "add" ∷ "card" ∷ [])), [])
unfolding add_components get_installed_components get_shadcn_version split
dry = refl

add_components-IsRehearsal_example :
    IsRehearsal
      (add_components ascii npx true false site ("card" ∷ []))
      (add_components ascii npx false false site ("card" ∷ []))
add_components-IsRehearsal_example = add_components-IsRehearsal ascii npx false site ("card" ∷ [])

add_components-IsGuarded_example :
    IsGuarded ascii false site
      ("card" ∷ "button" ∷ [])
      ("button" ∷ [])
      (add_components ascii npx false false site ("card" ∷ "button" ∷ []))
add_components-IsGuarded_example =
    add_components-IsGuarded ascii npx false site ("card" ∷ "button" ∷ []) (some "@/components")
      refl

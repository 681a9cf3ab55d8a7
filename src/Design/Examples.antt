-- ===== src/Design/Examples.antt =====
-- The theorems of the design system at small examples.
use enterprise_angular_nest.Design.Dials.{natural, motion_tiers, resolve_dial}
use enterprise_angular_nest.Design.Dials.Laws.{
  IsNearest, IsPartition, IsResolved, resolve_dial-IsResolved,
}
use enterprise_angular_nest.Design.Generate.{DesignSystem, generate, category_of}
use enterprise_angular_nest.Design.Generate.Laws.{generate-Follows}
use enterprise_angular_nest.Design.Rules.{select_best_match}
use enterprise_angular_nest.Design.Rules.Laws.{IsAccepted, Follows}
use enterprise_angular_nest.Design.Pages.{Search, detect_page_type, generate_intelligent_overrides}
use enterprise_angular_nest.Reasoning.Parse.{Json, object, end, parse_decision_rules}
use enterprise_angular_nest.Base.{
  ℕ, suc, ◌+◌, ◌-◌, ◌<◌, true, false, Char, code, leb, String, ◌==◌, eq_iff, Option, none, some, [],
  ◌∷◌, ◌≡◌, refl, arith, ap, if◌then◌else◌, Bool-cases, inl, inr, ◌&&◌,
}
use enterprise_angular_nest.Base.Ascii.{ascii}
use enterprise_angular_nest.Base.Cents.{cents}
use enterprise_angular_nest.Base.Dict
use enterprise_angular_nest.Base.Dict.{Dict, lookup}
use enterprise_angular_nest.Base.Text.{Unicode, is_prefix, size}
use enterprise_angular_nest.Design.Colors.{is_dark_color, relative_luminance}
use enterprise_angular_nest.Design.Mode.{select_palette_for_mode}
use enterprise_angular_nest.Design.Mode.Laws.{IsSelected, select_palette-IsSelected}
use enterprise_angular_nest.Design.Persist.{Files, page_path, persist_design_system, project_dir}
use enterprise_angular_nest.Design.Persist.Laws.{IsPersisted, persist-IsPersisted}
use enterprise_angular_nest.Design.Persist.Write.{IsFreshName}
use enterprise_angular_nest.Design.Slug.{safe_slug}
use enterprise_angular_nest.Design.Slug.Laws.{IsSegment, safe_slug-IsSegment}
use enterprise_angular_nest.Design.Styles.{fold, resolve_style}
use enterprise_angular_nest.Design.Styles.Laws.{Resolves, resolve_style-Resolves}
use enterprise_angular_nest.Search.Rows.{Row}

-- texts that are in lower case already
abbrev lowered : Unicode
lowered = record ascii { lower = λ s. s }

page_slug : safe_slug lowered "page" "page" ≡ "page"
unfolding safe_slug
page_slug = refl

climbing_slug : safe_slug lowered "../etc/passwd" "page" ≡ "etc-passwd"
unfolding safe_slug
climbing_slug = refl

safe_slug-IsSegment_example :
    IsSegment (safe_slug lowered "../etc/passwd" "page")
    × (safe_slug lowered (safe_slug lowered "../etc/passwd" "page") "page"
        ≡ safe_slug lowered "../etc/passwd" "page")
safe_slug-IsSegment_example =
    safe_slug-IsSegment lowered "../etc/passwd" "page" (record { not_empty = refl; safe = refl })
      page_slug (λ s h. refl)

abbrev append : String → String → String
append String.[] t = t
append (String.◌∷◌ c s) t = String.◌∷◌ c (append s t)

size-append : (a b : String) → size (append a b) ≡ size a + size b
size-append String.[] b = omega arith
size-append (String.◌∷◌ c a) b = omega (arith, size-append a b)

-- all names of files, one behind the other
abbrev names : Files → String
names [] = ""
names ((name, text) ∷ files) = append name (names files)

abbrev temp_name : Files → String → String
temp_name files path = append "x" (append path (names files))

longer-temp_name :
    (files : Files) (path : String)
    → size (temp_name files path) ≡ suc (size path + size (names files))
longer-temp_name files path = ap suc (size-append path (names files))

longer_absent :
    (name : String) (files : Files) → size (names files) < size name → lookup name files ≡ none
longer_absent name [] h = refl
longer_absent name ((key, text) ∷ files) h = elim (Bool-cases (key == name)) [
  | inl e ↦
      absurd (omega (arith, h, size-append key (names files), ap size ((eq_iff key name).0 e)))
  | inr e ↦ rw e (longer_absent name files (omega (arith, h, size-append key (names files))))
]

temp_name-other : (files : Files) (path : String) → (temp_name files path == path) ≡ false
temp_name-other files path = elim (Bool-cases (temp_name files path == path)) [
  | inl e ↦ absurd (
      omega
        (arith, ap size ((eq_iff (temp_name files path) path).0 e), longer-temp_name files path))
  | inr e ↦ e
]

temp_name-IsFreshName : IsFreshName temp_name
temp_name-IsFreshName = record {
  absent = λ files path.
      longer_absent (temp_name files path) files (omega (arith, longer-temp_name files path));
  other = temp_name-other;
}

abbrev slash : String → String → String
slash dir name = append dir (String.◌∷◌ "/" name)

apart :
    (name : String)
    → (slash (project_dir lowered slash "/work" (some "") (some "shop")) "MASTER.md"
        == page_path lowered slash (project_dir lowered slash "/work" (some "") (some "shop")) name)
      ≡ false
unfolding safe_slug
apart name =
    let dir = project_dir lowered slash "/work" (some "") (some "shop") in
    elim (Bool-cases (slash dir "MASTER.md" == page_path lowered slash dir name)) [
      | inl e ↦ cc (
          ap (is_prefix "/work/design-system/shop/M")
            ((eq_iff (slash dir "MASTER.md") (page_path lowered slash dir name)).0 e))
      | inr e ↦ e
    ]

persist-IsPersisted_example :
    IsPersisted
      (slash (project_dir lowered slash "/work" (some "") (some "shop")) "MASTER.md")
      "new"
      "page"
      false
      (("README.md", "old") ∷ [])
      (persist_design_system lowered slash temp_name "/work"
        (some "shop")
        (some "home")
        (some "")
        "new"
        "page"
        false
        (("README.md", "old") ∷ []))
persist-IsPersisted_example =
    persist-IsPersisted lowered slash temp_name temp_name-IsFreshName "/work" (some "shop")
      (some "home") (some "") "new" "page" false (("README.md", "old") ∷ []) apart

abbrev glass : Row
glass = ("Style ID", "glass") ∷ ("Style Category", "Glassmorphism") ∷ []

abbrev aero : Row
aero = ("Style ID", "aero") ∷ ("Status", "deprecated") ∷ ("Parent Style ID", "glass") ∷ []

abbrev styles : Dict Row
styles = ("glass", glass) ∷ ("aero", aero) ∷ []

resolve_style-Resolves_example :
    Resolves ascii styles []
      (Dict.get_or [] (fold ascii " Aero ") styles)
      (resolve_style ascii styles " Aero ")
resolve_style-Resolves_example = resolve_style-Resolves ascii styles " Aero "

abbrev decimal : Char → Option ℕ
decimal c = if leb b'0' (code c) && leb (code c) b'9' then some (code c - b'0') else none

dark_enough : is_dark_color cents ascii decimal "#0F172A" ≡ true
unfolding relative_luminance
dark_enough = refl

abbrev paper : Row
paper = ("Product Type", "News") ∷ ("Background", "#FFFFFF") ∷ ("Primary", "#111111") ∷ []

select_palette-IsSelected_example :
    IsSelected cents ascii decimal paper
      (paper ∷ [])
      "dark"
      (some "News")
      (select_palette_for_mode cents ascii decimal (paper ∷ []) "dark" (some "News"))
select_palette-IsSelected_example =
    select_palette-IsSelected cents ascii decimal paper [] "dark" (some "News") dark_enough

motion-IsPartition : IsPartition 1 motion_tiers
motion-IsPartition = (refl, omega arith, (refl, omega arith, (refl, omega arith, omega arith)))

resolve_dial-IsResolved_example :
    (n : ℕ) × IsNearest (natural 15) n
    × IsResolved n motion_tiers (resolve_dial motion_tiers (some (natural 15)))
resolve_dial-IsResolved_example =
    resolve_dial-IsResolved motion_tiers (natural 15) motion-IsPartition

abbrev saas_rule : Row
saas_rule =
    ("UI_Category", "SaaS") ∷ ("Decision_Rules", "{}") ∷ ("Style_Priority", "Flat + Bento") ∷ []

abbrev no_rules : String → Option Json
no_rules raw = some (object end)

saas-IsAccepted : IsAccepted ascii no_rules saas_rule
unfolding parse_decision_rules
saas-IsAccepted = ([], refl)

abbrev shelf : Search
shelf query domain n = if domain == "product" then (("Product Type", "SaaS") ∷ []) ∷ [] else []

generate-Follows_example :
    (d : DesignSystem) × (generate cents ascii
        (λ s. s)
        decimal
        shelf
        (λ row. "")
        no_rules
        (saas_rule ∷ [])
        styles
        []
        "crm"
        none
        none
        (some (natural 9))
        none
      ≡ some d)
    × Follows ascii no_rules
        (saas_rule ∷ [])
        (category_of (shelf "crm" "product" 1))
        "crm"
        d.reasoning_default
        d.decision_rules
        d.activated_rules
        d.constraints
generate-Follows_example =
    generate-Follows cents ascii (λ s. s) decimal shelf (λ row. "") no_rules (saas_rule ∷ []) styles
      [] "crm" none none (some (natural 9)) none (saas-IsAccepted, tt)

dashboard_page : detect_page_type ascii "Admin page" [] ≡ "Dashboard / Data View"
unfolding detect_page_type
dashboard_page = refl

dense_page :
    (generate_intelligent_overrides ascii
      (λ query domain n. if domain == "style" then (("Keywords", "Grid, Data") ∷ []) ∷ [] else [])
      "reports"
      "").layout
    ≡ ("Max Width", "1400px or full-width") ∷ ("Grid", "12-column grid for data flexibility") ∷ []
unfolding generate_intelligent_overrides
dense_page = refl

live_parent : select_best_match ascii (λ row. "") styles (aero ∷ []) ("Aero" ∷ []) ≡ glass
unfolding select_best_match
live_parent = refl

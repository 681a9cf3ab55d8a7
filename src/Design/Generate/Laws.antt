-- ===== src/Design/Generate/Laws.antt =====
-- What a generated design system says of the reasoning rules.

use enterprise_angular_nest.Design.Dials.{
  Dial, resolve_dial, variance_tiers, motion_tiers, density_tiers,
}
use enterprise_angular_nest.Design.Generate.{multi_domain_search, effective_priority}
use enterprise_angular_nest.Design.Rules.{Reasoning}
use enterprise_angular_nest.Design.Generate
use enterprise_angular_nest.Design.Rules.Laws.{IsAccepted, Follows, apply_reasoning-Reasoned}
use enterprise_angular_nest.Base.{ℕ, Char, String, Option, some, List, ◌≡◌, refl, All}
use enterprise_angular_nest.Base.Dict.{Dict}
use enterprise_angular_nest.Base.Floats.{Floats}
use enterprise_angular_nest.Base.Text.{Unicode}
use enterprise_angular_nest.Reasoning.Parse.{Json}
use enterprise_angular_nest.Search.Rows.{Row}
use enterprise_angular_nest.Design.Dials.{Integer}
use enterprise_angular_nest.Design.Generate
use enterprise_angular_nest.Design.Generate.{DesignSystem, category_of, generate}
use enterprise_angular_nest.Design.Pages.{Search}
use enterprise_angular_nest.Design.Rules.{Reasoning}

module _ (F : Floats) (u : Unicode) (upper : String → String) (decimal : Char → Option ℕ)
    (search : Search) (row_text : Row → String) (loads : String → Option Json) (rules : List Row)
    (style_lookup landing_lookup : Dict Row) where
  with_reasoning-Follows :
      (query : String) (project : Option String) (variance : Option (Dial (List String)))
      (motion : Option (Dial String)) (density : Option (Dial (Dict String))) (o : Option Reasoning)
      (r : Reasoning)
      → o ≡ some r
      → Follows u loads rules
          (category_of (search query "product" 1))
          query
          r.is_default
          r.decision_rules
          r.activated_rules
          r.constraints
      → (d : DesignSystem) × (Generate.with_reasoning F u upper decimal search row_text loads rules
            style_lookup landing_lookup query project
            (search query "product" 1)
            variance
            motion
            density
            o
          ≡ some d)
        × Follows u loads rules
            (category_of (search query "product" 1))
            query
            d.reasoning_default
            d.decision_rules
            d.activated_rules
            d.constraints
  with_reasoning-Follows query project variance motion density o r e follows =
      let products = search query "product" 1 in
      (
        Generate.assemble F u upper decimal search row_text loads rules style_lookup landing_lookup
            query project products variance motion density r
            (multi_domain_search u search landing_lookup query (category_of products) r
              (effective_priority variance r.style_priority)),
        rw e refl,
        follows,
      )

  -- If the decision rules of every reasoning row are accepted, `generate` returns a design system for every
  -- query and setting of the dials, never a `ValueError`; and it has the decision rules of its
  -- category, with the activations and constraints that they specify, or says that it has none.
  pub generate-Follows :
      (query : String) (project : Option String) (variance motion density : Option Integer)
      → All (IsAccepted u loads) rules
      → (d : DesignSystem) × (generate F u upper decimal search row_text loads rules style_lookup
            landing_lookup query project variance motion density
          ≡ some d)
        × Follows u loads rules
            (category_of (search query "product" 1))
            query
            d.reasoning_default
            d.decision_rules
            d.activated_rules
            d.constraints
  unfolding generate
  generate-Follows query project variance motion density h =
      let (r, returns, follows) =
        apply_reasoning-Reasoned u loads style_lookup rules (category_of (search query "product" 1))
          query h in
      with_reasoning-Follows query project (resolve_dial variance_tiers variance)
        (resolve_dial motion_tiers motion) (resolve_dial density_tiers density) _ r returns follows

-- ===== src/Search/Stack/Names.antt =====
-- The names of cache variants, those of the stacks and those of the domains together.
use enterprise_angular_nest.Base.{
  Bool, true, false, String, ◌==◌, Option, none, List, ◌≡◌, refl, ◌∙◌, ◌≢◌, if◌then◌else◌,
}
use enterprise_angular_nest.Base.Text.{Unicode}
use enterprise_angular_nest.Search.Answers.{domain_filter, domain_variant}
use enterprise_angular_nest.Search.Rows.{Row, cell}
use enterprise_angular_nest.Search.Stack.{
  Versions, Generation, based, chosen, current_only, generation_of, legacy_only, legacy_unavailable,
  non_legacy, normal, requests_legacy, stack_row_filter, status_filter, variant,
}
use enterprise_angular_nest.Search.Stack.Laws.{
  AskedBase, aria, base, nothing, radix, requested_base-AskedBase, stack_row_filter-named,
  variant_filter,
}

-- a name that no domain uses
abbrev IsApart : String → Type 0
IsApart name = ((name == "") ≡ false) × ((name == "active-only") ≡ false)

module _ (u : Unicode) (v : Versions) where
  -- the filter that a name stands for
  abbrev pub named_filter : String → Row → Bool
  named_filter name row =
      if name == ""
      then true
      else if name == "active-only"
      then cell "active" "Status" row == "active"
      else variant_filter u v name row

  based-IsApart :
      (g : Generation) (asked : Option String)
      → g ≢ legacy_unavailable
      → AskedBase asked
      → IsApart (based u v g asked).1
  based-IsApart legacy_only asked h (nothing e) = (rw e, rw e)
  based-IsApart legacy_only asked h (base e) = (rw e, rw e)
  based-IsApart legacy_only asked h (aria e) = (rw e, rw e)
  based-IsApart legacy_only asked h (radix e) = (rw e, rw e)
  based-IsApart current_only asked h (nothing e) = (rw e, rw e)
  based-IsApart current_only asked h (base e) = (rw e, rw e)
  based-IsApart current_only asked h (aria e) = (rw e, rw e)
  based-IsApart current_only asked h (radix e) = (rw e, rw e)
  based-IsApart non_legacy asked h (nothing e) = (rw e, rw e)
  based-IsApart non_legacy asked h (base e) = (rw e, rw e)
  based-IsApart non_legacy asked h (aria e) = (rw e, rw e)
  based-IsApart non_legacy asked h (radix e) = (rw e, rw e)
  based-IsApart legacy_unavailable asked h a = absurd (h refl)

  either-IsApart :
      (g : Generation) (b : Bool) (asked : Option String)
      → g ≢ legacy_unavailable
      → AskedBase asked
      → IsApart (if b then based u v g asked else (status_filter g, variant g)).1
  either-IsApart g true asked h a = based-IsApart g asked h a
  either-IsApart g false asked h a = based-IsApart g none h (nothing refl)

  chosen-IsApart : (g : Generation) (query stack : String) → IsApart (chosen u v g query stack).1
  chosen-IsApart legacy_unavailable query stack = (refl, refl)
  chosen-IsApart legacy_only query stack =
      either-IsApart legacy_only (stack == "shadcn") _ (λ e. cc)
        (requested_base-AskedBase u v (normal u v query))
  chosen-IsApart current_only query stack =
      either-IsApart current_only (stack == "shadcn") _ (λ e. cc)
        (requested_base-AskedBase u v (normal u v query))
  chosen-IsApart non_legacy query stack =
      either-IsApart non_legacy (stack == "shadcn") _ (λ e. cc)
        (requested_base-AskedBase u v (normal u v query))

  stack_row_filter-IsApart :
      (rows : List Row) (query stack : String) → IsApart (stack_row_filter u v rows query stack).1
  unfolding stack_row_filter
  stack_row_filter-IsApart rows query stack =
      chosen-IsApart (generation_of (requests_legacy u v query stack) rows stack) query stack

  pub stack-named :
      (rows : List Row) (query stack : String) (row : Row)
      → (stack_row_filter u v rows query stack).0 row
        ≡ named_filter (stack_row_filter u v rows query stack).1 row
  stack-named rows query stack row =
      let apart = stack_row_filter-IsApart rows query stack in
      stack_row_filter-named u v rows query stack row ∙ rw (apart.0, apart.1)

  pub domain-named :
      (domain : String) (row : Row)
      → domain_filter domain row ≡ named_filter (domain_variant domain) row
  domain-named domain row = go (domain == "style")
    where
      go :
          (b : Bool)
          → (if b then cell "active" "Status" row == "active" else true)
            ≡ named_filter (if b then "active-only" else "") row
      go true = refl
      go false = refl

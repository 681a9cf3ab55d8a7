-- ===== src/Search/Stack/Laws.antt =====
-- One generation of guidance at a time: which rows a stack query may return.
use enterprise_angular_nest.Base.{
  sym, not-true, Bool, true, false, not, ◌&&◌, ◌||◌, String, ◌==◌, eq_iff, Option, none, some, List,
  ◌≡◌, refl, ◌∙◌, ◌≢◌, Bool-cases, and-parts, inl, inr, if◌then◌else◌, arith,
}
use enterprise_angular_nest.Base.Text.{Unicode, contains, has_sub}
use enterprise_angular_nest.Base.Dict.{has}
use enterprise_angular_nest.Search.Rows.{Row}
use enterprise_angular_nest.Search.Stack.{
  Versions, Generation, generation_of, legacy_only, legacy_unavailable, current_only, non_legacy,
  status, some_status, status_filter, variant, requested_base, row_bases, based, chosen,
  requests_legacy, normal, stack_row_filter, stack_current_versions,
}

pub data AskedBase (asked : Option String) : Type 0 where
  nothing : asked ≡ none → AskedBase asked
  base : asked ≡ some "base" → AskedBase asked
  aria : asked ≡ some "aria" → AskedBase asked
  radix : asked ≡ some "radix" → AskedBase asked

-- the choice of `generation_of`, from its four tests
abbrev select : Bool → Bool → Bool → Bool → Generation
select some_deprecated legacy known some_active =
    if some_deprecated && legacy
    then legacy_only
    else if legacy && known
    then legacy_unavailable
    else if some_active
    then current_only
    else non_legacy

active-current : (row : Row) → (status row == "active") ≡ true → status row ≢ "deprecated"
active-current row h q =
    let both : ◌≡◌ {A = String} "active" "deprecated" =
      sym ((eq_iff (status row) "active").0 h) ∙ q in
    cc ((eq_iff "active" "deprecated").1 both)

other-current : (row : Row) → not (status row == "deprecated") ≡ true → status row ≢ "deprecated"
other-current row h q =
    cc (not-true (status row == "deprecated") h, (eq_iff (status row) "deprecated").1 q)

-- a filter lets deprecated rows through, or other rows, never both
abbrev is_legacy : Generation → Bool
is_legacy legacy_only = true
is_legacy _ = false

kept-is_legacy :
    (g : Generation) (row : Row)
    → status_filter g row ≡ true
    → (status row == "deprecated") ≡ is_legacy g
kept-is_legacy legacy_only row h = h
kept-is_legacy legacy_unavailable row h = cc
kept-is_legacy current_only row h =
    ground (arith, active-current row h, eq_iff (status row) "deprecated")
kept-is_legacy non_legacy row h = not-true (status row == "deprecated") h

select-deprecated :
    (d legacy known a : Bool) (row : Row)
    → status_filter (select d legacy known a) row ≡ true
    → legacy ≡ true
    → d ≡ true
    → status row ≡ "deprecated"
select-deprecated true true known a row h p q = (eq_iff (status row) "deprecated").0 h
select-deprecated true false known a row h p q = cc
select-deprecated false legacy known a row h p q = cc

select-active :
    (d legacy known a : Bool) (row : Row)
    → status_filter (select d legacy known a) row ≡ true
    → legacy ≡ false
    → a ≡ true
    → status row ≡ "active"
select-active true false known true row h p q = (eq_iff (status row) "active").0 h
select-active false false known true row h p q = (eq_iff (status row) "active").0 h
select-active d true known a row h p q = cc
select-active d legacy known false row h p q = cc

select-status :
    (d legacy known a : Bool) (row : Row)
    → status_filter (select d legacy known a) row ≡ true
    → (legacy ≡ false → status row ≢ "deprecated")
      × (legacy ≡ true → known ≡ true → status row ≡ "deprecated")
select-status true true known a row h = (λ e q. cc, λ e k. (eq_iff (status row) "deprecated").0 h)
select-status false true true a row h = cc
select-status false true false a row h = (λ e q. cc, λ e k. cc)
select-status true false known true row h = (λ e. active-current row h, λ e k. cc)
select-status true false known false row h = (λ e. other-current row h, λ e k. cc)
select-status false false known true row h = (λ e. active-current row h, λ e k. cc)
select-status false false known false row h = (λ e. other-current row h, λ e k. cc)

module _ (u : Unicode) (v : Versions) where
  pub requested_base-AskedBase : (text : String) → AskedBase (requested_base u v text)
  unfolding requested_base
  requested_base-AskedBase text = elim (Bool-cases (has_sub "base ui" text)) [
    | inl e ↦ base (rw e)
    | inr e ↦ elim (Bool-cases (has_sub "react aria" text)) [
      | inl e2 ↦ aria (rw (e, e2))
      | inr e2 ↦ elim (Bool-cases (has_sub "radix" text || has_sub "aschild" text)) [
        | inl e3 ↦ radix (rw (e, e2, e3))
        | inr e3 ↦ nothing (rw (e, e2, e3))
      ]
    ]
  ]

  -- the filter that a cache variant names
  abbrev pub variant_filter : String → Row → Bool
  variant_filter name row =
      if name == "legacy-only"
      then status row == "deprecated"
      else if name == "current-only"
      then status row == "active"
      else if name == "non-legacy"
      then not (status row == "deprecated")
      else if name == "legacy-only;base=base"
      then (status row == "deprecated") && contains (row_bases u v row) "base"
      else if name == "legacy-only;base=aria"
      then (status row == "deprecated") && contains (row_bases u v row) "aria"
      else if name == "legacy-only;base=radix"
      then (status row == "deprecated") && contains (row_bases u v row) "radix"
      else if name == "current-only;base=base"
      then (status row == "active") && contains (row_bases u v row) "base"
      else if name == "current-only;base=aria"
      then (status row == "active") && contains (row_bases u v row) "aria"
      else if name == "current-only;base=radix"
      then (status row == "active") && contains (row_bases u v row) "radix"
      else if name == "non-legacy;base=base"
      then not (status row == "deprecated") && contains (row_bases u v row) "base"
      else if name == "non-legacy;base=aria"
      then not (status row == "deprecated") && contains (row_bases u v row) "aria"
      else if name == "non-legacy;base=radix"
      then not (status row == "deprecated") && contains (row_bases u v row) "radix"
      else false

  based-asked :
      (g : Generation) (asked : Option String) (row : Row)
      → g ≢ legacy_unavailable
      → AskedBase asked
      → (based u v g asked).0 row ≡ variant_filter (based u v g asked).1 row
  based-asked legacy_only asked row h (nothing e) = rw e
  based-asked legacy_only asked row h (base e) = rw e
  based-asked legacy_only asked row h (aria e) = rw e
  based-asked legacy_only asked row h (radix e) = rw e
  based-asked current_only asked row h (nothing e) = rw e
  based-asked current_only asked row h (base e) = rw e
  based-asked current_only asked row h (aria e) = rw e
  based-asked current_only asked row h (radix e) = rw e
  based-asked non_legacy asked row h (nothing e) = rw e
  based-asked non_legacy asked row h (base e) = rw e
  based-asked non_legacy asked row h (aria e) = rw e
  based-asked non_legacy asked row h (radix e) = rw e
  based-asked legacy_unavailable asked row h _ = absurd (h refl)

  either-named :
      (g : Generation) (b : Bool) (asked : Option String) (row : Row)
      → g ≢ legacy_unavailable
      → AskedBase asked
      → (if b then based u v g asked else (status_filter g, variant g)).0 row
        ≡ variant_filter (if b then based u v g asked else (status_filter g, variant g)).1 row
  either-named g true asked row h a = based-asked g asked row h a
  either-named g false asked row h a = based-asked g none row h (nothing refl)

  chosen-named :
      (g : Generation) (query stack : String) (row : Row)
      → (chosen u v g query stack).0 row ≡ variant_filter (chosen u v g query stack).1 row
  chosen-named legacy_unavailable query stack row = refl
  chosen-named legacy_only query stack row =
      either-named legacy_only (stack == "shadcn") _ row (λ e. cc)
        (requested_base-AskedBase (normal u v query))
  chosen-named current_only query stack row =
      either-named current_only (stack == "shadcn") _ row (λ e. cc)
        (requested_base-AskedBase (normal u v query))
  chosen-named non_legacy query stack row =
      either-named non_legacy (stack == "shadcn") _ row (λ e. cc)
        (requested_base-AskedBase (normal u v query))

  -- The filter is the one that the cache variant names: two queries with one variant keep the same
  -- rows, so the index that the cache holds under the variant serves both.
  pub stack_row_filter-named :
      (rows : List Row) (query stack : String) (row : Row)
      → (stack_row_filter u v rows query stack).0 row
        ≡ variant_filter (stack_row_filter u v rows query stack).1 row
  unfolding stack_row_filter
  stack_row_filter-named rows query stack row =
      chosen-named (generation_of (requests_legacy u v query stack) rows stack) query stack row

  based-status :
      (g : Generation) (asked : Option String) (row : Row)
      → (based u v g asked).0 row ≡ true
      → status_filter g row ≡ true
  based-status g none row h = h
  based-status g (some b) row h =
      (and-parts (status_filter g row) (contains (row_bases u v row) b) h).0

  either-status :
      (g : Generation) (b : Bool) (asked : Option String) (row : Row)
      → (if b then based u v g asked else (status_filter g, variant g)).0 row ≡ true
      → status_filter g row ≡ true
  either-status g true asked row h = based-status g asked row h
  either-status g false asked row h = h

  chosen-status :
      (g : Generation) (query stack : String) (row : Row)
      → (chosen u v g query stack).0 row ≡ true
      → status_filter g row ≡ true
  chosen-status legacy_unavailable query stack row h = h
  chosen-status legacy_only query stack row h =
      either-status legacy_only (stack == "shadcn") _ row h
  chosen-status current_only query stack row h =
      either-status current_only (stack == "shadcn") _ row h
  chosen-status non_legacy query stack row h = either-status non_legacy (stack == "shadcn") _ row h

  stack_row_filter-status :
      (rows : List Row) (query stack : String) (row : Row)
      → (stack_row_filter u v rows query stack).0 row ≡ true
      → status_filter (generation_of (requests_legacy u v query stack) rows stack) row ≡ true
  unfolding stack_row_filter
  stack_row_filter-status rows query stack row kept =
      chosen-status (generation_of (requests_legacy u v query stack) rows stack) query stack row
        kept

  -- Two rows that one stack query keeps are both deprecated or both not. A query that does not ask for
  -- a legacy framework keeps no deprecated row, and active rows only, where the table has an active
  -- row. One that asks for it keeps deprecated rows only, where the table has a deprecated row or the
  -- stack has a known current version.
  pub stack_row_filter-generation :
      (rows : List Row) (query stack : String) (row : Row)
      → (stack_row_filter u v rows query stack).0 row ≡ true
      → (requests_legacy u v query stack ≡ false → status row ≢ "deprecated")
        × (requests_legacy u v query stack ≡ true
            → has stack stack_current_versions ≡ true
            → status row ≡ "deprecated")
        × (requests_legacy u v query stack ≡ true
            → some_status "deprecated" rows ≡ true
            → status row ≡ "deprecated")
        × (requests_legacy u v query stack ≡ false
            → some_status "active" rows ≡ true
            → status row ≡ "active")
        × ((other : Row)
            → (stack_row_filter u v rows query stack).0 other ≡ true
            → (status row == "deprecated") ≡ (status other == "deprecated"))
  stack_row_filter-generation rows query stack row kept =
      let by = stack_row_filter-status rows query stack in
      let legacy = requests_legacy u v query stack in
      let known = has stack stack_current_versions in
      let d = some_status "deprecated" rows in
      let a = some_status "active" rows in
      let status = select-status d legacy known a row (by row kept) in
      (
        status.0,
        status.1,
        select-deprecated d legacy known a row (by row kept),
        select-active d legacy known a row (by row kept),
        λ other also.
            kept-is_legacy (generation_of legacy rows stack) row (by row kept)
            ∙ sym (kept-is_legacy (generation_of legacy rows stack) other (by other also)),
      )

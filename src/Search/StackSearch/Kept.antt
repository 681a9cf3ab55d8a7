-- ===== src/Search/StackSearch/Kept.antt =====
-- The rows that a stack search keeps, and what their projection keeps of the status.
use mathlib.Core.Option.{some-injective}
use enterprise_angular_nest.Base.{
  All-filter, All-imp, ℕ, suc, zero, Bool, true, false, ◌&&◌, String, Option, none, some, List, [],
  ◌∷◌, ◌≡◌, refl, sym, All, inl, inr, filter, get_elem?, and-parts, if◌then◌else◌, ◌⊎◌,
}
use enterprise_angular_nest.Base.Text.{Unicode}
use enterprise_angular_nest.Search.Config.{stack_output_cols}
use enterprise_angular_nest.Search.Identity.{single}
use enterprise_angular_nest.Search.Retrieve.Laws.{}
use enterprise_angular_nest.Search.Rows.Laws.{get_or-project_row}
use enterprise_angular_nest.Search.Rows.{Row, project_row}
use enterprise_angular_nest.Search.Stack.{Versions, status}
use enterprise_angular_nest.Search.StackRows.{
  exact_of, exact_stack_identifier, legacy_successor_guidance, or_row,
}

pub status-project_row : (row : Row) → status (project_row row stack_output_cols) ≡ status row
status-project_row row = get_or-project_row "unverified" "Status" row stack_output_cols refl

pub All-get :
    (P : Row → Type 0) (rows : List Row) (i : ℕ) (row : Row)
    → All P rows
    → get_elem? rows i ≡ some row
    → P row
All-get P [] i row h e = cc e
All-get P (x ∷ rows) zero row h e = rw (sym (some-injective x row e)) h.0
All-get P (x ∷ rows) (suc i) row h e = All-get P rows i row h.1 e

module _ (u : Unicode) where
  single-All :
      (P : Row → Type 0) (rows : List Row) (row : Row)
      → All P rows
      → single u rows ≡ some row
      → P row
  single-All P [] row h e = cc e
  single-All P (x ∷ []) row h e = rw (sym (some-injective x row e)) h.0
  single-All P (x ∷ y ∷ rows) row h e = cc e

  single-kept :
      (p q : Row → Bool) (rows : List Row) (row : Row)
      → single u (filter (λ r. p r && q r) rows) ≡ some row
      → p row ≡ true
  single-kept p q rows row e =
      single-All (λ r. p r ≡ true) (filter (λ r. p r && q r) rows) row
        (All-imp (λ r. (p r && q r) ≡ true) (λ r. p r ≡ true) (filter (λ r. p r && q r) rows)
          (λ r h. (and-parts (p r) (q r) h).0) (All-filter (λ r. p r && q r) rows))
        e

  unless-some :
      (b : Bool) (found : Option Row) (row : Row)
      → (if b then none else found) ≡ some row
      → found ≡ some row
  unless-some true found row h = cc h
  unless-some false found row h = h

  exact_stack_identifier-kept :
      (rows : List Row) (query : String) (p : Row → Bool) (row : Row)
      → exact_stack_identifier u rows query p ≡ some row
      → p row ≡ true
  unfolding exact_stack_identifier
  exact_stack_identifier-kept rows query p row h = single-kept p _ rows row (unless-some _ _ row h)

  legacy_successor_guidance-kept :
      (rows : List Row) (normalized stack : String) (p : Row → Bool) (row : Row)
      → legacy_successor_guidance u rows normalized stack p ≡ some row
      → p row ≡ true
  unfolding legacy_successor_guidance
  legacy_successor_guidance-kept rows normalized stack p row h =
      single-kept p _ rows row (unless-some _ _ row h)

or_row-cases :
    (a b : Option Row) (row : Row) → or_row a b ≡ some row → (a ≡ some row) ⊎ (b ≡ some row)
or_row-cases none b row h = inr h
or_row-cases (some []) b row h = inr h
or_row-cases (some (x ∷ xs)) b row h = inl h

module _ (u : Unicode) (v : Versions) where
  pub exact_of-kept :
      (query stack : String) (rows : List Row) (p : Row → Bool) (row : Row)
      → exact_of u v query stack rows p ≡ some row
      → p row ≡ true
  exact_of-kept query stack rows p row h = elim (or_row-cases _ _ row h) [
    | inl e ↦ legacy_successor_guidance-kept u rows _ stack p row e
    | inr e ↦ exact_stack_identifier-kept u rows query p row e
  ]

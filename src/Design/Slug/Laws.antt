-- ===== src/Design/Slug/Laws.antt =====
-- A slug is one safe segment of a path, and slugs are left alone.
use Prim.Native.String.{[], ◌∷◌}
use enterprise_angular_nest.Base.{
  and-parts, Bool, true, false, String, ◌==◌, ◌≡◌, refl, ◌∙◌, ap, arith, Bool-cases, inl, inr,
}
use enterprise_angular_nest.Base.Text.{Unicode, strip, all_chars}
use enterprise_angular_nest.Base.Text.Strip.{all_chars-strip, strip_idem}
use enterprise_angular_nest.Design.Slug.{is_slug_char, dash_runs, is_dash, or_text, safe_slug}

dash_runs-safe : (inside : Bool) (s : String) → all_chars is_slug_char (dash_runs inside s) ≡ true
dash_runs-safe inside [] = refl
dash_runs-safe inside (c ∷ s) = ground (arith, dash_runs-safe false s, dash_runs-safe true s)

dash_runs_fixed :
    (inside : Bool) (s : String) → all_chars is_slug_char s ≡ true → dash_runs inside s ≡ s
dash_runs_fixed inside [] h = refl
dash_runs_fixed inside (c ∷ s) h = rw (and-parts (is_slug_char c) (all_chars is_slug_char s) h).0 (
    ap (λ t. c ∷ t)
      (dash_runs_fixed false s (and-parts (is_slug_char c) (all_chars is_slug_char s) h).1))

slug_chars :
    (u : Unicode) (name : String)
    → all_chars is_slug_char (strip is_dash (dash_runs false (u.lower name))) ≡ true
slug_chars u name =
    all_chars-strip is_slug_char is_dash (dash_runs false (u.lower name))
      (dash_runs-safe false (u.lower name))

-- A slug is not empty, and has only lower-case letters, digits, underscores and dashes: so no dot and no
-- slash.
pub record IsSegment (slug : String) : Type 0 where
  pub not_empty : (slug == "") ≡ false
  pub safe : all_chars is_slug_char slug ≡ true

or_text-IsSegment :
    (text fallback : String)
    → all_chars is_slug_char text ≡ true
    → IsSegment fallback
    → IsSegment (or_text text fallback)
or_text-IsSegment text fallback h f = elim (Bool-cases (text == "")) [
  | inl e ↦ rw e f
  | inr e ↦ rw e (record { not_empty = e; safe = h })
]

-- For every name, and a fallback that is a segment, the slug is a segment. If moreover `lower` leaves
-- such texts as they are, and the fallback is itself a slug, the slug of a slug is that slug.
pub safe_slug-IsSegment :
    (u : Unicode) (name fallback : String)
    → IsSegment fallback
    → safe_slug u fallback fallback ≡ fallback
    → ((s : String) → all_chars is_slug_char s ≡ true → u.lower s ≡ s)
    → IsSegment (safe_slug u name fallback)
      × (safe_slug u (safe_slug u name fallback) fallback ≡ safe_slug u name fallback)
unfolding safe_slug
safe_slug-IsSegment u name fallback f fixed lower = (
  or_text-IsSegment (strip is_dash (dash_runs false (u.lower name))) fallback (slug_chars u name) f,
  by_text (strip is_dash (dash_runs false (u.lower name))) (slug_chars u name)
      (strip_idem is_dash (dash_runs false (u.lower name))),
)
  where
    by_text :
        (text : String)
        → all_chars is_slug_char text ≡ true
        → strip is_dash text ≡ text
        → safe_slug u (or_text text fallback) fallback ≡ or_text text fallback
    by_text text safe stripped = elim (Bool-cases (text == "")) [
      | inl e ↦ rw e fixed
      | inr e ↦ rw e (
          ap (λ t. or_text (strip is_dash (dash_runs false t)) fallback) (lower text safe)
          ∙ ap (λ t. or_text (strip is_dash t) fallback) (dash_runs_fixed false text safe)
          ∙ ap (λ t. or_text t fallback) stripped
          ∙ rw e refl)
    ]

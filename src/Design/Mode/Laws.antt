-- ===== src/Design/Mode/Laws.antt =====
-- The palette agrees with the resolved mode, and a derived one keeps the brand's colours.
use enterprise_angular_nest.Base.{
  ℕ, Bool, true, false, Char, String, ◌==◌, Option, none, some, List, [], ◌∷◌, find, is_empty, ◌&&◌,
  not, if◌then◌else◌, ◌≡◌, refl, ◌∙◌, ap, arith, Bool-cases, inl, inr, ◌⊎◌, All,
}
use enterprise_angular_nest.Base.Dict.{
  lookup, update, insert, has, get_or-insert, get_or-update_absent, lookup-update_absent,
}
use enterprise_angular_nest.Base.Text.{Unicode}
use enterprise_angular_nest.Base.Floats.{Floats}
use enterprise_angular_nest.Search.Rows.{Row, text_of}
use enterprise_angular_nest.Design.Colors.{palette_is_dark, is_dark_color}
use enterprise_angular_nest.Design.Mode.{
  dark_surfaces, ring_of, derive_dark_palette, first_or, without_category, with_category,
  of_category, select_palette_for_mode,
}

find-none : {A : Type 0} (p : A → Bool) (xs : List A) → find p xs ≡ none → All (λ x. p x ≡ false) xs
find-none p [] h = tt
find-none p (x ∷ xs) h = elim (Bool-cases (p x)) [
  | inl e ↦ ground (arith, h, e)
  | inr e ↦ (e, find-none p xs (ground (arith, h, e)))
]

-- a column that the dark surfaces leave alone
abbrev pub is_kept : String → Bool
is_kept column = not (has column (dark_surfaces ""))

lookup-update_kept :
    (column ring : String) (palette : Row)
    → is_kept column ≡ true
    → lookup column (update palette (dark_surfaces ring)) ≡ lookup column palette
lookup-update_kept column ring palette h =
    lookup-update_absent column palette (dark_surfaces ring) (ground (arith, h))

abbrev rest_of : Row → Row
rest_of [] = []
rest_of (c ∷ row) = row

background-update :
    (ring : String) (palette : Row)
    → text_of "Background" (update palette (dark_surfaces ring)) ≡ "#0F172A"
background-update ring palette =
    get_or-update_absent "" "Background" (insert "Background" "#0F172A" palette)
      (rest_of (dark_surfaces ring)) refl
    ∙ ground (arith, get_or-insert "" "Background" "Background" "#0F172A" palette)

-- the category has no palette but an empty row
abbrev pub IsWithout :
    (F : Floats) → Unicode → (Char → Option ℕ) → List Row → Option String → Type 0
IsWithout F u decimal palettes category =
    (row : Row) → find (of_category F u decimal category) palettes ≡ some row → is_empty row ≡ true

-- What is selected from the palettes: in dark mode a dark palette wherever there is one for the category
-- or among them; what is derived keeps every column but the surfaces.
pub data IsSelected (F : Floats) (u : Unicode) (decimal : Char → Option ℕ) (top : Row)
    (palettes : List Row) (mode : String) (category : Option String) (result : Row) : Type 0 where
  of_the_category :
      find (of_category F u decimal category) palettes ≡ some result
      → is_empty result ≡ false
      → ((mode == "dark") ≡ false) ⊎ (palette_is_dark F u decimal result ≡ true)
      → IsSelected F u decimal top palettes mode category result
  derived :
      (source : Row)
      → (mode == "dark") ≡ true
      → find (of_category F u decimal category) palettes ≡ some source
      → palette_is_dark F u decimal source ≡ false
      → palette_is_dark F u decimal result ≡ true
      → ((column : String) → is_kept column ≡ true → lookup column result ≡ lookup column source)
      → IsSelected F u decimal top palettes mode category result
  first_dark :
      IsWithout F u decimal palettes category
      → (mode == "dark") ≡ true
      → find (palette_is_dark F u decimal) palettes ≡ some result
      → IsSelected F u decimal top palettes mode category result
  top_hit :
      IsWithout F u decimal palettes category
      → ((mode == "dark") ≡ false) ⊎ All (λ p. palette_is_dark F u decimal p ≡ false) palettes
      → result ≡ top
      → IsSelected F u decimal top palettes mode category result

abbrev ring : (F : Floats) → Unicode → (Char → Option ℕ) → Row → String
ring F u decimal palette = ring_of F u decimal (
    lookup "Ring" palette
    ∷ lookup "Accent" palette
    ∷ lookup "Primary" palette
    ∷ some "#60A5FA"
    ∷ [])

module _ (F : Floats) (u : Unicode) (decimal : Char → Option ℕ) where
  derive-dark :
      (palette : Row)
      → is_dark_color F u decimal "#0F172A" ≡ true
      → palette_is_dark F u decimal (derive_dark_palette F u decimal palette) ≡ true
  unfolding palette_is_dark derive_dark_palette
  derive-dark palette dark =
      ap (is_dark_color F u decimal) (background-update (ring F u decimal palette) palette) ∙ dark

  derive-kept :
      (palette : Row) (column : String)
      → is_kept column ≡ true
      → lookup column (derive_dark_palette F u decimal palette) ≡ lookup column palette
  unfolding derive_dark_palette
  derive-kept palette column h = lookup-update_kept column (ring F u decimal palette) palette h

  without-IsSelected :
      (top : Row) (palettes : List Row) (mode : String) (category : Option String)
      → IsWithout F u decimal palettes category
      → IsSelected F u decimal top palettes mode category
          (without_category F u decimal top palettes mode)
  without-IsSelected top palettes mode category lacks = elim (Bool-cases (mode == "dark")) [
    | inl e ↦ rw e (by_find (find (palette_is_dark F u decimal) palettes) refl e)
    | inr e ↦ rw e (IsSelected.top_hit lacks (inl e) refl)
  ]
    where
      by_find :
          (found : Option Row)
          → find (palette_is_dark F u decimal) palettes ≡ found
          → (mode == "dark") ≡ true
          → IsSelected F u decimal top palettes mode category (first_or F u decimal top found)
      by_find none f e =
          IsSelected.top_hit lacks (inr (find-none (palette_is_dark F u decimal) palettes f)) refl
      by_find (some row) f e = IsSelected.first_dark lacks e f

  with-IsSelected :
      (top : Row) (palettes : List Row) (mode : String) (category : Option String)
      (found : Option Row)
      → is_dark_color F u decimal "#0F172A" ≡ true
      → find (of_category F u decimal category) palettes ≡ found
      → IsSelected F u decimal top palettes mode category
          (with_category F u decimal top palettes mode found)
  with-IsSelected top palettes mode category none dark f =
      without-IsSelected top palettes mode category (λ row h. cc)
  with-IsSelected top palettes mode category (some palette) dark f =
      elim (Bool-cases (is_empty palette)) [
        | inl e ↦ rw e (without-IsSelected top palettes mode category (λ row h. cc))
        | inr e ↦ rw e (
            of_palette e (Bool-cases (mode == "dark"))
              (Bool-cases (palette_is_dark F u decimal palette)))
      ]
    where
      of_palette :
          is_empty palette ≡ false
          → ((mode == "dark") ≡ true) ⊎ ((mode == "dark") ≡ false)
          → (palette_is_dark F u decimal palette ≡ true)
            ⊎ (palette_is_dark F u decimal palette ≡ false)
          → IsSelected F u decimal top palettes mode category (
              if (mode == "dark") && not (palette_is_dark F u decimal palette)
              then derive_dark_palette F u decimal palette
              else palette)
      of_palette e (inr light) q = rw light (IsSelected.of_the_category f e (inl light))
      of_palette e (inl m) (inl q) = rw (m, q) (IsSelected.of_the_category f e (inr q))
      of_palette e (inl m) (inr q) =
          rw (m, q)
            (IsSelected.derived palette m f q (derive-dark palette dark) (derive-kept palette))

  -- Where the derived background counts as dark, the selection from one or more palettes is: in
  -- dark mode the category's palette if it is dark, or the dark one derived from it that keeps its other
  -- columns; in other modes the category's palette. Only if the category has no palette, or its first
  -- one is an empty row, it is the first dark palette in dark mode, and the top one if none is dark and
  -- in other modes.
  pub select_palette-IsSelected :
      (top : Row) (palettes : List Row) (mode : String) (category : Option String)
      → is_dark_color F u decimal "#0F172A" ≡ true
      → IsSelected F u decimal top
          (top ∷ palettes)
          mode
          category
          (select_palette_for_mode F u decimal (top ∷ palettes) mode category)
  unfolding select_palette_for_mode
  select_palette-IsSelected top palettes mode category dark =
      with-IsSelected top (top ∷ palettes) mode category
        (find (of_category F u decimal category) (top ∷ palettes)) dark refl

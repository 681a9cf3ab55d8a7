-- ===== src/Design/Styles/Laws.antt =====
-- The resolution of a style ends, at a row that is not deprecated.
use enterprise_angular_nest.Base.{
  ℕ, zero, suc, ◌≤◌, ◌<◌, true, false, String, ◌==◌, eq_iff, Option, some, List, [], ◌∷◌, length,
  if◌then◌else◌, ◌||◌, ◌≡◌, refl, ap, arith, Bool-cases, inl, inr, ◌⊎◌, ◌≢◌,
}
use enterprise_angular_nest.Base.Dict
use enterprise_angular_nest.Base.Dict.{Dict}
use enterprise_angular_nest.Base.Text.{Unicode, contains}
use enterprise_angular_nest.Search.Rows.{Row, text_of}
use enterprise_angular_nest.Design.Styles.{is_deprecated, resolve_from, resolve_style, fold}

-- the ids of the rows that a lookup leads to
abbrev ids_of : Dict Row → List String
ids_of [] = []
ids_of ((key, row) ∷ lookup) = text_of "Style ID" row ∷ ids_of lookup

-- how many of the ids are not seen yet
abbrev unseen : List String → List String → ℕ
unseen seen [] = 0
unseen seen (id ∷ ids) = let rest = unseen seen ids in if contains seen id then rest else suc rest

unseen-le : (id : String) (seen ids : List String) → unseen (id ∷ seen) ids ≤ unseen seen ids
unseen-le id seen [] = omega arith
unseen-le id seen (i ∷ ids) = ground (arith, unseen-le id seen ids)

unseen-lt :
    (id : String) (seen ids : List String)
    → contains ids id ≡ true
    → contains seen id ≡ false
    → unseen (id ∷ seen) ids < unseen seen ids
unseen-lt id seen [] h k = ground (arith, h)
unseen-lt id seen (i ∷ ids) h k =
    ground (arith, unseen-lt id seen ids, unseen-le id seen ids, eq_iff i id, eq_iff id i, h, k)

unseen-le-length : (ids : List String) → unseen [] ids ≤ length ids
unseen-le-length [] = omega arith
unseen-le-length (id ∷ ids) = omega (arith, unseen-le-length ids)

length-ids_of : (lookup : Dict Row) → length (ids_of lookup) ≡ length lookup
length-ids_of [] = refl
length-ids_of ((key, row) ∷ lookup) = ap suc (length-ids_of lookup)

fewer :
    (ids : List String) (fuel : ℕ) (seen : List String) (style : Row)
    → unseen seen ids < suc fuel
    → contains ids (text_of "Style ID" style) ≡ true
    → contains seen (text_of "Style ID" style) ≡ false
    → unseen (text_of "Style ID" style ∷ seen) ids < fuel
fewer ids fuel seen style h k n =
    omega (arith, h, unseen-lt (text_of "Style ID" style) seen ids k n)

-- a row that the lookup gives has an id among them, or is empty
get_or-in :
    (key : String) (lookup : Dict Row)
    → (Dict.get_or [] key lookup ≡ [])
      ⊎ (contains (ids_of lookup) (text_of "Style ID" (Dict.get_or [] key lookup)) ≡ true)
get_or-in key [] = inl refl
get_or-in key ((k, row) ∷ lookup) = elim (Bool-cases (k == key)) [
  | inl e ↦ rw e (inr (ground (arith, eq_iff (text_of "Style ID" row) (text_of "Style ID" row))))
  | inr e ↦ rw e (elim (get_or-in key lookup) [ inl h ↦ inl h | inr h ↦ inr (ground (arith, h)) ])
]

-- What the parents lead to, past the ids that are seen: the first style up the chain that is not
-- deprecated, or nothing where a deprecated style has no parent or was seen before.
pub data LeadsTo (u : Unicode) (lookup : Dict Row) : List String → Row → Row → Type 0 where
  live :
      {seen : List String} {style : Row}
      → is_deprecated style ≡ false
      → LeadsTo u lookup seen style style
  no_parent :
      {seen : List String} {style : Row}
      → is_deprecated style ≡ true
      → text_of "Parent Style ID" style ≡ ""
      → LeadsTo u lookup seen style []
  cycle :
      {seen : List String} {style : Row}
      → is_deprecated style ≡ true
      → contains seen (text_of "Style ID" style) ≡ true
      → LeadsTo u lookup seen style []
  parent :
      {seen : List String} {style result : Row}
      → is_deprecated style ≡ true
      → text_of "Parent Style ID" style ≢ ""
      → contains seen (text_of "Style ID" style) ≡ false
      → LeadsTo u lookup
          (text_of "Style ID" style ∷ seen)
          (Dict.get_or [] (u.casefold (text_of "Parent Style ID" style)) lookup)
          result
      → LeadsTo u lookup seen style result

module _ (u : Unicode) (lookup : Dict Row) where
  -- the answer is a style that is not deprecated, the one that the parents lead to
  abbrev pub Resolves : List String → Row → Option Row → Type 0
  Resolves seen style answer =
      (result : Row) × (answer ≡ some result)
      × (is_deprecated result ≡ false)
      × LeadsTo u lookup seen style result

  parent_of : Row → Row
  parent_of style = Dict.get_or [] (u.casefold (text_of "Parent Style ID" style)) lookup

  up-Resolves :
      (seen : List String) (style : Row) (later : Option Row)
      → is_deprecated style ≡ true
      → (text_of "Parent Style ID" style == "") ≡ false
      → contains seen (text_of "Style ID" style) ≡ false
      → Resolves (text_of "Style ID" style ∷ seen) (parent_of style) later
      → Resolves seen style later
  unfolding parent_of
  up-Resolves seen style later e p c (result, returns, alive, leads) = (
    result,
    returns,
    alive,
    LeadsTo.parent e (λ q. ground (arith, p, (eq_iff (text_of "Parent Style ID" style) "").1 q)) c
        leads,
  )

  parent-Resolves :
      (seen : List String) (style : Row) (later : Option Row)
      → is_deprecated style ≡ true
      → (contains seen (text_of "Style ID" style) ≡ false
          → Resolves (text_of "Style ID" style ∷ seen) (parent_of style) later)
      → Resolves seen style (
          if (text_of "Parent Style ID" style == "") || contains seen (text_of "Style ID" style)
          then some []
          else later)
  parent-Resolves seen style later e h = elim (Bool-cases (text_of "Parent Style ID" style == "")) [
    | inl p ↦
        rw p
          ([], refl, refl, LeadsTo.no_parent e ((eq_iff (text_of "Parent Style ID" style) "").0 p))
    | inr p ↦ elim (Bool-cases (contains seen (text_of "Style ID" style))) [
      | inl c ↦ rw (p, c) ([], refl, refl, LeadsTo.cycle e c)
      | inr c ↦ rw (p, c) (up-Resolves seen style later e p c (h c))
    ]
  ]

  listed_id :
      (style : Row)
      → is_deprecated style ≡ true
      → (style ≡ []) ⊎ (contains (ids_of lookup) (text_of "Style ID" style) ≡ true)
      → contains (ids_of lookup) (text_of "Style ID" style) ≡ true
  listed_id style e (inl h) = ground (arith, e, ap is_deprecated h)
  listed_id style e (inr h) = h

  resolve_from-Resolves :
      (fuel : ℕ) (seen : List String) (style : Row)
      → unseen seen (ids_of lookup) < fuel
      → (style ≡ []) ⊎ (contains (ids_of lookup) (text_of "Style ID" style) ≡ true)
      → Resolves seen style (resolve_from u lookup fuel seen style)
  unfolding resolve_from parent_of
  resolve_from-Resolves zero seen style h k = absurd (omega (arith, h))
  resolve_from-Resolves (suc fuel) seen style h k = elim (Bool-cases (is_deprecated style)) [
    | inl e ↦ rw e (
        parent-Resolves seen style
          (resolve_from u lookup fuel (text_of "Style ID" style ∷ seen) (parent_of style)) e
          (λ c.
            resolve_from-Resolves fuel (text_of "Style ID" style ∷ seen) (parent_of style)
              (fewer (ids_of lookup) fuel seen style h (listed_id style e k) c)
              (get_or-in (u.casefold (text_of "Parent Style ID" style)) lookup)))
    | inr e ↦ rw e (style, refl, e, LeadsTo.live e)
  ]

  -- `_resolve_style` ends within a round for each entry of the lookup and one more, at a style that is
  -- not deprecated: the first such one up the chain of parents, the empty one where a deprecated style
  -- on the chain names no parent or has the id of an earlier one, or where the lookup has no such
  -- name.
  pub resolve_style-Resolves :
      (reference : String)
      → Resolves [] (Dict.get_or [] (fold u reference) lookup) (resolve_style u lookup reference)
  unfolding resolve_style
  resolve_style-Resolves reference =
      resolve_from-Resolves (suc (length lookup)) [] (Dict.get_or [] (fold u reference) lookup)
        (omega (arith, unseen-le-length (ids_of lookup), length-ids_of lookup))
        (get_or-in (fold u reference) lookup)

-- ===== src/Search/Identity/Laws.antt =====
-- Which row an explicit identity resolves to, and where a deprecated style leads.
use enterprise_angular_nest.Base.{
  ap, none, All, ◌≢◌, if◌then◌else◌, ◌++◌, Bool, true, false, String, ◌==◌, eq_iff, Option, some,
  List, [], ◌∷◌, ◌≡◌, ◌⊎◌, inl, inr, refl, arith, find, Bool-cases, ◌&&◌, not,
}
use enterprise_angular_nest.Base.Text.{Unicode, strip}
use enterprise_angular_nest.Base.Sort.{sort_desc}
use enterprise_angular_nest.Search.Rows.{Row, text_of}
use enterprise_angular_nest.Search.Identity.{
  Redirect, Candidate, row_candidates, row_identities, with_id, is_deprecated,
  style_identity_fields, is_named, fold_query, word_set, style_loop, style_identity,
  style_search_destination,
}

module _ (u : Unicode) where
  -- the first row with this exact name
  abbrev pub named : List Row → String → Option Row
  named rows query = find (is_named u (fold_query u query) style_identity_fields) rows

  loop-named :
      (folded : String) (tokens : List String) (contained : Bool) (found : List Candidate)
      (rows : List Row) (row : Row)
      → find (is_named u folded style_identity_fields) rows ≡ some row
      → style_loop u folded tokens contained found rows ≡ some row
  loop-named folded tokens contained found [] row h = absurd (ground (arith, h))
  loop-named folded tokens contained found (r ∷ rows) row h =
      elim (Bool-cases (is_named u folded style_identity_fields r)) [
        | inl e ↦ rw e (rw e at h)
        | inr e ↦ rw e (
            loop-named folded tokens contained
              (if contained
                then found ++ row_candidates u tokens r (row_identities u r style_identity_fields)
                else found)
              rows row (rw e at h))
      ]

  loop-exact :
      (folded : String) (tokens : List String) (rows : List Row)
      → style_loop u folded tokens false [] rows
        ≡ find (is_named u folded style_identity_fields) rows
  unfolding sort_desc
  loop-exact folded tokens [] = refl
  loop-exact folded tokens (r ∷ rows) = rw (loop-exact folded tokens rows)

  -- A row whose identity is the query, up to case and surrounding space, wins: the first such row is
  -- the answer, whatever other rows merely share words with the query. Without the search for
  -- contained names there is no other answer.
  pub style_identity-named :
      (rows : List Row) (query : String) (contained : Bool)
      → ((row : Row)
          → named rows query ≡ some row
          → style_identity u rows query contained ≡ some row)
        × (style_identity u rows query false ≡ named rows query)
  unfolding style_identity
  style_identity-named rows query contained = (
    λ row h.
        loop-named (fold_query u query) (word_set u (fold_query u query)) contained [] rows row h,
    loop-exact (fold_query u query) (word_set u (fold_query u query)) rows,
  )

  -- the first of the rows with a style id, or none where no row has it
  abbrev pub IsFound : String → List Row → Option Row → Type 0
  IsFound id rows none = All (λ r. text_of "Style ID" r ≢ id) rows
  IsFound id rows (some row) =
      (before : List Row) × (behind : List Row) × (rows ≡ before ++ (row ∷ behind))
      × All (λ r. text_of "Style ID" r ≢ id) before
      × (text_of "Style ID" row ≡ id)

  later-IsFound :
      (id : String) (r : Row) (rows : List Row) (found : Option Row)
      → text_of "Style ID" r ≢ id
      → IsFound id rows found
      → IsFound id (r ∷ rows) found
  later-IsFound id r rows none n h = (n, h)
  later-IsFound id r rows (some row) n (before, behind, p, others, e) =
      (r ∷ before, behind, ap (λ l. r ∷ l) p, (n, others), e)

  with_id-IsFound : (id : String) (rows : List Row) → IsFound id rows (with_id u id rows)
  with_id-IsFound id [] = tt
  with_id-IsFound id (r ∷ rows) = elim (Bool-cases (text_of "Style ID" r == id)) [
    | inl e ↦ rw e ([], rows, refl, tt, (eq_iff (text_of "Style ID" r) id).0 e)
    | inr e ↦ rw e (
        later-IsFound id r rows (with_id u id rows)
          (λ q. ground (arith, e, (eq_iff (text_of "Style ID" r) id).1 q))
          (with_id-IsFound id rows))
  ]

  abbrev parent_of : Row → String
  parent_of matched = strip u.is_space (text_of "Parent Style ID" matched)

  abbrev domain_of : Row → String
  domain_of matched = strip u.is_space (text_of "Replacement Domain" matched)

  abbrev replacement_of : Row → String
  replacement_of matched = strip u.is_space (text_of "Replacement ID" matched)

  -- Where a match leads: to itself, along its parent, along its replacement among the styles, to a
  -- replacement in another domain, or nowhere.
  pub data Leads (rows : List Row) (matched : Row) : Option Row × Option Redirect → Type 0 where
    itself : is_deprecated u matched ≡ false → Leads rows matched (some matched, none)
    to_parent :
        {found : Option Row}
        → is_deprecated u matched ≡ true
        → parent_of matched ≢ ""
        → IsFound (parent_of matched) rows found
        → Leads rows matched (found, none)
    to_style :
        {found : Option Row}
        → is_deprecated u matched ≡ true
        → parent_of matched ≡ ""
        → domain_of matched ≡ "style"
        → replacement_of matched ≢ ""
        → IsFound (replacement_of matched) rows found
        → Leads rows matched (found, none)
    to_domain :
        is_deprecated u matched ≡ true
        → parent_of matched ≡ ""
        → domain_of matched ≢ "style"
        → domain_of matched ≢ ""
        → replacement_of matched ≢ ""
        → Leads rows matched
            (none, some (record { domain = domain_of matched; id = replacement_of matched }))
    nowhere :
        is_deprecated u matched ≡ true
        → parent_of matched ≡ ""
        → (domain_of matched ≡ "") ⊎ (replacement_of matched ≡ "")
        → Leads rows matched (none, none)

  -- a test of a text, as an equation or its negation
  text-cases : (s t : String) → ((s ≡ t) × ((s == t) ≡ true)) ⊎ ((s ≢ t) × ((s == t) ≡ false))
  text-cases s t = elim (Bool-cases (s == t)) [
    | inl e ↦ inl ((eq_iff s t).0 e, e)
    | inr e ↦ inr (λ q. ground (arith, e, (eq_iff s t).1 q), e)
  ]

  and_false : (b : Bool) → (b && false) ≡ false
  and_false true = refl
  and_false false = refl

  -- a deprecated match without a parent
  replaced-Leads :
      (rows : List Row) (matched : Row)
      → is_deprecated u matched ≡ true
      → parent_of matched ≡ ""
      → Leads rows matched (
          if (domain_of matched == "style") && not (replacement_of matched == "")
          then (with_id u (replacement_of matched) rows, none)
          else if not (domain_of matched == "") && not (replacement_of matched == "")
          then (none, some (record { domain = domain_of matched; id = replacement_of matched }))
          else (none, none))
  replaced-Leads rows matched d p = elim (text-cases (replacement_of matched) "") [
    | inl (r, e) ↦
        rw (e, and_false (domain_of matched == "style"), and_false (not (domain_of matched == "")))
          (Leads.nowhere d p (inr r))
    | inr (r, e) ↦ elim (text-cases (domain_of matched) "style") [
      | inl (s, f) ↦
          rw (e, f) (Leads.to_style d p s r (with_id-IsFound (replacement_of matched) rows))
      | inr (s, f) ↦ elim (text-cases (domain_of matched) "") [
        | inl (n, g) ↦ rw (e, f, g) (Leads.nowhere d p (inl n))
        | inr (n, g) ↦ rw (e, f, g) (Leads.to_domain d p s n r)
      ]
    ]
  ]

  -- A style match that is not deprecated leads to itself. A deprecated one leads to the first row whose
  -- id is its parent, if it names one; else to the first row whose id is its replacement, if this is
  -- a style; else to the redirect to its replacement in another domain. It leads nowhere exactly where
  -- no row has the id it names, or it names no parent and no complete replacement.
  pub style_search_destination-Leads :
      (rows : List Row) (matched : Row)
      → Leads rows matched (style_search_destination u rows (some matched))
  unfolding style_search_destination
  style_search_destination-Leads rows matched = elim (Bool-cases (is_deprecated u matched)) [
    | inr d ↦ rw d (Leads.itself d)
    | inl d ↦ elim (text-cases (parent_of matched) "") [
      | inl (p, e) ↦ rw (d, e) (replaced-Leads rows matched d p)
      | inr (p, e) ↦ rw (d, e) (Leads.to_parent d p (with_id-IsFound (parent_of matched) rows))
    ]
  ]

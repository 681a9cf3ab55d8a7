-- ===== src/Base/Sort/Laws.antt =====
-- The sort is a permutation, descending and stable.
use mathlib.Core.List.{Perm}
use mathlib.Core.List.Perm
use enterprise_angular_nest.Base.{
  suc, Bool, true, false, not, ◌&&◌, List, [], ◌∷◌, ◌≡◌, refl, ◌∙◌, ap, arith, All, All-imp, filter,
  length, Bool-cases, inl, inr, if◌then◌else◌, ◌⊎◌,
}
use enterprise_angular_nest.Base.Floats.{IsOrder}
use enterprise_angular_nest.Base.Sort.{insert_desc, sort_desc}

module _ {ℓ κ} {A : Type ℓ} {K : Type κ} (lt : K → K → Bool) (key : A → K) where
  -- no entry is below one that follows it
  abbrev pub Descending : List A → Type (ℓ ⊔ κ)
  Descending [] = Unit
  Descending (x ∷ xs) = All (λ y. lt (key x) (key y) ≡ false) xs × Descending xs

  abbrev pub ties : K → A → Bool
  ties k x = not (lt k (key x)) && not (lt (key x) k)

  insert_desc-perm : (x : A) (ys : List A) → Perm (insert_desc lt key x ys) (x ∷ ys)
  insert_desc-perm x [] = Perm.refl (x ∷ [])
  insert_desc-perm x (y ∷ ys) = elim (Bool-cases (lt (key x) (key y))) [
    | inl e ↦ rw e (Perm.trans (Perm.cons y (insert_desc-perm x ys)) (Perm.swap x y ys))
    | inr e ↦ rw e (Perm.refl (x ∷ y ∷ ys))
  ]

  pub sort_desc-perm : (xs : List A) → Perm (sort_desc lt key xs) xs
  unfolding sort_desc
  sort_desc-perm [] = Perm.refl []
  sort_desc-perm (x ∷ xs) =
      Perm.trans (insert_desc-perm x (sort_desc lt key xs)) (Perm.cons x (sort_desc-perm xs))

  pub All-insert_desc {μ} :
      (P : A → Type μ) (x : A) (ys : List A) → P x → All P ys → All P (insert_desc lt key x ys)
  All-insert_desc P x [] h k = (h, tt)
  All-insert_desc P x (y ∷ ys) h k = elim (Bool-cases (lt (key x) (key y))) [
    | inl e ↦ rw e (k.0, All-insert_desc P x ys h k.1)
    | inr e ↦ rw e (h, k)
  ]

  pub All-sort_desc {μ} : (P : A → Type μ) (xs : List A) → All P xs → All P (sort_desc lt key xs)
  unfolding sort_desc
  All-sort_desc P [] h = tt
  All-sort_desc P (x ∷ xs) h =
      All-insert_desc P x (sort_desc lt key xs) h.0 (All-sort_desc P xs h.1)

  length-insert_desc : (z : A) (ys : List A) → length (insert_desc lt key z ys) ≡ suc (length ys)
  length-insert_desc z [] = refl
  length-insert_desc z (y ∷ ys) = elim (Bool-cases (lt (key z) (key y))) [
    | inl e ↦ rw e (ap suc (length-insert_desc z ys))
    | inr e ↦ rw e
  ]

  pub length-sort_desc : (xs : List A) → length (sort_desc lt key xs) ≡ length xs
  unfolding sort_desc
  length-sort_desc [] = refl
  length-sort_desc (x ∷ xs) =
      length-insert_desc x (sort_desc lt key xs) ∙ ap suc (length-sort_desc xs)

module _ {ℓ κ} {A : Type ℓ} {K : Type κ} (lt : K → K → Bool) (key : A → K) (o : IsOrder lt) where
  not-lt_trans : (a b c : K) → lt a b ≡ false → lt b c ≡ false → lt a c ≡ false
  not-lt_trans a b c h k = elim (Bool-cases (lt a c)) [
    | inl e ↦ elim (o.cotrans a b c e) [
      | inl q ↦ absurd (ground (arith, q, h))
      | inr q ↦ absurd (ground (arith, q, k))
    ]
    | inr e ↦ e
  ]

  insert_desc-Descending :
      (x : A) (ys : List A) → Descending lt key ys → Descending lt key (insert_desc lt key x ys)
  insert_desc-Descending x [] d = (tt, tt)
  insert_desc-Descending x (y ∷ ys) d = elim (Bool-cases (lt (key x) (key y))) [
    | inl e ↦ rw e (
      All-insert_desc lt key (λ z. lt (key y) (key z) ≡ false) x ys (o.asym (key x) (key y) e) d.0,
      insert_desc-Descending x ys d.1,
    )
    | inr e ↦ rw e ((e, All-imp _ _ ys (λ z h. not-lt_trans (key x) (key y) (key z) e h) d.0), d)
  ]

  pub sort_desc-Descending : (xs : List A) → Descending lt key (sort_desc lt key xs)
  unfolding sort_desc
  sort_desc-Descending [] = tt
  sort_desc-Descending (x ∷ xs) =
      insert_desc-Descending x (sort_desc lt key xs) (sort_desc-Descending xs)

  ties-not-lt :
      (k : K) (x y : A)
      → ties lt key k x ≡ true
      → ties lt key k y ≡ true
      → lt (key x) (key y) ≡ false
  ties-not-lt k x y h j = elim (Bool-cases (lt (key x) (key y))) [
    | inl e ↦ elim (o.cotrans (key x) k (key y) e) [
      | inl q ↦ absurd (ground (arith, q, h))
      | inr q ↦ absurd (ground (arith, q, j))
    ]
    | inr e ↦ e
  ]

  insert_desc-stable :
      (k : K) (x : A) (ys : List A)
      → filter (ties lt key k) (insert_desc lt key x ys) ≡ filter (ties lt key k) (x ∷ ys)
  insert_desc-stable k x [] = refl
  insert_desc-stable k x (y ∷ ys) = elim (Bool-cases (lt (key x) (key y))) [
    | inl e ↦ rw (e, insert_desc-stable k x ys) (apart (Bool-cases (ties lt key k x)) e)
    | inr e ↦ rw e
  ]
    where
      apart :
          (ties lt key k x ≡ true) ⊎ (ties lt key k x ≡ false)
          → lt (key x) (key y) ≡ true
          → (let rest = filter (ties lt key k) ys in
              let both = if ties lt key k x then x ∷ rest else rest in
              if ties lt key k y then y ∷ both else both)
            ≡ filter (ties lt key k) (x ∷ y ∷ ys)
      apart (inl q) e = elim (Bool-cases (ties lt key k y)) [
        | inl r ↦ absurd (ground (arith, e, ties-not-lt k x y q r))
        | inr r ↦ rw r
      ]
      apart (inr q) e = rw q

  pub sort_desc-stable :
      (k : K) (xs : List A)
      → filter (ties lt key k) (sort_desc lt key xs) ≡ filter (ties lt key k) xs
  unfolding sort_desc
  sort_desc-stable k [] = refl
  sort_desc-stable k (x ∷ xs) =
      insert_desc-stable k x (sort_desc lt key xs)
      ∙ ap (λ l. if ties lt key k x then x ∷ l else l) (sort_desc-stable k xs)

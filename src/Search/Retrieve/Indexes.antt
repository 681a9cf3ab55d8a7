-- ===== src/Search/Retrieve/Indexes.antt =====
-- The index cache: an index that is found under a key is the one that a fresh fit would give.
use enterprise_angular_nest.Base.{
  String, Option, some, none, List, [], ◌∷◌, ◌≡◌, refl, ◌∙◌, sym, Bool, true, filter, Bool-cases,
  inl, inr, and-parts, eq_iff, ◌==◌, ap, ◌&&◌,
}
use enterprise_angular_nest.Base.Floats.{Floats}
use enterprise_angular_nest.Base.Text.{Unicode}
use enterprise_angular_nest.Ranking.Index.{Index}
use enterprise_angular_nest.Search.Cache.{Outcome, Signature, ok, same_signature}
use enterprise_angular_nest.Search.Cache.Coherence.{IsCoherent, same_signature-eq}
use enterprise_angular_nest.Search.Memory.{Key, Memory}
use enterprise_angular_nest.Search.Retrieve.{
  build_index, find_index, get_bm25, same_columns, same_key, store_index, use_index,
}
use enterprise_angular_nest.Search.Rows.{Row}

same_columns-eq : (a b : List String) → same_columns a b ≡ true → a ≡ b
same_columns-eq [] [] h = refl
same_columns-eq [] (y ∷ b) h = cc h
same_columns-eq (x ∷ a) [] h = cc h
same_columns-eq (x ∷ a) (y ∷ b) h =
    let parts = and-parts (x == y) (same_columns a b) h in
    cc ((eq_iff x y).0 parts.0, same_columns-eq a b parts.1)

same_key-eq :
    (a b : Key)
    → same_key a b ≡ true
    → (a.path ≡ b.path) × (a.columns ≡ b.columns) × (a.variant ≡ b.variant)
same_key-eq a b h =
    let parts =
      and-parts (a.path == b.path && same_columns a.columns b.columns) (a.variant == b.variant) h in
    let first = and-parts (a.path == b.path) (same_columns a.columns b.columns) parts.0 in
    (
      (eq_iff a.path b.path).0 first.0,
      same_columns-eq a.columns b.columns first.1,
      (eq_iff a.variant b.variant).0 parts.1,
    )

module _ {F : Floats} (u : Unicode) (content : String → Signature → List Row)
    (named : String → Row → Bool) where
  -- the index that belongs under a key at a signature
  abbrev pub index_of : Key → Signature → Index F
  index_of key sig = build_index u key.columns (filter (named key.variant) (content key.path sig))

  abbrev pub IsIndexed : List (Key × (Signature × Index F)) → Type 0
  IsIndexed indexes =
      (key : Key) (sig : Signature) (index : Index F)
      → find_index key indexes ≡ some (sig, index)
      → index ≡ index_of key sig

  -- Both caches hold what belongs to their signatures.
  abbrev pub IsWell : Memory F → Type 0
  IsWell m = IsCoherent content m.caches × IsIndexed m.indexes

  some-pair :
      (sig held : Signature) (index found : Index F)
      → ◌≡◌ {A = Option (Signature × Index F)} (some (sig, index)) (some (held, found))
      → (sig ≡ held) × (index ≡ found)
  some-pair sig held index found h = (cc h, cc h)

  store-IsIndexed :
      (key : Key) (sig : Signature) (indexes : List (Key × (Signature × Index F)))
      → IsIndexed indexes
      → IsIndexed ((key, (sig, index_of key sig)) ∷ indexes)
  store-IsIndexed key sig indexes h k s i found = elim (Bool-cases (same_key key k)) [
    | inl e ↦
        let same = same_key-eq key k e in
        let hit : find_index k ((key, (sig, index_of key sig)) ∷ indexes)
            ≡ some (sig, index_of key sig) =
          rw e in
        let pair = some-pair sig s (index_of key sig) i (sym hit ∙ found) in
        sym pair.1 ∙ rw (same.0, same.1, same.2, pair.0)
    | inr e ↦
        let miss : find_index k ((key, (sig, index_of key sig)) ∷ indexes) ≡ find_index k indexes =
          rw e in
        h k s i (sym miss ∙ found)
  ]

  -- `_get_bm25` gives the index of the rows, and keeps the caches.
  pub record IsGiven (columns : List String) (rows : List Row) (m : Memory F)
      (o : Outcome (Index F) × Memory F) : Type 0 where
    pub gives : o.0 ≡ ok (build_index u columns rows)
    pub same_caches : o.1.caches ≡ m.caches
    pub indexed : IsIndexed o.1.indexes

  module _ (key : Key) (sig : Signature) (rows : List Row)
      (kept : rows ≡ filter (named key.variant) (content key.path sig)) where
    store_index-IsGiven :
        (m : Memory F)
        → IsIndexed m.indexes
        → IsGiven key.columns rows m (store_index u key rows sig m)
    store_index-IsGiven m h = record {
      gives = refl;
      same_caches = refl;
      indexed = rw kept (store-IsIndexed key sig m.indexes h);
    }

    use_index-IsGiven :
        (entry : Option (Signature × Index F)) (m : Memory F)
        → find_index key m.indexes ≡ entry
        → IsIndexed m.indexes
        → IsGiven key.columns rows m (use_index u key rows sig entry m)
    use_index-IsGiven none m e h = store_index-IsGiven m h
    use_index-IsGiven (some (held, index)) m e h = elim (Bool-cases (same_signature held sig)) [
      | inl q ↦
          let same : index ≡ build_index u key.columns rows =
            h key held index e ∙ rw (same_signature-eq held sig q, kept) in
          rw q (record { gives = ap (λ (x : Index F). ok x) same; same_caches = refl; indexed = h })
      | inr q ↦ rw q (store_index-IsGiven m h)
    ]

  pub get_bm25-IsGiven :
      (path : String) (columns : List String) (rows : List Row) (sig : Signature) (variant : String)
      (m : Memory F)
      → rows ≡ filter (named variant) (content path sig)
      → IsIndexed m.indexes
      → IsGiven columns rows m (get_bm25 u path columns rows sig variant m)
  unfolding get_bm25
  get_bm25-IsGiven path columns rows sig variant m kept h =
      let key : Key = record { path = path; columns = columns; variant = variant } in
      use_index-IsGiven key sig rows kept (find_index key m.indexes) m refl h

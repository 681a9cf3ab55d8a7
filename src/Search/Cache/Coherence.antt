-- ===== src/Search/Cache/Coherence.antt =====
-- What the cache holds and what a load returns are the rows that belong to their signature.
use enterprise_angular_nest.Base.{
  Bool-cases, inl, inr, sym, ◌∙◌, ap, ◌==◌, eq_iff, ℕ, zero, suc, ◌+◌, true, String, Option, none,
  some, List, ◌≡◌, refl, arith,
}
use enterprise_angular_nest.Base.Dict.{lookup, insert, lookup-insert}
use enterprise_angular_nest.Search.Rows.{Row}
use mathlib.Core.Option.{some-injective}
use enterprise_angular_nest.Search.Cache.{
  Step, continue, use_cached, Signature, ReadError, Outcome, ok, err, Files, Caches, same_signature,
  attempt_read, load_csv_snapshot,
}

-- A file that has one signature just before and just after a read gave the rows that this signature
-- stands for.
pub record IsStable (files : Files) (content : String → Signature → List Row) : Type 0 where
  pub between :
      (path : String) (t : ℕ) (before after : Signature) (rows : List Row)
      → files.stat path t ≡ ok before
      → files.read path (t + 1) ≡ ok rows
      → files.stat path (t + 1 + 1) ≡ ok after
      → same_signature before after ≡ true
      → rows ≡ content path after

abbrev pub IsCoherent : (String → Signature → List Row) → Caches → Type 0
IsCoherent content s =
    (path : String) (sig : Signature) (rows : List Row)
    → lookup path s.rows ≡ some (sig, rows)
    → rows ≡ content path sig

-- A rule for each way that a step ends.
continue-rule :
    {A B : Type 0} (Q : Outcome B × Caches → Type 0) (r : Outcome A) (f : A → Step B) (s : Caches)
    → ((a : A) → r ≡ ok a → Q (f a s))
    → ((e : ReadError) → Q (err e, s))
    → Q (continue r f s)
continue-rule Q (ok a) f s h k = h a refl
continue-rule Q (err e) f s h k = k e

pub same_signature-eq : (a b : Signature) → same_signature a b ≡ true → a ≡ b
same_signature-eq a b h = ground arith

module _ (content : String → Signature → List Row) (path : String) where
  abbrev pub Returned : Outcome (List Row × Signature) → Type 0
  Returned (ok (rows, sig)) = rows ≡ content path sig
  Returned (err e) = Unit

  -- what a load leaves in the caches, and what it gives back
  abbrev pub IsLoaded : Outcome (List Row × Signature) × Caches → Type 0
  IsLoaded o = IsCoherent content o.1 × Returned o.0

module _ (files : Files) (content : String → Signature → List Row) (stable : IsStable files content)
    (path : String) where
  store-IsCoherent :
      (s : Caches) (sig : Signature) (rows : List Row)
      → rows ≡ content path sig
      → IsCoherent content s
      → IsCoherent content (record s { rows = insert path (sig, rows) s.rows })
  store-IsCoherent s sig rows e h p found held k = elim (Bool-cases (path == p)) [
    | inl q ↦ here ((eq_iff path p).0 q) (some-injective _ _ (sym (at_path q) ∙ k))
    | inr q ↦ h p found held (sym (lookup-insert path p (sig, rows) s.rows ∙ rw q) ∙ k)
  ]
    where
      at_path : (path == p) ≡ true → lookup p (insert path (sig, rows) s.rows) ≡ some (sig, rows)
      at_path q = lookup-insert path p (sig, rows) s.rows ∙ rw q

      here :
          path ≡ p
          → ◌≡◌ {A = Signature × List Row} (sig, rows) (found, held)
          → held ≡ content p found
      here same pair = cc (
        e,
        same,
        ap (λ (x : Signature × List Row). x.0) pair,
        ap (λ (x : Signature × List Row). x.1) pair,
      )

  attempt_read-IsLoaded :
      (attempts : ℕ) (s : Caches)
      → IsCoherent content s
      → IsLoaded content path (attempt_read files path attempts s)
  unfolding attempt_read
  attempt_read-IsLoaded zero s h = (h, tt)
  attempt_read-IsLoaded (suc n) s h =
      continue-rule (IsLoaded content path) (files.stat path s.time) _ _
        (λ before e1.
          continue-rule (IsLoaded content path) (files.read path (s.time + 1)) _ _
            (λ rows e2.
              continue-rule (IsLoaded content path) (files.stat path (s.time + 1 + 1)) _ _
                (λ after e3. elim (Bool-cases (same_signature before after)) [
                  | inl q ↦
                      let same = stable.between path s.time before after rows e1 e2 e3 q in
                      rw q (
                        store-IsCoherent (record s { time = s.time + 1 + 1 + 1 }) after rows same h,
                        same,
                      )
                  | inr q ↦
                      rw q (attempt_read-IsLoaded n (record s { time = s.time + 1 + 1 + 1 }) h)
                ])
                (λ e. (h, tt)))
            (λ e. (h, tt)))
        (λ e. (h, tt))

  use_cached-IsLoaded :
      (sig : Signature) (entry : Option (Signature × List Row)) (attempts : ℕ) (s : Caches)
      → lookup path s.rows ≡ entry
      → IsCoherent content s
      → IsLoaded content path (use_cached files path sig entry attempts s)
  use_cached-IsLoaded sig none attempts s e h = attempt_read-IsLoaded attempts s h
  use_cached-IsLoaded sig (some (cached, rows)) attempts s e h =
      elim (Bool-cases (same_signature cached sig)) [
        | inl q ↦
            rw q (h, h path cached rows e ∙ ap (content path) (same_signature-eq cached sig q))
        | inr q ↦ rw q (attempt_read-IsLoaded attempts s h)
      ]

  -- If a file that keeps its signature across a read gives the rows of that signature, then a load from
  -- coherent caches leaves them coherent, and the rows it returns are those of the signature it returns.
  pub load_csv_snapshot-IsLoaded :
      (attempts : ℕ) (s : Caches)
      → IsCoherent content s
      → IsLoaded content path (load_csv_snapshot files path attempts s)
  unfolding load_csv_snapshot
  load_csv_snapshot-IsLoaded attempts s h =
      continue-rule (IsLoaded content path) (files.stat path s.time) _ _
        (λ sig e.
          use_cached-IsLoaded sig (lookup path s.rows) attempts (record s { time = s.time + 1 })
            refl h)
        (λ e. (h, tt))

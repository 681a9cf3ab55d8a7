-- ===== src/Search/Memory/Calm.antt =====
-- Steps that keep the data cache coherent and leave the index cache alone.
use enterprise_angular_nest.Base.{ℕ, String, List, ◌≡◌, refl, ◌∙◌, ap, []}
use enterprise_angular_nest.Base.Floats.{Floats}
use enterprise_angular_nest.Search.Cache.{
  Files, Outcome, ReadError, Signature, ok, err, load_csv_snapshot,
}
use enterprise_angular_nest.Search.Cache.Coherence.{
  IsCoherent, IsStable, load_csv_snapshot-IsLoaded,
}
use enterprise_angular_nest.Search.Memory.{
  Act, Memory, then_act, ◌>>=◌, return, exists, file_signature, first_of, load_csv,
  load_rows_or_empty, or_rows,
}
use enterprise_angular_nest.Search.Rows.{Row}

-- A rule for each way that a step ends.
pub then_act-rule :
    {F : Floats} {A B : Type 0} (Q : Outcome B × Memory F → Type 0) (r : Outcome A)
    (f : A → Act F B) (m : Memory F)
    → ((a : A) → r ≡ ok a → Q (f a m))
    → ((e : ReadError) → r ≡ err e → Q (err e, m))
    → Q (then_act r f m)
then_act-rule Q (ok a) f m h k = h a refl
then_act-rule Q (err e) f m h k = k e refl

err-injective : {A : Type 0} (e d : ReadError) → ◌≡◌ {A = Outcome A} (err e) (err d) → e ≡ d
err-injective e d h = cc h

-- an error is that of a `stat`
abbrev pub IsRaised : Files → ReadError → Type 0
IsRaised files e = (path : String) × (t : ℕ) × (files.stat path t ≡ err e)

module _ {F : Floats} (files : Files) (content : String → Signature → List Row) where
  -- coherent rows, and the same indexes as before; and below, every error one of a `stat`
  abbrev pub IsStill : {A : Type 0} → Memory F → Outcome A × Memory F → Type 0
  IsStill m o = IsCoherent content o.1.caches × (o.1.indexes ≡ m.indexes)

  abbrev pub IsCalm : {A : Type 0} → Memory F → Outcome A × Memory F → Type 0
  IsCalm m o = IsStill m o × ((e : ReadError) → o.0 ≡ err e → IsRaised files e)

  abbrev pub Calm : {A : Type 0} → Act F A → Type 0
  Calm act = (m : Memory F) → IsCoherent content m.caches → IsCalm m (act m)

  pub bind-Calm :
      {A B : Type 0} (a : Act F A) (f : A → Act F B)
      → Calm a
      → ((x : A) → Calm (f x))
      → Calm (a >>= f)
  bind-Calm a f calm next m h =
      then_act-rule (IsCalm m) (a m).0 f (a m).1
        (λ x e.
          let after = next x (a m).1 (calm m h).0.0 in
          ((after.0.0, after.0.1 ∙ (calm m h).0.1), after.1))
        (λ e q. (
          (calm m h).0,
          λ d r. (calm m h).1 d (q ∙ ap (λ (x : ReadError). err x) (err-injective e d r)),
        ))

  pub return-Calm : {A : Type 0} (a : A) → Calm (return {F = F} a)
  return-Calm a m h = ((h, refl), λ e q. cc q)

  pub exists-Calm : (path : String) → Calm (exists {F = F} files path)
  exists-Calm path m h = ((h, refl), λ e q. cc q)

  pub file_signature-Calm : (path : String) → Calm (file_signature {F = F} files path)
  file_signature-Calm path m h = ((h, refl), λ e q. (path, m.caches.time, q))

module _ {F : Floats} (files : Files) (content : String → Signature → List Row)
    (stable : IsStable files content) where
  pub load_csv-IsStill :
      (path : String) (m : Memory F)
      → IsCoherent content m.caches
      → IsStill files content m (load_csv files path m)
  unfolding load_csv
  load_csv-IsStill path m h =
      let loaded = load_csv_snapshot-IsLoaded files content stable path 3 m.caches h in
      then_act-rule (IsStill files content m) (load_csv_snapshot files path 3 m.caches).0
        (first_of files) (record m { caches = (load_csv_snapshot files path 3 m.caches).1 })
        (λ a e. (loaded.0, refl)) (λ e q. (loaded.0, refl))

  pub load_rows_or_empty-Calm :
      (path : String) → Calm {F = F} files content (load_rows_or_empty files path)
  unfolding load_csv
  load_rows_or_empty-Calm path m h =
      (load_csv-IsStill path m h, λ e q. never e (load_csv files path m).0 q)
    where
      never : (e : ReadError) (r : Outcome (List Row)) → or_rows [] r ≡ err e → IsRaised files e
      never e (ok rows) q = cc q
      never e (err d) q = cc q

-- ===== src/Search/Cache/Reload.antt =====
-- When a load ends with rows, when it reads nothing, and when it gives up.
use enterprise_angular_nest.Base.{
  ℕ, zero, suc, ◌+◌, ◌*◌, true, false, String, none, some, List, ◌≡◌, arith, ap, ◌∙◌,
}
use enterprise_angular_nest.Base.Dict.{lookup, insert}
use enterprise_angular_nest.Search.Rows.{Row}
use enterprise_angular_nest.Search.Cache.{
  Signature, Outcome, ok, err, file_changed, Files, Caches, same_signature, attempt_read,
  load_csv_snapshot, continue, use_cached, Step,
}

same_signature_refl : (a : Signature) → same_signature a a ≡ true
same_signature_refl a = ground arith

continue-ok :
    {A B : Type 0} {r : Outcome A} {a : A} (f : A → Step B) (s : Caches)
    → r ≡ ok a
    → continue r f s ≡ f a s
continue-ok f s e = ap (λ o. continue o f s) e

-- the answer of a load that gives up at this time
abbrev given_up : Caches → ℕ → Outcome (List Row × Signature) × Caches
given_up s t = (err file_changed, record s { time = t })

module _ (files : Files) (path : String) where
  -- A load whose signature the cache holds costs one `stat`: it returns the cached rows, whatever a read
  -- would give now, and changes no cache.
  pub load-cached :
      (attempts : ℕ) (s : Caches) (sig : Signature) (rows : List Row)
      → files.stat path s.time ≡ ok sig
      → lookup path s.rows ≡ some (sig, rows)
      → load_csv_snapshot files path attempts s ≡ (ok (rows, sig), record s { time = s.time + 1 })
  unfolding load_csv_snapshot
  load-cached attempts s sig rows e found =
      continue-ok _ _ e
      ∙ ap (λ o. use_cached files path sig o attempts (record s { time = s.time + 1 })) found
      ∙ rw (same_signature_refl sig)

  -- A load of a file that is at rest and that the cache does not hold needs one attempt: it returns the
  -- file's rows and stores them.
  pub load_at_rest :
      (attempts : ℕ) (s : Caches) (sig : Signature) (rows : List Row)
      → ((t : ℕ) → files.stat path t ≡ ok sig)
      → ((t : ℕ) → files.read path t ≡ ok rows)
      → lookup path s.rows ≡ none
      → load_csv_snapshot files path (suc attempts) s ≡ (
        ok (rows, sig),
        record { time = s.time + 1 + 1 + 1 + 1; rows = insert path (sig, rows) s.rows },
      )
  unfolding load_csv_snapshot
  load_at_rest attempts s sig rows stat read absent =
      continue-ok _ _ (stat s.time)
      ∙ ap (λ o. use_cached files path sig o (suc attempts) (record s { time = s.time + 1 })) absent
      ∙ continue-ok _ _ (stat (s.time + 1))
      ∙ continue-ok _ _ (read (s.time + 1 + 1))
      ∙ continue-ok _ _ (stat (s.time + 1 + 1 + 1))
      ∙ rw (same_signature_refl sig)

  -- A file whose signature differs across every read is given up after the attempts, with an error; no
  -- cache is changed.
  pub attempt_read-changing :
      (sig : ℕ → Signature) (rows : ℕ → List Row)
      → ((t : ℕ) → files.stat path t ≡ ok (sig t))
      → ((t : ℕ) → files.read path t ≡ ok (rows t))
      → ((t : ℕ) → same_signature (sig t) (sig (t + 1 + 1)) ≡ false)
      → (attempts : ℕ) (s : Caches)
      → attempt_read files path attempts s
        ≡ (err file_changed, record s { time = s.time + 3 * attempts })
  unfolding attempt_read
  attempt_read-changing sig rows stat read changes zero s =
      let e : s.time ≡ s.time + 3 * 0 = omega arith in ap (given_up s) e
  attempt_read-changing sig rows stat read changes (suc n) s =
      continue-ok _ _ (stat s.time)
      ∙ continue-ok _ _ (read (s.time + 1))
      ∙ continue-ok _ _ (stat (s.time + 1 + 1))
      ∙ rw (changes s.time) (
          attempt_read-changing sig rows stat read changes n
            (record s { time = s.time + 1 + 1 + 1 })
          ∙ ap (given_up s) later)
    where
      later : s.time + 1 + 1 + 1 + 3 * n ≡ s.time + 3 * suc n
      later = omega arith

-- ===== src/Search/Cache.antt =====
-- The cache of data files: `_load_csv_snapshot`. A file may change at any time: `Files` says what
-- each call to the file system finds, by the time of the call.
pub mod Coherence
pub mod Reload
use enterprise_angular_nest.Base.{
  ℕ, zero, suc, ◌+◌, Bool, true, false, ◌&&◌, String, Option, none, some, List, [], ◌∷◌, eqb,
  if◌then◌else◌,
}
use enterprise_angular_nest.Base.Dict.{Dict, lookup, insert}
use enterprise_angular_nest.Search.Rows.{Row}

-- `(st_mtime_ns, st_size)`
pub record Signature : Type 0 where
  pub mtime_ns : ℕ
  pub size : ℕ

-- the errors of a read that the callers catch, the file that no stable read was made of, and a row
-- number that the rows do not have
pub data ReadError : Type 0 where
  csv_error os_error unicode_error file_changed index_error : ReadError

pub data Outcome {ℓ} (A : Type ℓ) : Type ℓ where
  ok : A → Outcome A
  err : ReadError → Outcome A

-- What a `stat` and a whole read of a path at a time give.
pub record Files : Type 0 where
  pub stat : String → ℕ → Outcome Signature
  pub read : String → ℕ → Outcome (List Row)

abbrev pub same_signature : Signature → Signature → Bool
same_signature a b = eqb a.mtime_ns b.mtime_ns && eqb a.size b.size

-- `_csv_cache`, and the time of the next call to the file system
pub record Caches : Type 0 where
  pub time : ℕ
  pub rows : Dict (Signature × List Row)

abbrev pub Step : Type 0 → Type 0
Step A = Caches → Outcome A × Caches

abbrev continue : {A B : Type 0} → Outcome A → (A → Step B) → Step B
continue (ok a) f s = f a s
continue (err e) f s = (err e, s)

infixl 5 ◌>>=◌
-- a step that may raise; what was stored before stays stored
abbrev pub ◌>>=◌ : {A B : Type 0} → Step A → (A → Step B) → Step B
◌>>=◌ m f s = let (r, t) = m s in continue r f t

module _ (files : Files) (path : String) where
  abbrev pub stat_file : Step Signature
  stat_file s = (files.stat path s.time, record s { time = s.time + 1 })

  abbrev pub read_file : Step (List Row)
  read_file s = (files.read path s.time, record s { time = s.time + 1 })

  abbrev pub store : Signature → List Row → Step (List Row × Signature)
  store sig rows s = (ok (rows, sig), record s { rows = insert path (sig, rows) s.rows })

  abbrev pub keep_or_retry :
      Signature → Signature → List Row → Step (List Row × Signature) → Step (List Row × Signature)
  keep_or_retry before after rows again s =
      let retried = again s in if same_signature before after then store after rows s else retried

  -- `for _ in range(attempts)`
  pub attempt_read : ℕ → Step (List Row × Signature)
  attempt_read zero s = (err file_changed, s)
  attempt_read (suc attempts) s =
      (do
        before ← stat_file
        rows ← read_file
        after ← stat_file
        keep_or_retry before after rows (attempt_read attempts))
        s

  abbrev pub use_cached :
      Signature → Option (Signature × List Row) → ℕ → Step (List Row × Signature)
  use_cached sig none attempts s = attempt_read attempts s
  use_cached sig (some (cached, rows)) attempts s =
      if same_signature cached sig then (ok (rows, sig), s) else attempt_read attempts s

  abbrev look_up : ℕ → Signature → Step (List Row × Signature)
  look_up attempts sig s = use_cached sig (lookup path s.rows) attempts s

  unfoldable pub load_csv_snapshot : ℕ → Step (List Row × Signature)
  unfolding attempt_read
  load_csv_snapshot attempts = stat_file >>= look_up attempts

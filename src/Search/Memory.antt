-- ===== src/Search/Memory.antt =====
-- The state of the search module: the data cache, the index cache and the keywords of the domains; and
-- its steps, which may raise.
pub mod Calm
use enterprise_angular_nest.Base.{◌+◌, Bool, true, false, String, Option, List, []}
use enterprise_angular_nest.Base.Dict.{Dict}
use enterprise_angular_nest.Base.Floats.{Floats}
use enterprise_angular_nest.Ranking.Index.{Index}
use enterprise_angular_nest.Search.Rows.{Row}
use enterprise_angular_nest.Search.Cache.{
  Caches, Files, Outcome, Signature, Step, err, load_csv_snapshot, ok, stat_file,
}

-- `(filepath, tuple(search_cols), _INDEX_VERSION, cache_variant)`, less the constant
pub record Key : Type 0 where
  pub path : String
  pub columns : List String
  pub variant : String

module _ (F : Floats) where
  -- `_csv_cache`, `_bm25_cache`, and `_DOMAIN_KEYWORDS` with its signature, which is none for a
  -- missing file. The last entry stored under a key stands first.
  pub record Memory : Type 0 where
    pub caches : Caches
    pub indexes : List (Key × (Signature × Index F))
    pub keywords : Option (Option Signature × Dict (List String))

  abbrev pub Act : Type 0 → Type 0
  Act A = Memory → Outcome A × Memory

abbrev pub or_rows : {A : Type 0} → A → Outcome A → Outcome A
or_rows a (ok b) = ok b
or_rows a (err e) = ok a

module _ {F : Floats} where
  abbrev pub return : {A : Type 0} → A → Act F A
  return a m = (ok a, m)

  abbrev pub then_act : {A B : Type 0} → Outcome A → (A → Act F B) → Act F B
  then_act (ok a) f m = f a m
  then_act (err e) f m = (err e, m)

  infixl 5 ◌>>=◌
  abbrev pub ◌>>=◌ : {A B : Type 0} → Act F A → (A → Act F B) → Act F B
  ◌>>=◌ a f m = let (r, n) = a m in then_act r f n

  -- a step of the data cache
  abbrev pub on_caches : {A : Type 0} → Step A → Act F A
  on_caches step m = let (r, c) = step m.caches in (r, record m { caches = c })

  -- `try: ... except: a`
  abbrev pub or_else : {A : Type 0} → A → Act F A → Act F A
  or_else a act m = let (r, n) = act m in (or_rows a r, n)

abbrev pub is_ok : {A : Type 0} → Outcome A → Bool
is_ok (ok a) = true
is_ok (err e) = false

module _ {F : Floats} (files : Files) where
  -- `path.exists()`: whether a `stat` succeeds
  abbrev pub exists : String → Act F Bool
  exists path m = (
    ok (is_ok (files.stat path m.caches.time)),
    record m { caches = record m.caches { time = m.caches.time + 1 } },
  )

  -- `_file_signature`
  abbrev pub file_signature : String → Act F Signature
  file_signature path = on_caches (stat_file files path)

  abbrev pub first_of : List Row × Signature → Act F (List Row)
  first_of loaded = return loaded.0

  -- `_load_csv`
  unfoldable pub load_csv : String → Act F (List Row)
  unfolding load_csv_snapshot
  load_csv path = on_caches (load_csv_snapshot files path 3) >>= first_of

  -- `_load_rows_or_empty`
  abbrev pub load_rows_or_empty : String → Act F (List Row)
  load_rows_or_empty path = or_else [] (load_csv path)

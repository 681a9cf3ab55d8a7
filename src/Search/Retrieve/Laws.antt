-- ===== src/Search/Retrieve/Laws.antt =====
-- A search from well-formed caches answers as one with an index made for it.
use enterprise_angular_nest.Base.{
  String, none, List, [], ◌∷◌, ◌≡◌, refl, ◌∙◌, Bool, true, false, filter, ◌+◌,
}
use enterprise_angular_nest.Base.Floats.{Floats}
use enterprise_angular_nest.Base.Text.{Unicode}
use enterprise_angular_nest.Ranking.Index.{Index}
use enterprise_angular_nest.Search.Cache.{
  Files, Outcome, ReadError, Signature, ok, err, load_csv_snapshot,
}
use enterprise_angular_nest.Search.Cache.Coherence.{Returned, IsStable, load_csv_snapshot-IsLoaded}
use enterprise_angular_nest.Search.Diagnostics.{Diagnostic, Retrieved, only_reason, read_failed}
use enterprise_angular_nest.Search.Memory.{Memory}
use enterprise_angular_nest.Search.Memory.Calm.{IsRaised, then_act-rule}
use enterprise_angular_nest.Search.Retrieve
use enterprise_angular_nest.Search.Retrieve.{
  Request, answer, build_index, get_bm25, search_csv_detailed,
}
use enterprise_angular_nest.Search.Retrieve.Inside.{IsAnswer, answer-IsAnswer}
use enterprise_angular_nest.Search.Retrieve.Indexes.{IsWell, get_bm25-IsGiven}
use enterprise_angular_nest.Search.Routing.{rewrite_query_for_domain}
use enterprise_angular_nest.Search.Routing.Calm.{rewrite_query_for_domain-Calm}
use enterprise_angular_nest.Search.Rows.{Row}

filter-agree :
    (p q : Row → Bool) (rows : List Row)
    → ((row : Row) → p row ≡ q row)
    → filter p rows ≡ filter q rows
filter-agree p q [] h = refl
filter-agree p q (row ∷ rows) h = rw (h row, filter-agree p q rows h)

module _ {F : Floats} (files : Files) (u : Unicode) (content : String → Signature → List Row)
    (named : String → Row → Bool) (path : String) (q : Request F) where
  -- the rows that a search at a signature is about
  abbrev pub rows_at : Signature → List Row
  rows_at sig = filter (named q.cache_variant) (content path sig)

  -- What a search gives: nothing, the error of a `stat`, or the answer from an index made for the rows.
  pub data IsRetrieved (o : Outcome (Retrieved F)) : Type 0 where
    nothing : (r : Retrieved F) → o ≡ ok r → r.results ≡ [] → r.index ≡ none → IsRetrieved o
    raised : (e : ReadError) → o ≡ err e → IsRaised files e → IsRetrieved o
    answered :
        (sig : Signature) (rewritten : String × List String)
        → o
          ≡ answer u
              (rows_at sig)
              q.output_cols
              q.query
              q.max_results
              q.threshold
              (build_index u q.search_cols (rows_at sig))
              rewritten
        → IsAnswer F
            (rows_at sig)
            q.output_cols
            q.max_results
            (build_index u q.search_cols (rows_at sig))
            o
        → IsRetrieved o

  abbrev pub IsSearched : Outcome (Retrieved F) × Memory F → Type 0
  IsSearched o = IsWell u content named o.1 × IsRetrieved o.0

module _ {F : Floats} (files : Files) (u : Unicode) (order : List String → List String)
    (path_of : String → String) (content : String → Signature → List Row)
    (stable : IsStable files content) (named : String → Row → Bool) (file : String) (q : Request F)
    (agree : (row : Row) → q.row_filter row ≡ named q.cache_variant row) where
  abbrev Searched : Outcome (Retrieved F) × Memory F → Type 0
  Searched = IsSearched files u content named (path_of file) q

  nothing_found-Searched :
      (d : Diagnostic F) (m : Memory F)
      → IsWell u content named m
      → Searched (Retrieve.nothing_found files u order path_of file q d m)
  nothing_found-Searched d m h = (h, nothing _ refl refl refl)

  finish-Searched :
      (sig : Signature) (rows : List Row) (index : Index F) (rewritten : String × List String)
      (m : Memory F)
      → rows ≡ rows_at files u content named (path_of file) q sig
      → index ≡ build_index u q.search_cols rows
      → IsWell u content named m
      → Searched (Retrieve.finish files u order path_of file q rows index rewritten m)
  finish-Searched sig rows index rewritten m e i h = (
    h,
    answered sig rewritten (rw (i, e)) (
        rw (i, e)
          (answer-IsAnswer F u (rows_at files u content named (path_of file) q sig) q.search_cols
            q.output_cols q.query q.max_results q.threshold rewritten)),
  )

  rank_with-Searched :
      (sig : Signature) (rows : List Row) (index : Index F) (m : Memory F)
      → rows ≡ rows_at files u content named (path_of file) q sig
      → index ≡ build_index u q.search_cols rows
      → IsWell u content named m
      → Searched (Retrieve.rank_with files u order path_of file q rows index m)
  rank_with-Searched sig rows index m e i h =
      let calm =
        rewrite_query_for_domain-Calm files u order path_of content stable q.query q.routing_domain
          index m h.0 in
      let after = rewrite_query_for_domain files u order path_of q.query q.routing_domain index m in
      let well : IsWell u content named after.1 = (calm.0.0, rw calm.0.1 h.1) in
      then_act-rule Searched after.0 (Retrieve.finish files u order path_of file q rows index)
        after.1 (λ rewritten found. finish-Searched sig rows index rewritten after.1 e i well)
        (λ x found. (well, raised x refl (calm.1 x found)))

  rank_rows-Searched :
      (sig : Signature) (rows : List Row) (m : Memory F)
      → rows ≡ rows_at files u content named (path_of file) q sig
      → IsWell u content named m
      → Searched (Retrieve.rank_rows files u order path_of file q sig rows m)
  rank_rows-Searched sig [] m e h = nothing_found-Searched (only_reason F "empty-data") m h
  rank_rows-Searched sig (row ∷ rows) m e h =
      let given =
        get_bm25-IsGiven u content named (path_of file) q.search_cols (row ∷ rows) sig
          q.cache_variant m e h.1 in
      let after = get_bm25 u (path_of file) q.search_cols (row ∷ rows) sig q.cache_variant m in
      let well : IsWell u content named after.1 = (rw given.same_caches h.0, given.indexed) in
      rw given.gives (
        rank_with-Searched sig (row ∷ rows) (build_index u q.search_cols (row ∷ rows)) after.1 e
          refl well)

  read_rows-Searched :
      (loaded : Outcome (List Row × Signature)) (m : Memory F)
      → IsWell u content named m
      → ((rows : List Row) (sig : Signature)
          → loaded ≡ ok (rows, sig)
          → rows ≡ content (path_of file) sig)
      → Searched (Retrieve.read_rows files u order path_of file q loaded m)
  read_rows-Searched (err e) m h given = nothing_found-Searched (read_failed F file) m h
  read_rows-Searched (ok (rows, sig)) m h given =
      rank_rows-Searched sig (filter q.row_filter rows) m
        (filter-agree q.row_filter (named q.cache_variant) rows agree ∙ rw (given rows sig refl)) h

  retrieve_if-Searched :
      (found : Bool) (m : Memory F)
      → IsWell u content named m
      → Searched (Retrieve.retrieve_if files u order path_of file q found m)
  retrieve_if-Searched false m h = nothing_found-Searched (only_reason F "missing-file") m h
  retrieve_if-Searched true m h =
      let loaded = load_csv_snapshot files (path_of file) 3 m.caches in
      let from = load_csv_snapshot-IsLoaded files content stable (path_of file) 3 m.caches h.0 in
      read_rows-Searched loaded.0 (record m { caches = loaded.1 }) (from.0, h.1)
        (λ rows sig e. returned rows sig loaded.0 e from.1)
    where
      returned :
          (rows : List Row) (sig : Signature) (o : Outcome (List Row × Signature))
          → o ≡ ok (rows, sig)
          → Returned content (path_of file) o
          → rows ≡ content (path_of file) sig
      returned rows sig (ok (r, s)) e k = cc (e, k)
      returned rows sig (err x) e k = cc e

  -- If a file that keeps its signature across a read gives the rows of that signature, and the filter of
  -- the request is the one that its cache variant names, then a search from well-formed caches leaves them
  -- well-formed; and it finds nothing, raises the error of a `stat`, or answers as with an index fitted
  -- for the rows of one signature of the file, with at most `max_results` of these rows, projected, and
  -- never with an `IndexError`.
  pub search_csv_detailed-IsSearched :
      (m : Memory F)
      → IsWell u content named m
      → IsSearched files u content named
          (path_of file)
          q
          (search_csv_detailed files u order path_of file q m)
  unfolding search_csv_detailed
  search_csv_detailed-IsSearched m h =
      retrieve_if-Searched _ (record m { caches = record m.caches { time = m.caches.time + 1 } }) h

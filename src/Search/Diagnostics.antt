-- ===== src/Search/Diagnostics.antt =====
-- What `_search_csv_detailed` returns, and its test of the scores against the threshold.
use enterprise_angular_nest.Base.{
  ℕ, Bool, not, ◌&&◌, ◌||◌, String, Option, none, some, List, [], ◌∷◌,
}
use enterprise_angular_nest.Base.Floats.{Floats}
use enterprise_angular_nest.Ranking.Index.{Index, score}
use enterprise_angular_nest.Search.Cache.{}
use enterprise_angular_nest.Search.Rows.{Row}
use enterprise_angular_nest.Search.Threshold.{Threshold}

module _ (F : Floats) where
  open F use {Float, of_nat, sub, div, lt}

  -- what a diagnostic says of the scores
  pub record Scores : Type 0 where
    pub top_score : Float
    pub runner_up_score : Float
    pub margin : Float
    pub token_coverage : Float

  -- the query as it is normalized, as it is searched, its rewrites, and the version of the calibration
  pub record Queries : Type 0 where
    pub normalized_query : String
    pub search_query : String
    pub query_rewrites : List String
    pub calibration_version : String

  -- The dictionary of the diagnostics; none is a key that is not there.
  pub record Diagnostic : Type 0 where
    pub reason : String
    pub abstained : Option Bool
    pub error : Option String
    pub queries : Option Queries
    pub scores : Option Scores

  abbrev pub only_reason : String → Diagnostic
  only_reason reason = record {
    reason = reason;
    abstained = none;
    error = none;
    queries = none;
    scores = none;
  }

  abbrev pub read_failed : String → Diagnostic
  read_failed file = record (only_reason "read-error") { error = some file }

  -- what `_search_csv_detailed` returns
  pub record Retrieved : Type 0 where
    pub results : List Row
    pub index : Option (Index F)
    pub diagnostic : Diagnostic

  abbrev pub top_of : List (ℕ × Float) → Float
  top_of [] = of_nat 0
  top_of ((i, score) ∷ ranked) = score

  abbrev pub runner_up_score_of : List (ℕ × Float) → Float
  runner_up_score_of [] = of_nat 0
  runner_up_score_of (best ∷ ranked) = top_of ranked

  -- `abstain`
  abbrev pub abstains : Threshold F → List (ℕ × Float) → Float → Bool
  abstains t ranked coverage =
      not (lt t.min_score (top_of ranked))
      || lt coverage t.min_coverage
      || (lt (of_nat 0) t.min_margin
          && lt (sub (top_of ranked) (runner_up_score_of ranked)) t.min_margin)

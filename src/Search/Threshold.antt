-- ===== src/Search/Threshold.antt =====
-- The score thresholds of the design search: `_SEARCH_THRESHOLDS`, `_STACK_THRESHOLD` and `_NO_THRESHOLD`.
use enterprise_angular_nest.Base.{String, [], ◌∷◌, ℕ, ◌==◌, if◌then◌else◌}
use enterprise_angular_nest.Base.Dict
use enterprise_angular_nest.Base.Dict.{Dict}
use enterprise_angular_nest.Base.Floats.{Floats}

-- Which scores count as an answer.
module _ (F : Floats) where
  open F use {Float, of_nat, div}

  pub record Threshold : Type 0 where
    pub min_score : Float
    pub min_margin : Float
    pub min_coverage : Float

  -- a decimal with one digit behind the point
  abbrev tenths : ℕ → Float
  tenths n = div (of_nat n) (of_nat 10)

  abbrev pub domain_score_floors : Dict Float
  domain_score_floors =
      ("style", tenths 43)
      ∷ ("landing", tenths 40)
      ∷ ("product", tenths 60)
      ∷ ("icons", tenths 58)
      ∷ ("react", tenths 33)
      ∷ []

  -- the entry of `_SEARCH_THRESHOLDS` for a domain
  abbrev pub search_threshold : String → Threshold
  search_threshold domain = record {
    min_score = Dict.get_or (of_nat 0) domain domain_score_floors;
    min_margin = of_nat 0;
    min_coverage = if domain == "landing" then tenths 5 else of_nat 0;
  }

  abbrev pub stack_threshold : Threshold
  stack_threshold = record {
    min_score = tenths 36;
    min_margin = of_nat 0;
    min_coverage = div (of_nat 1) (of_nat 3);
  }

  abbrev pub no_threshold : Threshold
  no_threshold = record { min_score = of_nat 0; min_margin = of_nat 0; min_coverage = of_nat 0 }

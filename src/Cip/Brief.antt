-- ===== src/Cip/Brief.antt =====
-- `get_cip_brief`
use enterprise_angular_nest.Base.{String, Option, none, some, List, [], ◌∷◌, take, if◌then◌else◌}
use text.Mathlib.Text.{◌==◌}
use enterprise_angular_nest.Base.Text.{Unicode, split}
use enterprise_angular_nest.Base.Floats.{Floats}
use enterprise_angular_nest.Search.Rows.{Row, cell}
use enterprise_angular_nest.Keyword.Lookup.{Tables, Answer}
use enterprise_angular_nest.Keyword.Domains.{results_of}
use enterprise_angular_nest.Cip.Search

-- the returned dictionary, with the two colours of `color_system`
pub record Brief : Type 0 where
  pub brand_name : String
  pub industry : Row
  pub style : Row
  pub recommended_deliverables : List Row
  pub primary : String
  pub secondary : String
  pub typography : String
  pub materials : String
  pub finishes : String

abbrev pub first_row : List Row → Row
first_row [] = []
first_row (row ∷ rows) = row

abbrev pub first_result : Option Answer → Option Row
first_result none = none
first_result (some answer) = some (first_row (results_of answer))

-- `style_query or industry.get("CIP Style", "corporate minimal")`
abbrev pub style_query_of : Option String → Row → String
style_query_of none industry = cell "corporate minimal" "CIP Style" industry
style_query_of (some query) industry =
    if query == "" then cell "corporate minimal" "CIP Style" industry else query

infixl 5 ◌>>=◌
-- `none` is an exception, which stops the code after it
abbrev ◌>>=◌ : {V W : Type 0} → Option V → (V → Option W) → Option W
none >>= next = none
some value >>= next = next value

module _ (F : Floats) (u : Unicode) (tables : Tables) where
  abbrev pub first_found : String → String → Option Row
  first_found query domain = first_result (Search.search F u tables query (some domain) 1)

  -- `deliverable_results.append(result["results"][0])`
  abbrev pub add_deliverable : Option Answer → Option (List Row) → Option (List Row)
  add_deliverable none rest = none
  add_deliverable answer none = none
  add_deliverable (some answer) (some rest) = some (prepend (results_of answer) rest)
    where
      prepend : List Row → List Row → List Row
      prepend [] rest = rest
      prepend (row ∷ rows) rest = row ∷ rest

  abbrev pub deliverables : List String → Option (List Row)
  deliverables [] = some []
  deliverables (query ∷ queries) =
      add_deliverable (Search.search F u tables query (some "deliverable") 1) (deliverables queries)

  abbrev pub brief_of : String → Row → Row → List Row → Brief
  brief_of brand industry style rows = record {
    brand_name = brand;
    industry = industry;
    style = style;
    recommended_deliverables = rows;
    primary = cell (cell "" "Primary Colors" industry) "Primary Colors" style;
    secondary = cell (cell "" "Secondary Colors" industry) "Secondary Colors" style;
    typography = cell (cell "" "Typography" industry) "Typography" style;
    materials = cell "" "Materials" style;
    finishes = cell "" "Finishes" style;
  }

  unfoldable pub get_cip_brief : String → String → Option String → Option Brief
  get_cip_brief brand_name industry_query style_query = do
    industry ← first_found industry_query "industry"
    style ← first_found (style_query_of style_query industry) "style"
    rows ← deliverables (take 5 (split u.is_space (cell "" "Key Deliverables" industry)))
    some (brief_of brand_name industry style rows)

-- ===== src/Search/Rows.antt =====
-- Rows of a data file, and what the search reads of them.
pub mod Laws
use enterprise_angular_nest.Base.{String, List, [], ◌∷◌, if◌then◌else◌}
use enterprise_angular_nest.Base.Dict
use enterprise_angular_nest.Base.Dict.{Dict, has, insert}

abbrev pub Row : Type 0
Row = Dict String

-- `row.get(column, default)`
abbrev pub cell : String → String → Row → String
cell default column row = Dict.get_or default column row

abbrev pub text_of : String → Row → String
text_of column row = cell "" column row

-- `_project_row`
unfoldable pub project_row : Row → List String → Row
project_row row [] = []
project_row row (column ∷ columns) =
    let rest = project_row row columns in
    if has column row then (column, text_of column row) ∷ rest else rest

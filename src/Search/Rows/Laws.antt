-- ===== src/Search/Rows/Laws.antt =====
-- What a projection keeps of a row.
use enterprise_angular_nest.Base.{
  true, false, String, ◌==◌, eq_iff, List, [], ◌∷◌, ◌≡◌, refl, ◌∙◌, sym, arith, Bool-cases, inl,
  inr,
}
use enterprise_angular_nest.Base.Dict
use enterprise_angular_nest.Base.Dict.{has}
use enterprise_angular_nest.Base.Text.{contains}
use enterprise_angular_nest.Search.Rows.{Row, project_row}

project_row-absent :
    (default column : String) (row : Row) (columns : List String)
    → has column row ≡ false
    → Dict.get_or default column (project_row row columns) ≡ default
unfolding project_row
project_row-absent default column row [] h = refl
project_row-absent default column row (c ∷ cs) h =
    ground (arith, eq_iff c column, project_row-absent default column row cs h)

get_or-absent :
    (default column : String) (row : Row)
    → has column row ≡ false
    → Dict.get_or default column row ≡ default
get_or-absent default column [] h = refl
get_or-absent default column ((c, text) ∷ row) h = ground (arith, get_or-absent default column row)

get_or-has :
    (default other column : String) (row : Row)
    → has column row ≡ true
    → Dict.get_or default column row ≡ Dict.get_or other column row
get_or-has default other column [] h = cc h
get_or-has default other column ((c, text) ∷ row) h =
    ground (arith, get_or-has default other column row)

contains-tail :
    (c column : String) (cs : List String)
    → contains (c ∷ cs) column ≡ true
    → (c == column) ≡ false
    → contains cs column ≡ true
contains-tail c column cs h q = ground (arith, eq_iff c column, eq_iff column c)

-- A projection keeps what the row has in a column of the projection.
pub get_or-project_row :
    (default column : String) (row : Row) (columns : List String)
    → contains columns column ≡ true
    → Dict.get_or default column (project_row row columns) ≡ Dict.get_or default column row
unfolding project_row
get_or-project_row default column row [] h = cc h
get_or-project_row default column row (c ∷ cs) h = elim (Bool-cases (has c row)) [
  | inl e ↦ elim (Bool-cases (c == column)) [
    | inl q ↦
        let same = (eq_iff c column).0 q in
        rw (e, q) (rw same (get_or-has "" default column row (rw (sym same) e)))
    | inr q ↦ rw (e, q) (get_or-project_row default column row cs (contains-tail c column cs h q))
  ]
  | inr e ↦ elim (Bool-cases (c == column)) [
    | inl q ↦
        let gone : has column row ≡ false = rw (sym ((eq_iff c column).0 q)) e in
        rw e (
          project_row-absent default column row cs gone
          ∙ sym (get_or-absent default column row gone))
    | inr q ↦ rw e (get_or-project_row default column row cs (contains-tail c column cs h q))
  ]
]

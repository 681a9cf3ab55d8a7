-- ===== src/Slides/Decisions/Laws.antt =====
-- What the decision tables answer.
use enterprise_angular_nest.Base.{
  Bool, true, false, String, Option, none, some, List, [], ◌∷◌, if◌then◌else◌, ◌≡◌, refl, ◌∙◌, ap,
  sym,
}
use text.Mathlib.Text.{◌==◌}
use enterprise_angular_nest.Base.Dict.{Dict, lookup, lookup-insert}
use enterprise_angular_nest.Search.Rows.{Row}
use enterprise_angular_nest.Keyword.Lookup.{Tables}
use enterprise_angular_nest.Slides.Decisions.{
  add_row, key_rows, keyed, load_decision_csv, load_config, decision_config, is_text,
}

abbrev or_else : {A : Type 0} → Option A → Option A → Option A
or_else none o = o
or_else (some a) o = some a

-- the last row whose cell in the column is the key
abbrev last_with : String → String → List Row → Option Row
last_with column key [] = none
last_with column key (row ∷ rows) =
    or_else (last_with column key rows) (if is_text key (lookup column row) then some row else none)

or_else_assoc : {A : Type 0} (a b c : Option A) → or_else (or_else a b) c ≡ or_else a (or_else b c)
or_else_assoc none b c = refl
or_else_assoc (some a) b c = refl

lookup-add_row :
    (column key : String) (row : Row) (table : Dict Row) (cell : Option String)
    → lookup key (add_row column row table cell)
      ≡ or_else (if is_text key cell then some row else none) (lookup key table)
lookup-add_row column key row table none = refl
lookup-add_row column key row table (some value) =
    lookup-insert value key row table ∙ by_test (value == key)
  where
    by_test :
        (b : Bool)
        → (if b then some row else lookup key table)
          ≡ or_else (if b then some row else none) (lookup key table)
    by_test true = refl
    by_test false = refl

lookup-key_rows :
    (column key : String) (table : Dict Row) (rows : List Row)
    → lookup key (key_rows column table rows)
      ≡ or_else (last_with column key rows) (lookup key table)
lookup-key_rows column key table [] = refl
lookup-key_rows column key table (row ∷ rows) =
    lookup-key_rows column key (add_row column row table (lookup column row)) rows
    ∙ ap (or_else (last_with column key rows))
        (lookup-add_row column key row table (lookup column row))
    ∙ sym (
        or_else_assoc (last_with column key rows)
          (if is_text key (lookup column row) then some row else none) (lookup key table))

or_else-none : {A : Type 0} (o : Option A) → or_else o none ≡ o
or_else-none none = refl
or_else-none (some a) = refl

-- the row that the rows of a file give for a key
abbrev pub last_in : String → String → Option (List Row) → Option Row
last_in column key none = none
last_in column key (some rows) = last_with column key rows

lookup-keyed :
    (column key : String) (rows : Option (List Row))
    → lookup key (keyed column rows) ≡ last_in column key rows
lookup-keyed column key none = refl
lookup-keyed column key (some rows) =
    lookup-key_rows column key [] rows ∙ or_else-none (last_with column key rows)

-- A decision table of the configuration answers a key with the last row of its file that has the key in
-- the key column, and with nothing when the file is missing or no row has it.
pub load_decision_csv-last :
    (tables : Tables) (csv_type key file column : String)
    → lookup csv_type decision_config ≡ some (file, column)
    → lookup key (load_decision_csv tables csv_type) ≡ last_in column key (tables file)
unfolding load_decision_csv
load_decision_csv-last tables csv_type key file column e =
    ap (λ c. lookup key (load_config tables c)) e ∙ lookup-keyed column key (tables file)

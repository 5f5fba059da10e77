-- ===== src/Reference.antt =====
-- What a reference cell shows, ui/src/lib/referenceLookup.ts. JSON and the workspace handle are
-- parameters.
mod Tests
use secure_collab_app.Prelude.{
  ◌≡◌, refl, Bool, true, false, not, ◌==◌, String, Option, none, some, List, [], ◌∷◌, if◌then◌else◌,
  any, map, find, is_empty, Bool-cases, Option-cases, inl, inr, arith,
}
use secure_collab_app.Exec.{Result, ok, err}
use secure_collab_app.Assoc.{map_get}

pub record ReferenceRecord : Type 0 where
  pub id : String
  pub label : String

-- The value of a cell: null, or else its `String(...)`.
pub data Cell : Type 0 where
  null : Cell
  shown : String → Cell

abbrev pub Row : Type 0
Row = List (String × Cell)

pub record Column : Type 0 where
  pub id : String
  pub column_type : String

pub record WorkspaceLike : Type 0 where
  pub get_table_rows : String → Result String
  pub get_table_schema : String → Result String
  pub parse_rows : String → Result (List Row)
  pub parse_columns : String → Result (List Column)

abbrev text_of_cell : Option Cell → String
text_of_cell none = "undefined"
text_of_cell (some null) = "null"
text_of_cell (some (shown s)) = s

abbrev pub row_id : Row → String
row_id r = text_of_cell (map_get "_row_id" r)

abbrev and_then : {A B : Type 0} → Result A → (A → Result B) → Result B
and_then (err e) f = err e
and_then (ok a) f = f a

abbrev first_text : Result (List Column) → Option String
first_text (err e) = none
first_text (ok cols) = elim (find (λ (c : Column). c.column_type == "text") cols) [
  | none ↦ none
  | some c ↦ some c.id
]

abbrev truthy : Option String → Option String
truthy none = none
truthy (some s) = if is_empty s then none else some s

abbrev label_column : WorkspaceLike → String → Option String → Option String
label_column ws table_id display_column = elim (truthy display_column) [
  | some id ↦ some id
  | none ↦ truthy (first_text (and_then (ws.get_table_schema table_id) ws.parse_columns))
]

abbrev label_or : String → Option Cell → String
label_or id none = id
label_or id (some null) = id
label_or id (some (shown s)) = if is_empty s then id else s

abbrev to_record : Option String → Row → ReferenceRecord
to_record none r = record { id = row_id r; label = row_id r }
to_record (some column) r = record { id = row_id r; label = label_or (row_id r) (map_get column r) }

abbrev pub rows_of : WorkspaceLike → String → Result (List Row)
rows_of ws table_id = and_then (ws.get_table_rows table_id) ws.parse_rows

unfoldable pub make_reference_lookup :
    Option WorkspaceLike → String → Option String → List ReferenceRecord
make_reference_lookup none table_id display_column = []
make_reference_lookup (some ws) table_id display_column = elim (rows_of ws table_id) [
  | err e ↦ []
  | ok rows ↦ map (to_record (label_column ws table_id display_column)) rows
]

pub record ReferenceLabel : Type 0 where
  pub label : String
  pub dangling : Bool

abbrev labelled : String → Option ReferenceRecord → ReferenceLabel
labelled id none = record { label = id; dangling = true }
labelled id (some hit) = record { label = hit.label; dangling = false }

unfoldable pub reference_label : Option (List ReferenceRecord) → String → ReferenceLabel
reference_label none id = labelled id none
reference_label (some records) id = labelled id (find (λ (r : ReferenceRecord). r.id == id) records)

to_record-id : (column : Option String) (r : Row) → (to_record column r).id ≡ row_id r
to_record-id none r = refl
to_record-id (some c) r = refl

labelled-dangling :
    (column : Option String) (rows : List Row) (id : String)
    → (labelled id
        (find (λ (r : ReferenceRecord). r.id == id) (map (to_record column) rows))).dangling
      ≡ not (any (λ r. row_id r == id) rows)
labelled-dangling column [] id = refl
labelled-dangling column (r ∷ rows) id = elim (Bool-cases (row_id r == id)) [
  | inl e ↦ rw (to_record-id column r, e) refl
  | inr e ↦ rw (to_record-id column r, e) (labelled-dangling column rows id)
]

-- Where a table's rows can be read, a reference is shown as dangling if and only if no row of the
-- table has its id, whichever column gives the labels.
pub reference_label-dangling :
    (ws : WorkspaceLike) (table_id : String) (display_column : Option String) (id : String)
    (rows : List Row)
    → rows_of ws table_id ≡ ok rows
    → (reference_label (some (make_reference_lookup (some ws) table_id display_column)) id).dangling
      ≡ not (any (λ r. row_id r == id) rows)
unfolding reference_label make_reference_lookup
reference_label-dangling ws table_id display_column id rows e =
    rw (e, make_reference_lookup)
      (labelled-dangling (label_column ws table_id display_column) rows id)

-- ===== src/Reference/Tests.antt =====
-- The theorem about ui/src/lib/referenceLookup.ts at a table of two rows.
use secure_collab_app.Prelude.{◌≡◌, refl, none, some, List, [], ◌∷◌}
use secure_collab_app.Exec.{ok}
use secure_collab_app.Assoc.{map_get}
use secure_collab_app.Reference.{Row, WorkspaceLike, shown, make_reference_lookup, reference_label}

abbrev rows : List Row
rows =
    (("_row_id", shown "r1") ∷ ("name", shown "Ann") ∷ [])
    ∷ (("_row_id", shown "r2") ∷ ("name", shown "") ∷ [])
    ∷ []

abbrev handle : WorkspaceLike
handle = record {
  get_table_rows = λ t. ok "rows";
  get_table_schema = λ t. ok "schema";
  parse_rows = λ s. ok rows;
  parse_columns = λ s. ok (record { id = "name"; column_type = "text" } ∷ []);
}

labels :
    ((reference_label (some (make_reference_lookup (some handle) "t" none)) "r1").label ≡ "Ann")
    × ((reference_label (some (make_reference_lookup (some handle) "t" none)) "r2").label ≡ "r2")
unfolding reference_label make_reference_lookup map_get
labels = (refl, refl)

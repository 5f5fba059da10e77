-- ===== src/Kanban/Tests.antt =====
-- The theorem about ui/src/views/kanban/kanbanUtils.ts at a board of two columns.
use secure_collab_app.Prelude.{◌≡◌, refl, String, none, some, List, [], ◌∷◌}
use secure_collab_app.Kanban.{
  KanbanCard, KanbanColumn, resolve_target_column, IsTarget, resolve_target_column-IsTarget,
}

abbrev card : String → KanbanCard
card id = record { id = id; title = "" }

abbrev board : List KanbanColumn
board =
    record { id = "Open"; title = "Open"; cards = card "r1" ∷ [] }
    ∷ record { id = "Done"; title = "Done"; cards = card "r2" ∷ card "r3" ∷ [] }
    ∷ []

targets :
    (resolve_target_column "Done" board ≡ some "Done")
    × (resolve_target_column "r3" board ≡ some "Done")
    × (resolve_target_column "r4" board ≡ none)
unfolding resolve_target_column
targets = (refl, refl, refl)

resolve_target_column-IsTarget_example : IsTarget "r3" board (resolve_target_column "r3" board)
resolve_target_column-IsTarget_example = resolve_target_column-IsTarget "r3" board

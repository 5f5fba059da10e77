-- ===== src/Kanban.antt =====
-- Where a card is dropped, ui/src/views/kanban/kanbanUtils.ts.
mod Tests
use secure_collab_app.Prelude.{
  ◌≡◌, refl, Bool, true, false, ◌==◌, String, Option, none, some, List, [], ◌∷◌, if◌then◌else◌, any,
  Bool-cases, inl, inr, arith, ◌&&◌, ◌||◌, eq_iff,
}

pub record KanbanCard : Type 0 where
  pub id : String
  pub title : String

pub record KanbanColumn : Type 0 where
  pub id : String
  pub title : String
  pub cards : List KanbanCard

abbrev is_column : String → List KanbanColumn → Bool
is_column over columns = any (λ (col : KanbanColumn). col.id == over) columns

abbrev holds : String → KanbanColumn → Bool
holds over col = any (λ (card : KanbanCard). card.id == over) col.cards

column_of_card : String → List KanbanColumn → Option String
column_of_card over [] = none
column_of_card over (col ∷ cols) =
    let rest = column_of_card over cols in if holds over col then some col.id else rest

unfoldable pub resolve_target_column : String → List KanbanColumn → Option String
unfolding column_of_card
resolve_target_column over columns =
    if is_column over columns then some over else column_of_card over columns

-- A target is the id of a column, and that column is what the pointer is over or it holds the card
-- that the pointer is over. There is no target only if the pointer is over no column and no card.
abbrev pub IsTarget : String → List KanbanColumn → Option String → Type 0
IsTarget over columns none = (is_column over columns ≡ false) × (any (holds over) columns ≡ false)
IsTarget over columns (some id) =
    any (λ (col : KanbanColumn). (col.id == id) && ((col.id == over) || holds over col)) columns
    ≡ true

column_of_card-IsTarget :
    (over : String) (columns : List KanbanColumn)
    → is_column over columns ≡ false
    → IsTarget over columns (column_of_card over columns)
unfolding column_of_card
column_of_card-IsTarget over [] h = (refl, refl)
column_of_card-IsTarget over (col ∷ cols) h = elim (Bool-cases (holds over col)) [
  | inl e ↦ rw (e, column_of_card) (ground (arith, eq_iff col.id col.id))
  | inr e ↦
      rw (e, column_of_card)
        (later e (column_of_card over cols) (column_of_card-IsTarget over cols (ground (arith, h))))
]
  where
    later :
        holds over col ≡ false
        → (r : Option String) → IsTarget over cols r
        → IsTarget over (col ∷ cols) r
    later e none (f, g) = (h, ground (arith, e, g))
    later e (some id) f = ground (arith, f)

is_column-any :
    (over : String) (columns : List KanbanColumn)
    → is_column over columns ≡ true
    → any (λ (col : KanbanColumn). (col.id == over) && ((col.id == over) || holds over col)) columns
      ≡ true
is_column-any over [] h = cc
is_column-any over (col ∷ cols) h = elim (Bool-cases (col.id == over)) [
  | inl e ↦ rw e refl
  | inr e ↦ rw e (is_column-any over cols (rw e at h))
]

-- Whatever a card is dropped on, the target is the id of a column that it was dropped on or that
-- holds the card it was dropped on, and there is none only if there is no such column.
pub resolve_target_column-IsTarget :
    (over : String) (columns : List KanbanColumn)
    → IsTarget over columns (resolve_target_column over columns)
unfolding resolve_target_column
resolve_target_column-IsTarget over columns = elim (Bool-cases (is_column over columns)) [
  | inl e ↦ rw e (is_column-any over columns e)
  | inr e ↦ rw e (column_of_card-IsTarget over columns e)
]

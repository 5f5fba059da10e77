-- ===== src/Filters/Matching.antt =====
-- One condition on one cell, and the rows that a view's conditions keep
-- (ui/src/lib/filters.ts, lines 21 to 184 and 239 to 392).
use secure_collab_app.Prelude.{
  Bool, true, false, not, ◌&&◌, ◌||◌, ◌==◌, String, Option, none, some, List, [], ◌∷◌, any, all,
  filter, contains, if◌then◌else◌,
}
use secure_collab_app.Prelude.Int.{ℤ, leb_ℤ}
use secure_collab_app.Assoc.{map_get}
use secure_collab_app.Filters.Values.{
  Value, Values, undefined, null, text, array, no_values, cons, Js, is_empty_value, text_of,
  texts_of, to_string_array, strict_eq, day_prefix,
}
use secure_collab_app.Filters.Dates.{today_local, week_bounds, resolve_span}

-- `unknown` is any other text.
pub data FilterOp : Type 0 where
  equals not_equals contains_text not_contains : FilterOp
  greater_than greater_than_or_equal less_than less_than_or_equal : FilterOp
  is_any_of has_any_of has_all_of has_none_of : FilterOp
  is_today is_this_week in_span : FilterOp
  is_empty is_not_empty : FilterOp
  unknown : FilterOp

pub record FilterCondition (D : Type 0) : Type 0 where
  pub column_id : String
  pub operator : FilterOp
  pub value : Value D

pub record FilterContext : Type 0 where
  pub me : Option String
  pub today : Option String

abbrev empty_ops : List FilterOp
empty_ops = is_empty ∷ is_not_empty ∷ []

abbrev pub operators_for_type : String → List FilterOp
operators_for_type t =
    if t == "text" || t == "document"
    then contains_text ∷ not_contains ∷ equals ∷ not_equals ∷ empty_ops
    else if t == "number"
    then equals ∷ not_equals ∷ greater_than ∷ greater_than_or_equal ∷ less_than ∷ less_than_or_equal
      ∷ empty_ops
    else if t == "date"
    then equals ∷ not_equals ∷ less_than ∷ less_than_or_equal ∷ greater_than ∷ greater_than_or_equal
      ∷ is_today ∷ is_this_week ∷ in_span ∷ empty_ops
    else if t == "boolean"
    then equals ∷ empty_ops
    else if t == "select" || t == "member" || t == "reference"
    then equals ∷ not_equals ∷ is_any_of ∷ empty_ops
    else if t == "multiselect" || t == "multimember" || t == "multireference"
    then has_any_of ∷ has_all_of ∷ has_none_of ∷ empty_ops
    else is_empty ∷ is_not_empty ∷ equals ∷ not_equals ∷ []

abbrev pub operator_needs_value : FilterOp → Bool
operator_needs_value is_empty = false
operator_needs_value is_not_empty = false
operator_needs_value is_today = false
operator_needs_value is_this_week = false
operator_needs_value op = true

-- The sign of a comparison.
pub data Sign : Type 0 where
  below same above : Sign

abbrev pub is_above : Option Sign → Bool
is_above (some above) = true
is_above c = false

abbrev pub is_above_or_same : Option Sign → Bool
is_above_or_same none = false
is_above_or_same (some below) = false
is_above_or_same (some c) = true

abbrev pub is_below : Option Sign → Bool
is_below (some below) = true
is_below c = false

abbrev pub is_below_or_same : Option Sign → Bool
is_below_or_same none = false
is_below_or_same (some above) = false
is_below_or_same (some c) = true

-- `a < b ? -1 : a > b ? 1 : 0`
abbrev pub sign_of : Bool → Bool → Sign
sign_of true gt = below
sign_of false true = above
sign_of false false = same

abbrev pub compare_dates : Option ℤ → Option ℤ → Option Sign
compare_dates none b = none
compare_dates (some a) none = none
compare_dates (some a) (some b) = some (sign_of (not (leb_ℤ b a)) (not (leb_ℤ a b)))

abbrev in_bounds : {D : Type 0} → Js D → Option (String × String) → String → Bool
in_bounds js none day = false
in_bounds js (some (first, last)) day = js.text_le first day && js.text_le day last

abbrev pub me_value : {D : Type 0} → Option String → Value D
me_value none = null
me_value (some u) = text u

abbrev pub is_me : {D : Type 0} → Value D → Bool
is_me (text s) = s == "@me"
is_me v = false

abbrev pub replace_me : {D : Type 0} → Value D → Values D → Values D
replace_me me no_values = no_values
replace_me me (cons v vs) = cons (if is_me v then me else v) (replace_me me vs)

module _ {D : Type 0} (js : Js D) where
  abbrev pub equals_match : Value D → Value D → String → Bool
  equals_match cell value column_type =
      if is_empty_value cell
      then false
      else if column_type == "number"
      then js.number_eq (js.number_of cell) (js.number_of value)
      else if column_type == "date"
      then day_prefix js cell == day_prefix js value
      else if column_type == "boolean"
      then strict_eq js cell value
      else text_of js cell == text_of js value

  abbrev contains_match : Value D → Value D → Bool
  contains_match cell value =
      if is_empty_value cell
      then false
      else js.includes (js.lower (text_of js cell)) (js.lower (text_of js value))

  abbrev pub compare_numbers : D → D → Option Sign
  compare_numbers a b =
      if js.is_nan a || js.is_nan b
      then none
      else some (sign_of (js.number_lt a b) (js.number_lt b a))

  unfoldable pub compare : Value D → Value D → String → Option Sign
  compare cell value column_type =
      if is_empty_value cell || is_empty_value value
      then none
      else if column_type == "date"
      then compare_dates (js.date_parse (text_of js cell)) (js.date_parse (text_of js value))
      else compare_numbers (js.number_of cell) (js.number_of value)

  -- A list without `@me` is its own replacement.
  abbrev pub resolve_value : Value D → Value D → Value D
  resolve_value me (text s) = if s == "@me" then me else text s
  resolve_value me (array vs) = array (replace_me me vs)
  resolve_value me v = v

  abbrev pub resolve_me : Value D → String → FilterContext → Value D
  resolve_me value column_type ctx =
      if column_type == "member" || column_type == "multimember"
      then resolve_value (me_value ctx.me) value
      else value

  abbrev today_of : FilterContext → String
  today_of ctx = elim ctx.today [ none ↦ today_local js | some day ↦ day ]

  abbrev any_equal : Value D → Value D → Bool
  any_equal cell (array vs) = contains (texts_of js vs) (text_of js cell)
  any_equal cell v = false

  abbrev any_of : Value D → Value D → Bool
  any_of (array cs) (array vs) = any (contains (texts_of js cs)) (texts_of js vs)
  any_of cell value = false

  abbrev all_of : List String → Value D → Bool
  all_of cell (array vs) = all (contains cell) (texts_of js vs)
  all_of cell v = false

  abbrev none_of : List String → Value D → Bool
  none_of cell (array vs) = not (any (contains cell) (texts_of js vs))
  none_of cell v = false

  -- With the value that `@me` has been replaced in.
  abbrev pub matches_value : Value D → FilterOp → Value D → String → FilterContext → Bool
  matches_value cell is_empty v t ctx = is_empty_value cell
  matches_value cell is_not_empty v t ctx = not (is_empty_value cell)
  matches_value cell is_today v t ctx =
      not (is_empty_value cell) && (day_prefix js cell == today_of ctx)
  matches_value cell is_this_week v t ctx =
      not (is_empty_value cell) && in_bounds js (week_bounds js (today_of ctx)) (day_prefix js cell)
  matches_value cell in_span v t ctx =
      not (is_empty_value cell)
      && in_bounds js (resolve_span js v (today_of ctx)) (day_prefix js cell)
  matches_value cell equals v t ctx = equals_match cell v t
  matches_value cell not_equals v t ctx = is_empty_value cell || not (equals_match cell v t)
  matches_value cell contains_text v t ctx = contains_match cell v
  matches_value cell not_contains v t ctx = not (contains_match cell v)
  matches_value cell greater_than v t ctx = is_above (compare cell v t)
  matches_value cell greater_than_or_equal v t ctx = is_above_or_same (compare cell v t)
  matches_value cell less_than v t ctx = is_below (compare cell v t)
  matches_value cell less_than_or_equal v t ctx = is_below_or_same (compare cell v t)
  matches_value cell is_any_of v t ctx = not (is_empty_value cell) && any_equal cell v
  matches_value cell has_any_of v t ctx = any_of cell v
  matches_value cell has_all_of v t ctx = all_of (to_string_array js cell) v
  matches_value cell has_none_of v t ctx = none_of (to_string_array js cell) v
  matches_value cell unknown v t ctx = true

  unfoldable pub matches_condition : Value D → FilterOp → Value D → String → FilterContext → Bool
  matches_condition cell op value column_type ctx =
      matches_value cell op (resolve_me value column_type ctx) column_type ctx

  -- The value under a column's id, `undefined` where the row has none.
  abbrev pub cell_of : List (String × Value D) → String → Value D
  cell_of row id = elim (map_get id row) [ none ↦ undefined | some v ↦ v ]

  -- `columns` has the type of each column under its id.
  unfoldable pub passes :
      List (String × String) → FilterContext → List (String × Value D) → FilterCondition D → Bool
  unfolding matches_condition
  passes columns ctx row c = elim (map_get c.column_id columns) [
    | none ↦ true
    | some t ↦ matches_condition (cell_of row c.column_id) c.operator c.value t ctx
  ]

  unfoldable pub apply_filters :
      List (List (String × Value D))
      → List (FilterCondition D)
      → List (String × String)
      → FilterContext
      → List (List (String × Value D))
  unfolding passes
  apply_filters rows [] columns ctx = rows
  apply_filters rows (c ∷ cs) columns ctx =
      filter (λ row. all (passes columns ctx row) (c ∷ cs)) rows

-- ===== src/Filters/Tests.antt =====
-- The theorems about ui/src/lib/filters.ts at a runtime whose numbers are natural numbers, whose
-- dates are a few days of August 2026, and whose texts are ordered by length.
use secure_collab_app.Prelude.{
  ℕ, ◌≡◌, refl, true, false, String, none, some, List, [], ◌∷◌, ◌==◌, eqb, ltb, if◌then◌else◌, ◌↔◌,
  not, ◌&&◌, arith,
}
use mathlib.Core.List.{Memᴰ}
use secure_collab_app.Assoc.{map_get}
use secure_collab_app.Prelude.Int.{ℤ, pos, scale, ◌+ℤ◌}
use secure_collab_app.Filters.Values.{Value, text, number, Js}
use secure_collab_app.Filters.Dates.{week_bounds, days_to_date}
use secure_collab_app.Filters.Matching.{
  FilterCondition, FilterContext, compare, matches_condition, apply_filters, equals, greater_than,
  greater_than_or_equal, less_than, less_than_or_equal, resolve_me,
}
use secure_collab_app.Filters.Weeks.{WeekOf, week_bounds-WeekOf}
use secure_collab_app.Filters.Rows.{apply_filters_iff, Satisfied}
use secure_collab_app.Filters.Operators.{
  IsAsymmetric, comparable, precedes, matches_condition-Compares,
}

abbrev number_in : Value ℕ → ℕ
number_in (number n) = n
number_in v = 0

-- 2026-08-12 is a Wednesday, day 20677 of the epoch.
abbrev js : Js ℕ
js = record {
  number_of = number_in;
  show_number = λ n. "5";
  show_array = λ vs. "";
  is_nan = λ n. false;
  number_eq = eqb;
  number_lt = ltb;
  lower = λ s. s;
  includes = λ s t. s == t;
  text_le = λ s t. true;
  date_parse = λ s. if s == "2026-08-12T00:00:00Z" then some (scale 86400000 (pos 20677)) else none;
  round_quotient = λ n d. pos 20677;
  iso_string = λ n. "2026-08-10T00:00:00Z";
  padded = λ n. "10";
  clock_year = 2026;
  clock_month = 7;
  clock_date = 12;
}

abbrev ctx : FilterContext
ctx = record { me = some "@ann:x"; today = some "2026-08-12" }

abbrev columns : List (String × String)
columns = ("owner", "member") ∷ ("count", "number") ∷ []

abbrev mine : FilterCondition ℕ
mine = record { column_id = "owner"; operator = equals; value = text "@me" }

abbrev many : FilterCondition ℕ
many = record { column_id = "count"; operator = greater_than; value = number 2 }

abbrev row_of : String → ℕ → List (String × Value ℕ)
row_of u n = ("owner", text u) ∷ ("count", number n) ∷ []

abbrev rows : List (List (String × Value ℕ))
rows = row_of "@ann:x" 3 ∷ row_of "@bob:x" 4 ∷ row_of "@ann:x" 1 ∷ []

kept : apply_filters js rows (mine ∷ many ∷ []) columns ctx ≡ row_of "@ann:x" 3 ∷ []
unfolding apply_filters map_get compare
kept = refl

apply_filters_iff_example :
    Memᴰ (row_of "@ann:x" 3) (apply_filters js rows (mine ∷ many ∷ []) columns ctx) ↔ (
      Memᴰ (row_of "@ann:x" 3) rows
      × ((c : FilterCondition ℕ)
          → Memᴰ c (mine ∷ many ∷ [])
          → Satisfied js columns ctx (row_of "@ann:x" 3) c))
apply_filters_iff_example =
    apply_filters_iff js columns ctx rows (mine ∷ many ∷ []) (row_of "@ann:x" 3)

ltb_asym : (a b : ℕ) → (ltb a b && ltb b a) ≡ false
ltb_asym a b = ground arith

js-IsAsymmetric : IsAsymmetric js
js-IsAsymmetric = ltb_asym

matches_condition-Compares_example :
    let value = resolve_me js (number 3) "number" ctx in
    let known = comparable js (number 5) value "number" in
    (matches_condition js (number 5) greater_than (number 3) "number" ctx
      ≡ (known && precedes js value (number 5) "number"))
    × (matches_condition js (number 5) greater_than_or_equal (number 3) "number" ctx
        ≡ (known && not (precedes js (number 5) value "number")))
    × (matches_condition js (number 5) less_than (number 3) "number" ctx
        ≡ (known && precedes js (number 5) value "number"))
    × (matches_condition js (number 5) less_than_or_equal (number 3) "number" ctx
        ≡ (known && not (precedes js value (number 5) "number")))
matches_condition-Compares_example =
    matches_condition-Compares js ctx (number 5) (number 3) "number" js-IsAsymmetric

week_bounds-WeekOf_example :
    (m : ℤ) × WeekOf m (pos 20677)
    × (week_bounds js "2026-08-12" ≡ some (days_to_date js m, days_to_date js (m +ℤ pos 6)))
week_bounds-WeekOf_example = week_bounds-WeekOf js "2026-08-12" (pos 20677) refl

-- ===== src/Filters/Dates.antt =====
-- Calendar days, ISO weeks and spans (ui/src/lib/filters.ts, lines 186 to 237).
use Prim.Native.String
use secure_collab_app.Prelude.{suc, ◌%◌, String, Option, none, some, if◌then◌else◌}
use secure_collab_app.Prelude.Int.{ℤ, pos, negsuc, pos_part, neg_part, sub_ℕ, ◌+ℤ◌, scale, leb_ℤ}
use secure_collab_app.Filters.Values.{Value, object, SpanValue, Js, slice_to}

-- `a % 7`, which has the sign of `a`.
abbrev pub rem_7 : ℤ → ℤ
rem_7 (pos n) = pos (n % 7)
rem_7 (negsuc n) = sub_ℕ 0 (suc n % 7)

abbrev pub from_monday : ℤ → ℤ
from_monday days = rem_7 (rem_7 (days +ℤ pos 3) +ℤ pos 7)

abbrev pub monday_of : ℤ → ℤ
monday_of days = let back = from_monday days in days +ℤ sub_ℕ (neg_part back) (pos_part back)

abbrev pub or_zero : Option ℤ → ℤ
or_zero none = pos 0
or_zero (some n) = n

module _ {D : Type 0} (js : Js D) where
  abbrev pub today_local : String
  today_local = String.◌++◌ (js.padded js.clock_year) (
      String.◌++◌ "-"
        (String.◌++◌ (js.padded (suc js.clock_month)) (String.◌++◌ "-" (js.padded js.clock_date))))

  abbrev pub date_to_days : String → Option ℤ
  date_to_days day = elim (js.date_parse (String.◌++◌ (slice_to 10 day) "T00:00:00Z")) [
    | none ↦ none
    | some ms ↦ some (js.round_quotient ms 86400000)
  ]

  abbrev pub days_to_date : ℤ → String
  days_to_date days = slice_to 10 (js.iso_string (scale 86400000 days))

  abbrev pub week_bounds : String → Option (String × String)
  week_bounds today = elim (date_to_days today) [
    | none ↦ none
    | some days ↦ some (days_to_date (monday_of days), days_to_date (monday_of days +ℤ pos 6))
  ]

  abbrev pub moving_bounds : ℤ → ℤ → ℤ → String × String
  moving_bounds base from to =
      if leb_ℤ from to
      then (days_to_date (base +ℤ from), days_to_date (base +ℤ to))
      else (days_to_date (base +ℤ to), days_to_date (base +ℤ from))

  abbrev pub in_order : String → String → String × String
  in_order a b = if js.text_le a b then (a, b) else (b, a)

  abbrev pub fixed_bounds : Option String → Option String → Option (String × String)
  fixed_bounds none to = none
  fixed_bounds (some from) none = none
  fixed_bounds (some from) (some to) = some (in_order (slice_to 10 from) (slice_to 10 to))

  abbrev pub moving_span : Option ℤ → Option ℤ → Option ℤ → Option (String × String)
  moving_span none from to = none
  moving_span (some base) from to = some (moving_bounds base (or_zero from) (or_zero to))

  abbrev span_bounds : SpanValue → String → Option (String × String)
  span_bounds v today =
      if v.moving
      then moving_span (date_to_days today) v.from_days v.to_days
      else fixed_bounds v.from v.to

  abbrev pub resolve_span : Value D → String → Option (String × String)
  resolve_span (object v) today = span_bounds v today
  resolve_span v today = none

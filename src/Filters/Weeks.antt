-- ===== src/Filters/Weeks.antt =====
-- The bounds that a date is compared with: the ISO week and spans (ui/src/lib/filters.ts, lines
-- 206 to 232).
use secure_collab_app.Prelude.{
  ◌≡◌, refl, ap, Bool, true, false, ◌||◌, ◌==◌, String, Option, none, some, arith, Bool-cases, inl,
  inr,
}
use secure_collab_app.Prelude.Int.{ℤ, pos, negsuc, ◌+ℤ◌, ◌≤ℤ◌, leb_ℤ}
use secure_collab_app.Filters.Values.{Value, Js, object, SpanValue, slice_to}
use secure_collab_app.Filters.Dates.{
  rem_7, monday_of, date_to_days, days_to_date, week_bounds, moving_bounds, fixed_bounds,
  resolve_span, in_order, moving_span, or_zero,
}
use secure_collab_app.Filters.Matching.{FilterContext, matches_condition, in_span, resolve_me}

-- A day on which an ISO week begins.
abbrev pub IsMonday : ℤ → Type 0
IsMonday m = rem_7 (m +ℤ pos 3) ≡ pos 0

pub record WeekOf (m d : ℤ) : Type 0 where
  pub begins : IsMonday m
  pub before : m ≤ℤ d
  pub after : d ≤ℤ (m +ℤ pos 6)

monday_of-WeekOf : (d : ℤ) → WeekOf (monday_of d) d
monday_of-WeekOf (pos n) = record {
  begins = ground arith;
  before = ground arith;
  after = ground arith;
}
monday_of-WeekOf (negsuc n) = record {
  begins = ground arith;
  before = ground arith;
  after = ground arith;
}

leb_ℤ-antisym : (a b : ℤ) → leb_ℤ a b ≡ true → leb_ℤ b a ≡ true → a ≡ b
leb_ℤ-antisym (pos m) (pos n) h k = ground (arith, h, k)
leb_ℤ-antisym (pos m) (negsuc n) h k = ground (arith, h, k)
leb_ℤ-antisym (negsuc m) (pos n) h k = ground (arith, h, k)
leb_ℤ-antisym (negsuc m) (negsuc n) h k = ground (arith, h, k)

leb_ℤ-total : (a b : ℤ) → leb_ℤ a b ≡ false → leb_ℤ b a ≡ true
leb_ℤ-total (pos m) (pos n) h = ground (arith, h)
leb_ℤ-total (pos m) (negsuc n) h = ground (arith, h)
leb_ℤ-total (negsuc m) (pos n) h = ground (arith, h)
leb_ℤ-total (negsuc m) (negsuc n) h = ground (arith, h)

-- A span with its ends in the other order.
abbrev pub swapped : SpanValue → SpanValue
swapped v = record {
  moving = v.moving;
  from = v.to;
  to = v.from;
  from_days = v.to_days;
  to_days = v.from_days;
}

-- The order of texts by `<=`.
pub record IsTotalOrder (le : String → String → Bool) : Type 0 where
  pub antisym : (a b : String) → le a b ≡ true → le b a ≡ true → a ≡ b
  pub total : (a b : String) → le a b ≡ false → le b a ≡ true

module _ {D : Type 0} (js : Js D) where
  -- The week of a date that the runtime can read is from a Monday on or before it to the sixth day
  -- after that Monday, which is on or after it.
  pub week_bounds-WeekOf :
      (today : String) (d : ℤ)
      → date_to_days js today ≡ some d
      → (m : ℤ) × WeekOf m d
        × (week_bounds js today ≡ some (days_to_date js m, days_to_date js (m +ℤ pos 6)))
  week_bounds-WeekOf today d e = (monday_of d, monday_of-WeekOf d, rw (e, week_bounds) refl)

  moving_bounds-swap :
      (base from to : ℤ) → moving_bounds js base from to ≡ moving_bounds js base to from
  moving_bounds-swap base from to = elim (Bool-cases (leb_ℤ from to)) [
    | inl e ↦ elim (Bool-cases (leb_ℤ to from)) [
      | inl f ↦ rw (leb_ℤ-antisym from to e f) refl
      | inr f ↦ rw (e, f) refl
    ]
    | inr e ↦ rw (e, leb_ℤ-total from to e) refl
  ]

  module _ (order : IsTotalOrder js.text_le) where
    in_order-swap : (x y : String) → in_order js x y ≡ in_order js y x
    in_order-swap x y = elim (Bool-cases (js.text_le x y)) [
      | inl e ↦ elim (Bool-cases (js.text_le y x)) [
        | inl f ↦ rw (order.antisym x y e f) refl
        | inr f ↦ rw (e, f) refl
      ]
      | inr e ↦ rw (e, order.total x y e) refl
    ]

    fixed_bounds-swap :
        (from to : Option String) → fixed_bounds js from to ≡ fixed_bounds js to from
    fixed_bounds-swap none none = refl
    fixed_bounds-swap none (some b) = refl
    fixed_bounds-swap (some a) none = refl
    fixed_bounds-swap (some a) (some b) = ap some (in_order-swap (slice_to 10 a) (slice_to 10 b))

    moving_span-swap :
        (base from to : Option ℤ) → moving_span js base from to ≡ moving_span js base to from
    moving_span-swap none from to = refl
    moving_span-swap (some base) from to =
        ap some (moving_bounds-swap base (or_zero from) (or_zero to))

    span_bounds-swap :
        (v : SpanValue) (today : String)
        → resolve_span js (object v) today ≡ resolve_span js (object (swapped v)) today
    span_bounds-swap v today = elim (Bool-cases v.moving) [
      | inl e ↦
          rw (e, resolve_span) (moving_span-swap (date_to_days js today) v.from_days v.to_days)
      | inr e ↦ rw (e, resolve_span) (fixed_bounds-swap v.from v.to)
    ]

    resolve_me-object :
        (v : SpanValue) (t : String) (ctx : FilterContext)
        → resolve_me js (object v) t ctx ≡ object v
    resolve_me-object v t ctx = elim (Bool-cases (t == "member" || t == "multimember")) [
      | inl e ↦ rw (e, resolve_me) refl
      | inr e ↦ rw (e, resolve_me) refl
    ]

    -- Where `<=` is a total order of texts, an `in_span` condition keeps the same cells when the ends
    -- of its span, fixed or moving, are exchanged.
    pub matches_condition-swap :
        (cell : Value D) (v : SpanValue) (t : String) (ctx : FilterContext)
        → matches_condition js cell in_span (object v) t ctx
          ≡ matches_condition js cell in_span (object (swapped v)) t ctx
    unfolding matches_condition
    matches_condition-swap cell v t ctx =
        rw (resolve_me-object v t ctx, resolve_me-object (swapped v) t ctx, span_bounds-swap v _)
          refl

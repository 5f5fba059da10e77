-- ===== src/Filters/Operators.antt =====
-- How the operators of a condition stand to each other, and what `@me` means
-- (ui/src/lib/filters.ts, lines 243 to 371).
use secure_collab_app.Prelude.{
  ◌≡◌, refl, false, not, ◌&&◌, ◌||◌, String, Option, none, some, arith, Bool-cases, inl, inr, ◌==◌,
  contains, Bool, true, if◌then◌else◌,
}
use secure_collab_app.Prelude.Int.{ℤ, leb_ℤ}
use secure_collab_app.Filters.Values.{
  Value, Values, Js, array, text, no_values, cons, is_empty_value, text_of, texts_of,
}
use secure_collab_app.Filters.Matching.{
  FilterContext, equals, not_equals, contains_text, not_contains, is_empty, is_not_empty,
  has_any_of, has_none_of, is_any_of, greater_than, greater_than_or_equal, less_than,
  less_than_or_equal, Sign, below, same, above, is_above, is_above_or_same, is_below,
  is_below_or_same, compare, sign_of, compare_dates, compare_numbers, resolve_me, equals_match,
  me_value, matches_condition,
}

-- The text that `@me` stands for.
abbrev pub viewer_text : Option String → String
viewer_text none = "null"
viewer_text (some u) = u

module _ {D : Type 0} (js : Js D) (ctx : FilterContext) where
  -- For any cell, value and column type, `not_equals`, `is_not_empty` and `not_contains` are the
  -- negations of `equals`, `is_empty` and `contains`, and `has_none_of` is that of `has_any_of` where
  -- the cell and the value are lists.
  matches_condition-Opposites :
      (cell value : Value D) (cs vs : Values D) (t : String)
      → (matches_condition js cell not_equals value t ctx
          ≡ not (matches_condition js cell equals value t ctx))
        × (matches_condition js cell is_not_empty value t ctx
            ≡ not (matches_condition js cell is_empty value t ctx))
        × (matches_condition js cell not_contains value t ctx
            ≡ not (matches_condition js cell contains_text value t ctx))
        × (matches_condition js (array cs) has_none_of (array vs) t ctx
            ≡ not (matches_condition js (array cs) has_any_of (array vs) t ctx))
  unfolding matches_condition
  matches_condition-Opposites cell value cs vs t = (unequal, refl, refl, lists)
    where
      unequal :
          matches_condition js cell not_equals value t ctx
          ≡ not (matches_condition js cell equals value t ctx)
      unequal = elim (Bool-cases (is_empty_value cell)) [
        | inl e ↦ rw (e, matches_condition) refl
        | inr e ↦ rw (e, matches_condition) refl
      ]

      lists :
          matches_condition js (array cs) has_none_of (array vs) t ctx
          ≡ not (matches_condition js (array cs) has_any_of (array vs) t ctx)
      lists = elim (Bool-cases (t == "member" || t == "multimember")) [
        | inl e ↦ rw (e, matches_condition) refl
        | inr e ↦ rw (e, matches_condition) refl
      ]

  -- Of a cell and a value, either all four comparisons are false, or exactly one of `>` and `≤` and
  -- exactly one of `<` and `≥` are true, `≥` is `>` or neither of `<` and `>`, and never both of `<` and `>`.
  matches_condition-Ordered :
      (cell value : Value D) (t : String)
      → let gt = matches_condition js cell greater_than value t ctx in
        let ge = matches_condition js cell greater_than_or_equal value t ctx in
        let lt = matches_condition js cell less_than value t ctx in
        let le = matches_condition js cell less_than_or_equal value t ctx in
        ((gt && le) ≡ false)
        × ((lt && ge) ≡ false)
        × ((gt || le) ≡ (lt || ge))
        × ((ge && le) ≡ ((gt || le) && not (gt || lt)))
  unfolding matches_condition
  matches_condition-Ordered cell value t = by_sign (compare js cell (resolve_me js value t ctx) t)
    where
      by_sign :
          (c : Option Sign)
          → ((is_above c && is_below_or_same c) ≡ false)
            × ((is_below c && is_above_or_same c) ≡ false)
            × ((is_above c || is_below_or_same c) ≡ (is_below c || is_above_or_same c))
            × ((is_above_or_same c && is_below_or_same c)
                ≡ ((is_above c || is_below_or_same c) && not (is_above c || is_below c)))
      by_sign none = (refl, refl, refl, refl)
      by_sign (some below) = (refl, refl, refl, refl)
      by_sign (some same) = (refl, refl, refl, refl)
      by_sign (some above) = (refl, refl, refl, refl)

  -- On a member column, a condition `equals @me` or `is_any_of [@me]` holds of the cells that are not
  -- empty and have the viewer's id as their text, and, without a viewer, the text `null`.
  pub matches_condition-me :
      (cell : Value D)
      → let me = viewer_text ctx.me in
        (matches_condition js cell equals (text "@me") "member" ctx
          ≡ (not (is_empty_value cell) && (text_of js cell == me)))
        × (matches_condition js cell is_any_of (array (cons (text "@me") no_values)) "member" ctx
            ≡ (not (is_empty_value cell) && (me == text_of js cell)))
  unfolding matches_condition
  matches_condition-me cell = by_viewer ctx.me
    where
      by_viewer :
          (v : Option String)
          → (equals_match js cell (me_value v) "member"
              ≡ (not (is_empty_value cell) && (text_of js cell == viewer_text v)))
            × ((not (is_empty_value cell)
                  && contains (texts_of js (cons (me_value v) no_values)) (text_of js cell))
                ≡ (not (is_empty_value cell) && (viewer_text v == text_of js cell)))
      by_viewer none = ground arith
      by_viewer (some u) = ground arith

-- No two numbers are each below the other.
abbrev pub IsAsymmetric : {D : Type 0} → Js D → Type 0
IsAsymmetric {D} js = (a b : D) → (js.number_lt a b && js.number_lt b a) ≡ false

abbrev both_dates : Option ℤ → Option ℤ → Bool
both_dates (some a) (some b) = true
both_dates a b = false

abbrev date_before : Option ℤ → Option ℤ → Bool
date_before (some a) (some b) = not (leb_ℤ b a)
date_before a b = false

-- What the four comparisons come to where both sides are known.
abbrev Reads : Option Sign → Bool → Bool → Bool → Type 0
Reads c known lt gt =
    (is_above c ≡ (known && gt))
    × (is_above_or_same c ≡ (known && not lt))
    × (is_below c ≡ (known && lt))
    × (is_below_or_same c ≡ (known && not gt))

sign_of-Reads : (lt gt : Bool) → (lt && gt) ≡ false → Reads (some (sign_of lt gt)) true lt gt
sign_of-Reads true true h = cc
sign_of-Reads true false h = (refl, refl, refl, refl)
sign_of-Reads false true h = (refl, refl, refl, refl)
sign_of-Reads false false h = (refl, refl, refl, refl)

not_both : (a b : ℤ) → (not (leb_ℤ b a) && not (leb_ℤ a b)) ≡ false
not_both a b = ground arith

compare_dates-Reads :
    (a b : Option ℤ)
    → Reads (compare_dates a b) (both_dates a b) (date_before a b) (date_before b a)
compare_dates-Reads none b = (refl, refl, refl, refl)
compare_dates-Reads (some a) none = (refl, refl, refl, refl)
compare_dates-Reads (some a) (some b) = sign_of-Reads _ _ (not_both a b)

compare_numbers-Reads :
    {D : Type 0} (js : Js D)
    → IsAsymmetric js
    → (a b : D)
    → Reads
        (compare_numbers js a b)
        (not (js.is_nan a) && not (js.is_nan b))
        (js.number_lt a b)
        (js.number_lt b a)
compare_numbers-Reads js asym a b = elim (Bool-cases (js.is_nan a)) [
  | inl e ↦ rw e (refl, refl, refl, refl)
  | inr e ↦ elim (Bool-cases (js.is_nan b)) [
    | inl f ↦ rw (e, f) (refl, refl, refl, refl)
    | inr f ↦ rw (e, f) (sign_of-Reads _ _ (asym a b))
  ]
]

module _ {D : Type 0} (js : Js D) where
  -- Neither side is empty, and both are dates on a date column and numbers on another.
  abbrev pub comparable : Value D → Value D → String → Bool
  comparable a b t =
      not (is_empty_value a)
      && not (is_empty_value b)
      && (if t == "date"
          then both_dates (js.date_parse (text_of js a)) (js.date_parse (text_of js b))
          else not (js.is_nan (js.number_of a)) && not (js.is_nan (js.number_of b)))

  -- The first side is the earlier date or the lesser number.
  abbrev pub precedes : Value D → Value D → String → Bool
  precedes a b t =
      if t == "date"
      then date_before (js.date_parse (text_of js a)) (js.date_parse (text_of js b))
      else js.number_lt (js.number_of a) (js.number_of b)

  -- The four comparisons read a cell and a value in the order of dates or of numbers: each is false
  -- where a side is empty or is no date or no number, and else `>` and `<` are the strict order of the
  -- two and `≥` and `≤` their negations, if no two numbers are each below the other.
  pub matches_condition-Compares :
      (ctx : FilterContext) (cell given : Value D) (t : String)
      → IsAsymmetric js
      → let value = resolve_me js given t ctx in
        let known = comparable cell value t in
        (matches_condition js cell greater_than given t ctx ≡ (known && precedes value cell t))
        × (matches_condition js cell greater_than_or_equal given t ctx
            ≡ (known && not (precedes cell value t)))
        × (matches_condition js cell less_than given t ctx ≡ (known && precedes cell value t))
        × (matches_condition js cell less_than_or_equal given t ctx
            ≡ (known && not (precedes value cell t)))
  unfolding matches_condition compare
  matches_condition-Compares ctx cell given t asym = go (resolve_me js given t ctx)
    where
      go :
          (value : Value D)
          → Reads
              (compare js cell value t)
              (comparable cell value t)
              (precedes cell value t)
              (precedes value cell t)
      go value = elim (Bool-cases (is_empty_value cell)) [
        | inl e ↦ rw (e, comparable) (refl, refl, refl, refl)
        | inr e ↦ elim (Bool-cases (is_empty_value value)) [
          | inl f ↦ rw (e, f, comparable) (refl, refl, refl, refl)
          | inr f ↦ elim (Bool-cases (t == "date")) [
            | inl d ↦
                rw (e, f, d, comparable)
                  (compare_dates-Reads (js.date_parse (text_of js cell))
                    (js.date_parse (text_of js value)))
            | inr d ↦
                rw (e, f, d, comparable)
                  (compare_numbers-Reads js asym (js.number_of cell) (js.number_of value))
          ]
        ]
      ]

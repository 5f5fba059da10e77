-- ===== src/Filters/Rows.antt =====
-- Which rows the conditions of a view keep (ui/src/lib/filters.ts, lines 292 to 392).
use secure_collab_app.Prelude.{
  ◌≡◌, refl, sym, ap, Bool, true, ◌&&◌, String, some, List, [], ◌∷◌, ◌++◌, arith, all, filter,
  Bool-cases, Option-cases, inl, inr, ◌↔◌, mem-filter, and-eq_true,
}
use mathlib.Core.List.{Memᴰ}
use secure_collab_app.Assoc.{map_get}
use secure_collab_app.Filters.Values.{Value, Js}
use secure_collab_app.Filters.Matching.{
  FilterCondition, FilterContext, matches_condition, passes, cell_of, apply_filters,
}

all-append {ℓ} :
    {A : Type ℓ} (p : A → Bool) (xs ys : List A) → all p (xs ++ ys) ≡ (all p xs && all p ys)
all-append p [] ys = refl
all-append p (x ∷ xs) ys = ground (arith, all-append p xs ys)

filter-and {ℓ} :
    {A : Type ℓ} (p q r : A → Bool) (xs : List A)
    → ((a : A) → r a ≡ (p a && q a))
    → filter r xs ≡ filter q (filter p xs)
filter-and p q r [] h = refl
filter-and p q r (x ∷ xs) h = elim (Bool-cases (p x)) [
  | inl e ↦ elim (Bool-cases (q x)) [
    | inl f ↦ rw (h x, e, f) (ap (λ l. x ∷ l) (filter-and p q r xs h))
    | inr f ↦ rw (h x, e, f) (filter-and p q r xs h)
  ]
  | inr e ↦ rw (h x, e) (filter-and p q r xs h)
]

filter-all {ℓ} : {A : Type ℓ} (xs : List A) → filter (λ _. true) xs ≡ xs
filter-all [] = refl
filter-all (x ∷ xs) = ap (λ l. x ∷ l) (filter-all xs)

-- What is in the list and passes the test passes the filter.
filter-mem {ℓ} :
    {A : Type ℓ} (p : A → Bool) (xs : List A) {a : A}
    → Memᴰ a xs
    → p a ≡ true
    → Memᴰ a (filter p xs)
filter-mem p [] m h = elim m [ ]
filter-mem p (x ∷ xs) (Memᴰ.head e) h = rw (← e, h) (Memᴰ.head refl)
filter-mem p (x ∷ xs) (Memᴰ.tail m) h = elim (Bool-cases (p x)) [
  | inl e ↦ rw e (Memᴰ.tail (filter-mem p xs m h))
  | inr e ↦ rw e (filter-mem p xs m h)
]

all-mem {ℓ} :
    {A : Type ℓ} (p : A → Bool) (xs : List A) {a : A} → all p xs ≡ true → Memᴰ a xs → p a ≡ true
all-mem p [] h m = elim m [ ]
all-mem p (x ∷ xs) h (Memᴰ.head e) = rw e (and-eq_true (p x) (all p xs) h).0
all-mem p (x ∷ xs) h (Memᴰ.tail m) = all-mem p xs (and-eq_true (p x) (all p xs) h).1 m

mem-all {ℓ} :
    {A : Type ℓ} (p : A → Bool) (xs : List A) → ((a : A) → Memᴰ a xs → p a ≡ true) → all p xs ≡ true
mem-all p [] h = refl
mem-all p (x ∷ xs) h = rw (h x (Memᴰ.head refl)) (mem-all p xs (λ a m. h a (Memᴰ.tail m)))

module _ {D : Type 0} (js : Js D) (columns : List (String × String)) (ctx : FilterContext) where
  abbrev pub Row : Type 0
  Row = List (String × Value D)

  apply_filters-filter :
      (rows : List Row) (cs : List (FilterCondition D))
      → apply_filters js rows cs columns ctx
        ≡ filter (λ row. all (passes js columns ctx row) cs) rows
  unfolding apply_filters
  apply_filters-filter rows [] = sym (filter-all rows)
  apply_filters-filter rows (c ∷ cs) = refl

  -- Filtering by the conditions `cs` and `ds` together is filtering by `cs` and what is left by `ds`,
  -- for any rows, columns and context.
  pub apply_filters-append :
      (rows : List Row) (cs ds : List (FilterCondition D))
      → apply_filters js rows (cs ++ ds) columns ctx
        ≡ apply_filters js (apply_filters js rows cs columns ctx) ds columns ctx
  apply_filters-append rows cs ds =
      rw
        (
          apply_filters-filter rows (cs ++ ds),
          apply_filters-filter rows cs,
          apply_filters-filter (filter (λ row. all (passes js columns ctx row) cs) rows) ds,
        )
        (filter-and _ _ _ rows (λ row. all-append (passes js columns ctx row) cs ds))

  -- If its column is known, the condition matches the row's cell.
  abbrev pub Satisfied : Row → FilterCondition D → Type 0
  Satisfied row c =
      (t : String)
      → map_get c.column_id columns ≡ some t
      → matches_condition js (cell_of js row c.column_id) c.operator c.value t ctx ≡ true

  passes-Satisfied :
      (row : Row) (c : FilterCondition D) → passes js columns ctx row c ≡ true → Satisfied row c
  unfolding passes
  passes-Satisfied row c h t e = rw (e, passes) at h

  Satisfied-passes :
      (row : Row) (c : FilterCondition D) → Satisfied row c → passes js columns ctx row c ≡ true
  unfolding passes
  Satisfied-passes row c h = elim (Option-cases (map_get c.column_id columns)) [
    | inl e ↦ rw (e, passes) refl
    | inr (t, e) ↦ rw (e, passes) (h t e)
  ]

  -- A row is kept if and only if it is one of the rows and satisfies each condition whose column is
  -- known.
  pub apply_filters_iff :
      (rows : List Row) (cs : List (FilterCondition D)) (row : Row)
      → Memᴰ row (apply_filters js rows cs columns ctx)
        ↔ (Memᴰ row rows × ((c : FilterCondition D) → Memᴰ c cs → Satisfied row c))
  apply_filters_iff rows cs row = rw (apply_filters-filter rows cs) (kept, keeps)
    where
      kept :
          Memᴰ row (filter (λ r. all (passes js columns ctx r) cs) rows)
          → Memᴰ row rows × ((c : FilterCondition D) → Memᴰ c cs → Satisfied row c)
      kept m =
          let r = mem-filter _ rows m in (r.0, λ c mc. passes-Satisfied row c (all-mem _ cs r.1 mc))

      keeps :
          Memᴰ row rows × ((c : FilterCondition D) → Memᴰ c cs → Satisfied row c)
          → Memᴰ row (filter (λ r. all (passes js columns ctx r) cs) rows)
      keeps (m, h) = filter-mem _ rows m (mem-all _ cs (λ c mc. Satisfied-passes row c (h c mc)))

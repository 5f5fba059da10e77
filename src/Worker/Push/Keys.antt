-- ===== src/Worker/Push/Keys.antt =====
-- The key of a set of tables, and the tables that are read back from it
-- (ui/src/worker/dispatch.ts, lines 249 to 256).
use secure_collab_app.Prelude.{
  ◌≡◌, refl, Bool, true, false, not, ◌&&◌, String, List, [], ◌∷◌, eqb, concat, split, split_first,
  is_empty, inl, inr, Bool-cases, All, All-filter,
}
use secure_collab_app.Worker.Push.{ids_of, sort, put_in, unique, key_of, join_ids}
use Prim.Native.Char.{code}

abbrev spaceless : String → Bool
spaceless String.[] = true
spaceless (String.◌∷◌ c s) = not (eqb (code c) b' ') && spaceless s

-- An id as the program makes them: some characters, none of them a space.
abbrev pub IsPlain : String → Type 0
IsPlain s = (is_empty s ≡ false) × (spaceless s ≡ true)

split_first-spaceless : (s : String) → spaceless s ≡ true → split_first b' ' s ≡ (s, [])
unfolding split_first
split_first-spaceless String.[] h = refl
split_first-spaceless (String.◌∷◌ c s) h = elim (Bool-cases (eqb (code c) b' ')) [
  | inl e ↦ let f : false ≡ true = rw e at h in cc
  | inr e ↦ let k : spaceless s ≡ true = rw e at h in rw (e, split_first-spaceless s k) refl
]

split_first-concat :
    (s t : String)
    → spaceless s ≡ true
    → split_first b' ' (concat s (concat " " t)) ≡ (s, split b' ' t)
unfolding split_first split
split_first-concat String.[] t h = refl
split_first-concat (String.◌∷◌ c s) t h = elim (Bool-cases (eqb (code c) b' ')) [
  | inl e ↦ let f : false ≡ true = rw e at h in cc
  | inr e ↦ let k : spaceless s ≡ true = rw e at h in rw (e, split_first-concat s t k) refl
]

split-join_ids :
    (x : String) (xs : List String) → All IsPlain (x ∷ xs) → split b' ' (join_ids (x ∷ xs)) ≡ x ∷ xs
unfolding split
split-join_ids x [] h = rw (split_first-spaceless x h.0.1) refl
split-join_ids x (y ∷ ys) h =
    rw (split_first-concat x (join_ids (y ∷ ys)) h.0.1) (rw (split-join_ids y ys h.1) refl)

join_ids-nonempty :
    (x : String) (xs : List String) → is_empty x ≡ false → is_empty (join_ids (x ∷ xs)) ≡ false
join_ids-nonempty x [] h = h
join_ids-nonempty String.[] (y ∷ ys) h = cc
join_ids-nonempty (String.◌∷◌ c x) (y ∷ ys) h = refl

-- Plain ids are read back from their key.
ids_of-join_ids : (xs : List String) → All IsPlain xs → ids_of (join_ids xs) ≡ xs
unfolding ids_of
ids_of-join_ids [] h = refl
ids_of-join_ids (x ∷ xs) h = rw (join_ids-nonempty x xs h.0.0) (split-join_ids x xs h)

module _ (precedes : String → String → Bool) where
  All-put_in :
      (x : String) (xs : List String)
      → IsPlain x
      → All IsPlain xs
      → All IsPlain (put_in precedes x xs)
  All-put_in x [] h k = (h, tt)
  All-put_in x (y ∷ ys) h k = elim (Bool-cases (precedes y x)) [
    | inl e ↦ rw e (k.0, All-put_in x ys h k.1)
    | inr e ↦ rw e (h, k)
  ]

  All-sort : (xs : List String) → All IsPlain xs → All IsPlain (sort precedes xs)
  All-sort [] h = tt
  All-sort (x ∷ xs) h = All-put_in x (sort precedes xs) h.0 (All-sort xs h.1)

  All-unique : (xs : List String) → All IsPlain xs → All IsPlain (unique xs)
  All-unique [] h = tt
  All-unique (x ∷ xs) h =
      (h.0, All-filter IsPlain IsPlain _ (unique xs) (λ a k _. k) (All-unique xs h.1))

  -- The tables that a group's bundle is read for are those that its tabs have asked for, each once
  -- and in order.
  pub ids_of-key_of :
      (table_ids : List String)
      → All IsPlain table_ids
      → ids_of (key_of precedes table_ids) ≡ sort precedes (unique table_ids)
  ids_of-key_of table_ids h =
      ids_of-join_ids (sort precedes (unique table_ids))
        (All-sort (unique table_ids) (All-unique table_ids h))

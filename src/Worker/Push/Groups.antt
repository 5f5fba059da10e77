-- ===== src/Worker/Push/Groups.antt =====
-- Which tab is in which group (ui/src/worker/dispatch.ts, lines 237 to 265).
use secure_collab_app.Prelude.{
  ℕ, ◌≡◌, refl, ◌∙◌, Bool, true, false, String, Option, none, some, List, [], ◌∷◌, ◌++◌, ◌==◌,
  if◌then◌else◌, eqb, arith, inl, inr, Bool-cases, eq_iff, append-nil, All,
}
use secure_collab_app.Assoc.{map_get}
use secure_collab_app.Worker.Push.{key_of, add_client, by_table_set, group_one}

-- The keys of the groups that a tab is in, once for each time that it is in them.
abbrev pub times : ℕ → String → List ℕ → List String
times client key [] = []
times client key (c ∷ cs) = if eqb c client then key ∷ times client key cs else times client key cs

abbrev pub keys_for : ℕ → List (String × List ℕ) → List String
keys_for client [] = []
keys_for client ((key, cs) ∷ rest) = times client key cs ++ keys_for client rest

pub times-append :
    (client : ℕ) (key : String) (xs ys : List ℕ)
    → times client key (xs ++ ys) ≡ times client key xs ++ times client key ys
times-append client key [] ys = refl
times-append client key (c ∷ xs) ys = elim (Bool-cases (eqb c client)) [
  | inl q ↦ rw (q, times-append client key xs ys) refl
  | inr q ↦ rw (q, times-append client key xs ys) refl
]

-- Adding another tab to a group leaves the tab's keys.
add_client-other :
    (client c : ℕ) (key : String) (m : List (String × List ℕ))
    → eqb c client ≡ false
    → keys_for client (add_client key c m) ≡ keys_for client m
add_client-other client c key [] h = rw h refl
add_client-other client c key ((k, cs) ∷ m) h = elim (Bool-cases (k == key)) [
  | inl e ↦ rw (e, times-append client k cs (c ∷ []), h, append-nil (times client k cs)) refl
  | inr e ↦ rw (e, add_client-other client c key m h) refl
]

pub eqb_refl : (n : ℕ) → eqb n n ≡ true
eqb_refl n = ground arith

nil_parts : {A : Type 0} (xs ys : List A) → xs ++ ys ≡ [] → (xs ≡ []) × (ys ≡ [])
nil_parts [] ys h = (refl, h)
nil_parts (x ∷ xs) ys h = cc

-- A tab that is in no group is then in the group of its key.
add_client-new :
    (client : ℕ) (key : String) (m : List (String × List ℕ))
    → keys_for client m ≡ []
    → keys_for client (add_client key client m) ≡ key ∷ []
add_client-new client key [] h = rw (eqb_refl client) refl
add_client-new client key ((k, cs) ∷ m) h =
    let parts = nil_parts (times client k cs) (keys_for client m) h in
    elim (Bool-cases (k == key)) [
      | inl e ↦
          rw (e, times-append client k cs (client ∷ []), eqb_refl client, parts.0, parts.1)
            (let same : k ≡ key = ground (arith, eq_iff k key, e) in rw same refl)
      | inr e ↦ rw (e, parts.0) (add_client-new client key m parts.1)
    ]

abbrev pub Subscription : Type 0
Subscription = ℕ × List (String × List String)

abbrev pub OneEach : List Subscription → Type 0
OneEach [] = Unit
OneEach ((c, rooms) ∷ subs) = All (λ s. eqb s.0 c ≡ false) subs × OneEach subs

module _ (room_id : String) where
  -- The tables that a tab has asked for in the room.
  abbrev pub tables_for : ℕ → List Subscription → Option (List String)
  tables_for client [] = none
  tables_for client ((c, rooms) ∷ subs) =
      if eqb c client then map_get room_id rooms else tables_for client subs

  module _ (precedes : String → String → Bool) where
    abbrev pub key_for : Option (List String) → List String
    key_for none = []
    key_for (some table_ids) = key_of precedes table_ids ∷ []

    group_one-other :
        (client c : ℕ) (asked : Option (List String)) (m : List (String × List ℕ))
        → eqb c client ≡ false
        → keys_for client (group_one precedes room_id asked c m) ≡ keys_for client m
    group_one-other client c none m h = refl
    group_one-other client c (some ts) m h = add_client-other client c (key_of precedes ts) m h

    group_one-new :
        (client : ℕ) (asked : Option (List String)) (m : List (String × List ℕ))
        → keys_for client m ≡ []
        → keys_for client (group_one precedes room_id asked client m) ≡ key_for asked
    group_one-new client none m h = h
    group_one-new client (some ts) m h = add_client-new client (key_of precedes ts) m h

    by_table_set-others :
        (client : ℕ) (subs : List Subscription) (m : List (String × List ℕ))
        → All (λ s. eqb s.0 client ≡ false) subs
        → keys_for client (by_table_set precedes room_id subs m) ≡ keys_for client m
    by_table_set-others client [] m h = refl
    by_table_set-others client ((c, rooms) ∷ subs) m h =
        by_table_set-others client subs _ h.1
        ∙ group_one-other client c (map_get room_id rooms) m h.0

    -- A tab is in the one group of the tables it has asked for, and in none if it has asked for
    -- none.
    pub by_table_set-keys :
        (client : ℕ) (subs : List Subscription) (m : List (String × List ℕ))
        → OneEach subs
        → keys_for client m ≡ []
        → keys_for client (by_table_set precedes room_id subs m) ≡ key_for (tables_for client subs)
    by_table_set-keys client [] m d h = h
    by_table_set-keys client ((c, rooms) ∷ subs) m d h = elim (Bool-cases (eqb c client)) [
      | inl e ↦
          let same : c ≡ client = ground (arith, e) in
          rw e (
            by_table_set-others client subs _ (rw same at d.0)
            ∙ rw same (group_one-new client (map_get room_id rooms) m h))
      | inr e ↦ rw e (
          by_table_set-keys client subs _ d.1
            (group_one-other client c (map_get room_id rooms) m e ∙ h))
    ]

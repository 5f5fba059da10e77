-- ===== src/StoreReaper/Queue.antt =====
-- What the reaper attempts to delete and what it keeps queued (ui/src/lib/storeReaper.ts, lines 39
-- to 137).
use secure_collab_app.Prelude.{
  ◌≡◌, refl, sym, ap, ◌∙◌, Bool, true, false, ◌||◌, String, Option, none, some, List, [], ◌∷◌, ◌++◌,
  arith, Bool-cases, inl, inr, All, All-append, map, eq_iff, contains, is_empty, length, ℕ, ◌+◌,
  filter, not, if◌then◌else◌, length-append, append-nil, append_assoc,
}
use secure_collab_app.StoreReaper.{
  Browser, Store, protected, texts_in, read_pending, write_pending, delete_database, queued,
  unqueued, is_success, ReaperStep, signs_out, starts, run_steps, retire_store, Reaped, sorted,
  reap_from, reap_each, reap_stores,
}

abbrev pub Harmless : Store → Type 0
Harmless s = All (λ n. protected n ≡ false) s.attempts

abbrev pub agrees : Bool → Bool → Bool
agrees true done = done
agrees false done = not done

module _ (b : Browser) where
  write_pending_keeps :
      (ns : List String) (s : Store) → Harmless s → Harmless (write_pending b ns s)
  write_pending_keeps ns s h = elim (Bool-cases s.writable) [
    | inl e ↦ rw (e, write_pending) h
    | inr e ↦ rw (e, write_pending) h
  ]

  queued_keeps : (name : String) (s : Store) → Harmless s → Harmless (queued b name s)
  queued_keeps name s h = elim (Bool-cases (contains (read_pending b s) name)) [
    | inl e ↦ rw (e, queued) h
    | inr e ↦ rw (e, queued) (write_pending_keeps _ s h)
  ]

  unqueued_keeps :
      (done : Bool) (name : String) (s : Store) → Harmless s → Harmless (unqueued b done name s)
  unqueued_keeps true name s h = write_pending_keeps _ s h
  unqueued_keeps false name s h = h

  attempt_keeps :
      (name : String) (s : Store)
      → protected name ≡ false
      → Harmless s
      → Harmless (delete_database b name s).1
  attempt_keeps name s p h = All-append (λ n. protected n ≡ false) s.attempts (name ∷ []) h (p, tt)

  -- A sign-out attempts to delete no protected database.
  retire_store_keeps :
      (name : Option String) (s : Store) → Harmless s → Harmless (retire_store b name s)
  unfolding retire_store
  retire_store_keeps none s h = h
  retire_store_keeps (some name) s h = elim (Bool-cases (is_empty name || protected name)) [
    | inl e ↦ rw e h
    | inr e ↦ rw e (
        unqueued_keeps _ name _
          (attempt_keeps name (queued b name s) (ground (arith, e)) (queued_keeps name s h)))
  ]

  sorted_store :
      (done : Bool) (name : String) (r : Reaped b) → (sorted b done name r).store ≡ r.store
  sorted_store true name r = refl
  sorted_store false name r = refl

  reap_each_keeps :
      (names : List String) (s : Store) → Harmless s → Harmless (reap_each b names s).store
  unfolding reap_each
  reap_each_keeps [] s h = h
  reap_each_keeps (name ∷ names) s h = elim (Bool-cases (protected name)) [
    | inl e ↦ rw e (reap_each_keeps names s h)
    | inr e ↦ rw (e, sorted_store) (reap_each_keeps names _ (attempt_keeps name s e h))
  ]

  reap_stores_keeps : (s : Store) → Harmless s → Harmless (reap_stores b s).1
  unfolding reap_stores
  reap_stores_keeps s h = go (read_pending b s)
    where
      go : (names : List String) → Harmless (reap_from b names s).1
      go [] = h
      go (name ∷ names) = write_pending_keeps _ _ (reap_each_keeps (name ∷ names) s h)

  -- Whatever sign-outs and starts there are, and whatever the queue holds at the beginning, no
  -- deletion of a protected database is attempted.
  pub run_steps-Harmless :
      (steps : List ReaperStep) (s : Store) → s.attempts ≡ [] → Harmless (run_steps b steps s)
  run_steps-Harmless steps s e = go steps s (rw e tt)
    where
      go : (steps : List ReaperStep) (s : Store) → Harmless s → Harmless (run_steps b steps s)
      go [] s h = h
      go (signs_out name ∷ steps) s h = go steps _ (retire_store_keeps name s h)
      go (starts ∷ steps) s h = go steps _ (reap_stores_keeps s h)

  -- Of names that are attempted one after the other, the first after `k` other attempts, those whose
  -- deletion succeeds, or fails.
  abbrev pub came_out : Bool → ℕ → List String → List String
  came_out done k [] = []
  came_out done k (n ∷ ns) =
      let rest = came_out done (k + 1) ns in
      if agrees done (is_success (b.outcome k n)) then n ∷ rest else rest

  abbrev pub unprotected : List String → List String
  unprotected names = filter (λ n. not (protected n)) names

  sorted-came_out :
      (done : Bool) (k : ℕ) (name : String) (names : List String) (r : Reaped b)
      → is_success (b.outcome k name) ≡ done
      → (r.deleted ≡ came_out true (k + 1) names) × (r.stuck ≡ came_out false (k + 1) names)
      → ((sorted b done name r).deleted ≡ came_out true k (name ∷ names))
        × ((sorted b done name r).stuck ≡ came_out false k (name ∷ names))
  sorted-came_out true k name names r e h = rw e (ap (λ l. name ∷ l) h.0, h.1)
  sorted-came_out false k name names r e h = rw e (h.0, ap (λ l. name ∷ l) h.1)

  reap_each-came_out :
      (names : List String) (s : Store)
      → let r = reap_each b names s in
        let k = length s.attempts in
        ((r.deleted ≡ came_out true k (unprotected names))
          × (r.stuck ≡ came_out false k (unprotected names)))
        × (r.store.attempts ≡ s.attempts ++ unprotected names)
  unfolding reap_each
  reap_each-came_out [] s = ((refl, refl), sym (append-nil s.attempts))
  reap_each-came_out (name ∷ names) s = elim (Bool-cases (protected name)) [
    | inl e ↦ rw e (reap_each-came_out names s)
    | inr e ↦
        let rest = reap_each-came_out names (delete_database b name s).1 in
        let next : length (s.attempts ++ name ∷ []) ≡ length s.attempts + 1 =
          length-append s.attempts (name ∷ []) in
        rw (e, sorted_store)
          (
            sorted-came_out (is_success (b.outcome (length s.attempts) name)) (length s.attempts)
                name (unprotected names) _ refl (rw next at rest.0),
            rest.1 ∙ append_assoc s.attempts (name ∷ []) (unprotected names),
          )
  ]

  write_pending-attempts :
      (ns : List String) (s : Store) → (write_pending b ns s).attempts ≡ s.attempts
  write_pending-attempts ns s = elim (Bool-cases s.writable) [
    | inl e ↦ rw (e, write_pending) refl
    | inr e ↦ rw (e, write_pending) refl
  ]

  reap_each-item :
      (names : List String) (s : Store)
      → ((reap_each b names s).store.readable ≡ s.readable)
        × ((reap_each b names s).store.writable ≡ s.writable)
  unfolding reap_each
  reap_each-item [] s = (refl, refl)
  reap_each-item (n ∷ names) s = elim (Bool-cases (protected n)) [
    | inl e ↦ rw e (reap_each-item names s)
    | inr e ↦ rw (e, sorted_store) (reap_each-item names (delete_database b n s).1)
  ]

-- `JSON.parse` reads what `JSON.stringify` has written, which is not the empty text.
pub record IsLawful (b : Browser) : Type 0 where
  pub not_empty : (ns : List String) → is_empty (b.stringify ns) ≡ false
  pub round_trip : (ns : List String) → b.parse (b.stringify ns) ≡ some (map some ns)

texts_in-map : (ns : List String) → texts_in (map some ns) ≡ ns
texts_in-map [] = refl
texts_in-map (n ∷ ns) = ap (λ l. n ∷ l) (texts_in-map ns)

module _ (b : Browser) (lawful : IsLawful b) where
  read_pending-write :
      (ns : List String) (s : Store)
      → s.readable ≡ true
      → s.writable ≡ true
      → read_pending b (write_pending b ns s) ≡ ns
  read_pending-write [] s r w = rw (w, r) refl
  read_pending-write (n ∷ ns) s r w =
      rw (w, r, lawful.not_empty (n ∷ ns), lawful.round_trip (n ∷ ns)) (texts_in-map (n ∷ ns))

  -- Where JSON keeps lists of texts and `localStorage` can be read and written, a start of the app
  -- attempts the deletion of every queued name that is not protected, once and in order; it tells as
  -- deleted just the names whose attempt succeeded, and just the others are queued afterwards.
  pub reap_stores-Accounted :
      (s : Store)
      → s.readable ≡ true
      → s.writable ≡ true
      → let names = unprotected b (read_pending b s) in
        ((reap_stores b s).1.attempts ≡ s.attempts ++ names)
        × ((reap_stores b s).0 ≡ came_out b true (length s.attempts) names)
        × (read_pending b (reap_stores b s).1 ≡ came_out b false (length s.attempts) names)
  unfolding reap_stores
  reap_stores-Accounted s r w = go (read_pending b s) refl
    where
      go :
          (names : List String)
          → read_pending b s ≡ names
          → ((reap_from b names s).1.attempts ≡ s.attempts ++ unprotected b names)
            × ((reap_from b names s).0 ≡ came_out b true (length s.attempts) (unprotected b names))
            × (read_pending b (reap_from b names s).1
                ≡ came_out b false (length s.attempts) (unprotected b names))
      go [] empty = (sym (append-nil s.attempts), refl, empty)
      go (n ∷ names) _ =
          let kept = reap_each-item b (n ∷ names) s in
          let told = reap_each-came_out b (n ∷ names) s in
          let t = reap_each b (n ∷ names) s in
          (
            write_pending-attempts b t.stuck t.store ∙ told.1,
            told.0.0,
            read_pending-write t.stuck t.store (kept.0 ∙ r) (kept.1 ∙ w) ∙ told.0.1,
          )

  contains-last : (names : List String) (name : String) → contains (names ++ name ∷ []) name ≡ true
  contains-last [] name = ground (arith, eq_iff name name)
  contains-last (n ∷ names) name = ground (arith, contains-last names name)

  queued-contains :
      (s : Store) (name : String)
      → s.readable ≡ true
      → s.writable ≡ true
      → contains (read_pending b (queued b name s)) name ≡ true
  queued-contains s name r w = elim (Bool-cases (contains (read_pending b s) name)) [
    | inl e ↦ rw (e, queued) e
    | inr e ↦
        rw (e, queued, read_pending-write (read_pending b s ++ name ∷ []) s r w)
          (contains-last (read_pending b s) name)
  ]

  queued-attempts : (s : Store) (name : String) → (queued b name s).attempts ≡ s.attempts
  queued-attempts s name = elim (Bool-cases (contains (read_pending b s) name)) [
    | inl e ↦ rw (e, queued) refl
    | inr e ↦ elim (Bool-cases s.writable) [
      | inl w ↦ rw (e, queued, w) refl
      | inr w ↦ rw (e, queued, w) refl
    ]
  ]

  -- Where JSON keeps lists of texts and `localStorage` can be read and written, the store of an
  -- account that signs out, whose name is not empty or protected, is deleted or queued.
  pub retire_store-Queued :
      (s : Store) (name : String)
      → s.readable ≡ true
      → s.writable ≡ true
      → is_empty name ≡ false
      → protected name ≡ false
      → (is_success (b.outcome (length s.attempts) name)
          || contains (read_pending b (retire_store b (some name) s)) name)
        ≡ true
  unfolding retire_store
  retire_store-Queued s name r w e p =
      let h : (is_empty name || protected name) ≡ false = ground (arith, e, p) in
      rw h
        (go _ _ (ap (λ l. is_success (b.outcome (length l) name)) (sym (queued-attempts s name))))
    where
      go :
          (told done : Bool)
          → told ≡ done
          → (told
              || contains
                  (read_pending b
                    (unqueued b done name (delete_database b name (queued b name s)).1))
                  name)
            ≡ true
      go told true e = ground (arith, e)
      go told false e = ground (arith, e, queued-contains s name r w)

-- ===== src/Client/Tables.antt =====
-- The tables of a tab's requests (ui/src/worker/client.ts, lines 131 to 191): what registering and
-- settling a request does to the promise that they hold for an id.
use secure_collab_app.Prelude.{
  ℕ, suc, ◌≡◌, ◌≤◌, refl, Bool, true, false, String, Option, none, some, List, [], ◌∷◌, ◌++◌,
  if◌then◌else◌, eqb, arith, Bool-cases, inl, inr,
}
use secure_collab_app.Exec.{Result, err}
use secure_collab_app.Worker.Protocol.{Cloneable}
use secure_collab_app.Client.{
  Tab, find_id, without_id, settle, register, TabStep, sends, receives, times_out, hears,
}

-- The promise of one request.
pub data Promise : Type 0 where
  unsent : Promise
  waits : (timer : Bool) → Promise
  settles : Result Cloneable → Promise

abbrev pub settle_waiting : Result Cloneable → Promise → Promise
settle_waiting outcome unsent = unsent
settle_waiting outcome (waits timer) = settles outcome
settle_waiting outcome (settles first) = settles first

abbrev pub expire : Promise → Promise
expire unsent = unsent
expire (waits true) = settles (err "Matrix worker did not answer")
expire (waits false) = waits false
expire (settles first) = settles first

abbrev pub sent_as : Bool → Option String → Promise
sent_as timer none = waits timer
sent_as timer (some e) = settles (err e)

-- What becomes of the promise `i`, when the next request gets the id `next`.
abbrev pub promise_after : ℕ → ℕ → List TabStep → Promise → Promise
promise_after i next [] p = p
promise_after i next (sends req timer refused ∷ xs) p =
    promise_after i (suc next) xs (if eqb next i then sent_as timer refused else p)
promise_after i next (receives id value ∷ xs) p =
    promise_after i next xs (if eqb id i then settle_waiting value p else p)
promise_after i next (times_out id ∷ xs) p =
    promise_after i next xs (if eqb id i then expire p else p)
promise_after i next (hears e ∷ xs) p = promise_after i next xs p

-- The promise that a tab's tables hold for an id.
abbrev pub promise_in : Option Bool → Option (Result Cloneable) → Promise
promise_in none none = unsent
promise_in none (some outcome) = settles outcome
promise_in (some timer) outcome = waits timer

abbrev pub promise_of : ℕ → Tab → Promise
promise_of i t = promise_in (find_id i t.pending) (find_id i t.settled)

module _ {A : Type 0} (i : ℕ) where
  find_id-append-same :
      (xs : List (ℕ × A)) (a : A) → find_id i xs ≡ none → find_id i (xs ++ (i, a) ∷ []) ≡ some a
  find_id-append-same [] a h = ground arith
  find_id-append-same ((j, b) ∷ xs) a h = elim (Bool-cases (eqb j i)) [
    | inl e ↦ let f : some b ≡ none = rw e at h in cc
    | inr e ↦ let k : find_id i xs ≡ none = rw e at h in rw e (find_id-append-same xs a k)
  ]

  find_id-append-other :
      (xs : List (ℕ × A)) (j : ℕ) (a : A)
      → eqb j i ≡ false
      → find_id i (xs ++ (j, a) ∷ []) ≡ find_id i xs
  find_id-append-other [] j a h = rw h refl
  find_id-append-other ((k, b) ∷ xs) j a h = elim (Bool-cases (eqb k i)) [
    | inl e ↦ rw e refl
    | inr e ↦ rw e (find_id-append-other xs j a h)
  ]

  find_id-without-same : (xs : List (ℕ × A)) → find_id i (without_id i xs) ≡ none
  find_id-without-same [] = refl
  find_id-without-same ((j, a) ∷ xs) = elim (Bool-cases (eqb j i)) [
    | inl e ↦ rw e (find_id-without-same xs)
    | inr e ↦ rw (e, e) (find_id-without-same xs)
  ]

  find_id-without-other :
      (j : ℕ) (xs : List (ℕ × A)) → eqb j i ≡ false → find_id i (without_id j xs) ≡ find_id i xs
  find_id-without-other j [] h = refl
  find_id-without-other j ((k, a) ∷ xs) h = elim (Bool-cases (eqb k j)) [
    | inl e ↦ let same : k ≡ j = ground (arith, e) in rw (e, same, h) (find_id-without-other j xs h)
    | inr e ↦ rw e (elim (Bool-cases (eqb k i)) [
      | inl f ↦ rw f refl
      | inr f ↦ rw f (find_id-without-other j xs h)
    ])
  ]

-- No id is both pending and settled, and the next id is new.
pub record IsSound (t : Tab) : Type 0 where
  pub apart : (i : ℕ) (timer : Bool) → find_id i t.pending ≡ some timer → find_id i t.settled ≡ none
  pub ahead : (i : ℕ) → t.next_id ≤ i → (find_id i t.pending ≡ none) × (find_id i t.settled ≡ none)

module _ (j : ℕ) (outcome : Result Cloneable) (timer : Bool) (t : Tab) where
  pub settle-promise :
      (i : ℕ)
      → IsSound t
      → find_id j t.pending ≡ some timer
      → promise_of i (settle j outcome t)
        ≡ (if eqb j i then settle_waiting outcome (promise_of i t) else promise_of i t)
  settle-promise i s w = elim (Bool-cases (eqb j i)) [
    | inl e ↦
        let same : j ≡ i = ground (arith, e) in
        let w_i : find_id i t.pending ≡ some timer = rw same at w in
        rw
          (
            e,
            same,
            find_id-without-same i t.pending,
            find_id-append-same i t.settled outcome (s.apart i timer w_i),
            w_i,
          )
          refl
    | inr e ↦
        rw (e, find_id-without-other i j t.pending e, find_id-append-other i t.settled j outcome e)
          refl
  ]

  pub settle-IsSound : IsSound t → find_id j t.pending ≡ some timer → IsSound (settle j outcome t)
  settle-IsSound s w = record {
    apart = λ i tm h. elim (Bool-cases (eqb j i)) [
      | inl e ↦
          let same : j ≡ i = ground (arith, e) in
          let gone = find_id-without-same i t.pending in
          let k : find_id i (without_id i t.pending) ≡ some tm = rw same at h in cc
      | inr e ↦
          let k : find_id i t.pending ≡ some tm = rw (find_id-without-other i j t.pending e) at h in
          rw (find_id-append-other i t.settled j outcome e) (s.apart i tm k)
    ];
    ahead = λ i l. elim (Bool-cases (eqb j i)) [
      | inl e ↦
          let same : j ≡ i = ground (arith, e) in
          let none_waits = (s.ahead i l).0 in
          let w_i : find_id i t.pending ≡ some timer = rw same at w in cc
      | inr e ↦ (
        rw (find_id-without-other i j t.pending e) (s.ahead i l).0,
        rw (find_id-append-other i t.settled j outcome e) (s.ahead i l).1,
      )
    ];
  }

module _ (timer : Bool) (t : Tab) where
  pub register-promise :
      (i : ℕ)
      → IsSound t
      → promise_of i (register timer t) ≡ (if eqb t.next_id i then waits timer else promise_of i t)
  register-promise i s = elim (Bool-cases (eqb t.next_id i)) [
    | inl e ↦
        let same : t.next_id ≡ i = ground (arith, e) in
        let new = (s.ahead i (omega (arith, same))).0 in
        rw (e, same, find_id-append-same i t.pending timer new) refl
    | inr e ↦ rw (e, find_id-append-other i t.pending t.next_id timer e) refl
  ]

  pub register-waits : IsSound t → find_id t.next_id (register timer t).pending ≡ some timer
  register-waits s =
      find_id-append-same t.next_id t.pending timer (s.ahead t.next_id (omega arith)).0

  pub register-IsSound : IsSound t → IsSound (register timer t)
  register-IsSound s = record {
    apart = λ i tm h. elim (Bool-cases (eqb t.next_id i)) [
      | inl e ↦ (s.ahead i (ground (arith, e))).1
      | inr e ↦ s.apart i tm (rw (find_id-append-other i t.pending t.next_id timer e) at h)
    ];
    ahead = λ i l.
        let other : eqb t.next_id i ≡ false = ground (arith, l) in
        let old = s.ahead i (omega (arith, l)) in
        (rw (find_id-append-other i t.pending t.next_id timer other) old.0, old.1);
  }

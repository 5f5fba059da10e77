-- ===== src/Worker/Sessions/Single.antt =====
-- At most one client is being built for an account that the tab expects
-- (ui/src/worker/dispatch.ts, lines 322 to 406).
use secure_collab_app.Prelude.{
  ℕ, ◌≤◌, ◌<◌, ◌≡◌, ◌≢◌, refl, Bool, true, false, ◌==◌, String, Option, none, some, List, [], ◌∷◌,
  eqb, length, filter, arith, All, All-weaken, All-filter, All-find, eq_iff, Bool-cases,
  Option-cases, inl, inr, find,
}
use secure_collab_app.Exec.{Result, ok, err}
use secure_collab_app.Assoc.{map_get, map_set, map_get-set, map_get-delete}
use secure_collab_app.Worker.State.{SessionEntry, SessionBuild, Worker, session_of, fresh}
use secure_collab_app.Worker.Protocol.{SessionInfo}
use secure_collab_app.Worker.Sessions.{
  told_dropped, told_mismatch, begin_for, install_as, build_result, end_build, register_entry,
  mismatch, wrong_arity, SessionStep, begins, ends, destroys, session_steps, Clients, CreateRequest,
  truthy, install, start_build, begin_expected, create_begin, without_build, clear_pending,
  create_done, destroy_session, describe,
}

-- A build for an expected account is the one that the map of pending sessions holds.
abbrev pub RegisteredAs : List (String × ℕ) → ℕ → Option String → Type 0
RegisteredAs m ticket none = Unit
RegisteredAs m ticket (some u) = map_get u m ≡ some ticket

abbrev pub Registered : List (String × ℕ) → SessionBuild → Type 0
Registered m b = RegisteredAs m b.ticket b.expected

abbrev pub Distinct : List SessionBuild → Type 0
Distinct [] = Unit
Distinct (b ∷ bs) = All (λ c. c.ticket ≢ b.ticket) bs × Distinct bs

pub record AreSingle (m : List (String × ℕ)) (next : ℕ) (builds : List SessionBuild) : Type 0 where
  pub registered : All (Registered m) builds
  pub below : All (λ b. b.ticket < next) builds
  pub distinct : Distinct builds

abbrev pub IsSingle : Worker → Type 0
IsSingle w = AreSingle w.pending_sessions w.next_ticket w.session_builds

abbrev pub expects : String → SessionBuild → Bool
expects u b = elim b.expected [ none ↦ false | some v ↦ v == u ]

module _ (u : String) where
  expects-ticket :
      (m : List (String × ℕ)) (b : SessionBuild) (t : ℕ)
      → map_get u m ≡ some t
      → Registered m b
      → expects u b ≡ true
      → b.ticket ≡ t
  expects-ticket m b t h r e = by_account b.expected r e
    where
      by_account :
          (x : Option String)
          → RegisteredAs m b.ticket x
          → elim x [ none ↦ false | some v ↦ v == u ] ≡ true
          → b.ticket ≡ t
      by_account none r e = cc
      by_account (some v) r e = ground (arith, eq_iff v u)

  expects-Registered :
      (m : List (String × ℕ)) (b : SessionBuild)
      → Registered m b
      → expects u b ≡ true
      → map_get u m ≡ some b.ticket
  expects-Registered m b r e = by_account b.expected r e
    where
      by_account :
          (x : Option String)
          → RegisteredAs m b.ticket x
          → elim x [ none ↦ false | some v ↦ v == u ] ≡ true
          → map_get u m ≡ some b.ticket
      by_account none r e = cc
      by_account (some v) r e = ground (arith, eq_iff v u)

  none_left :
      (m : List (String × ℕ)) (t : ℕ) (bs : List SessionBuild)
      → map_get u m ≡ some t
      → All (Registered m) bs
      → All (λ c. c.ticket ≢ t) bs
      → filter (expects u) bs ≡ []
  none_left m t [] h rs ds = refl
  none_left m t (c ∷ bs) h rs ds = elim (Bool-cases (expects u c)) [
    | inl e ↦ absurd (ds.0 (expects-ticket m c t h rs.0 e))
    | inr e ↦ rw e (none_left m t bs h rs.1 ds.1)
  ]

  pub at_most_one :
      (m : List (String × ℕ)) (bs : List SessionBuild)
      → All (Registered m) bs
      → Distinct bs
      → length (filter (expects u) bs) ≤ 1
  at_most_one m [] rs ds = omega arith
  at_most_one m (b ∷ bs) rs ds = elim (Bool-cases (expects u b)) [
    | inl e ↦
        rw (e, none_left m b.ticket bs (expects-Registered m b rs.0 e) rs.1 ds.0) (omega arith)
    | inr e ↦ rw e (at_most_one m bs rs.1 ds.1)
  ]

pub start_build-IsSingle :
    (expected : Option String) (w : Worker)
    → ((u : String) → expected ≡ some u → map_get u w.pending_sessions ≡ none)
    → IsSingle w
    → IsSingle (start_build expected w).0
start_build-IsSingle none w free h = record {
  registered = (tt, h.registered);
  below = (omega arith, All-weaken _ _ w.session_builds (λ b l. omega (arith, l)) h.below);
  distinct = (All-weaken _ _ w.session_builds (λ b l. ground (arith, l)) h.below, h.distinct);
}
start_build-IsSingle (some u) w free h = record {
  registered = (
    ground (arith, map_get-set u u w.next_ticket w.pending_sessions, eq_iff u u),
    All-weaken _ _ w.session_builds kept h.registered,
  );
  below = (omega arith, All-weaken _ _ w.session_builds (λ b l. omega (arith, l)) h.below);
  distinct = (All-weaken _ _ w.session_builds (λ b l. ground (arith, l)) h.below, h.distinct);
}
  where
    kept :
        (b : SessionBuild)
        → Registered w.pending_sessions b
        → Registered (map_set u w.next_ticket w.pending_sessions) b
    kept b r = by_account b.expected r
      where
        by_account :
            (x : Option String)
            → RegisteredAs w.pending_sessions b.ticket x
            → RegisteredAs (map_set u w.next_ticket w.pending_sessions) b.ticket x
        by_account none r = tt
        by_account (some v) r =
            ground
              (arith, map_get-set u v w.next_ticket w.pending_sessions, eq_iff u v, free u refl, r)

clear_pending-Registered :
    (m : List (String × ℕ)) (b c : SessionBuild)
    → Registered m b
    → Registered m c
    → c.ticket ≢ b.ticket
    → Registered (clear_pending b.expected m) c
clear_pending-Registered m b c rb rc d = by_account b.expected c.expected rb rc
  where
    by_account :
        (x y : Option String)
        → RegisteredAs m b.ticket x
        → RegisteredAs m c.ticket y
        → RegisteredAs (clear_pending x m) c.ticket y
    by_account none y rb rc = rc
    by_account (some u) none rb rc = tt
    by_account (some u) (some v) rb rc = ground (arith, map_get-delete u v m, eq_iff u v, d, rb, rc)

without_build-Distinct :
    (t : ℕ) (bs : List SessionBuild) → Distinct bs → Distinct (without_build t bs)
without_build-Distinct t [] h = tt
without_build-Distinct t (b ∷ bs) h = elim (Bool-cases (eqb b.ticket t)) [
  | inl e ↦ rw e (without_build-Distinct t bs h.1)
  | inr e ↦ rw e (All-filter _ _ _ bs (λ c d _. d) h.0, without_build-Distinct t bs h.1)
]

pub without_build-AreSingle :
    (m : List (String × ℕ)) (next : ℕ) (bs : List SessionBuild) (b : SessionBuild)
    → Registered m b
    → AreSingle m next bs
    → AreSingle (clear_pending b.expected m) next (without_build b.ticket bs)
without_build-AreSingle m next bs b rb h = record {
  registered =
      All-filter _ _ _ bs (λ c rc e. clear_pending-Registered m b c rb rc (ground (arith, e)))
        h.registered;
  below = All-filter _ _ _ bs (λ c l _. l) h.below;
  distinct = without_build-Distinct b.ticket bs h.distinct;
}

told_dropped_keeps :
    (b : Bool) (u : String) (w : Worker) → IsSingle w → IsSingle (told_dropped b u w)
told_dropped_keeps true u w h = h
told_dropped_keeps false u w h = h

told_mismatch_keeps : (b : Bool) (w : Worker) → IsSingle w → IsSingle (told_mismatch b w)
told_mismatch_keeps true w h = h
told_mismatch_keeps false w h = h

-- What an installation leaves as it is.
pub record SameBuilds (w v : Worker) : Type 0 where
  pub pending : v.pending_sessions ≡ w.pending_sessions
  pub next : v.next_ticket ≡ w.next_ticket
  pub builds : v.session_builds ≡ w.session_builds

told-SameBuilds :
    (c d : Bool) (u : String) (ms : ℕ) (w : Worker)
    → SameBuilds w (told_mismatch d (register_entry u ms (told_dropped c u w)))
told-SameBuilds true true u ms w = record { pending = refl; next = refl; builds = refl }
told-SameBuilds true false u ms w = record { pending = refl; next = refl; builds = refl }
told-SameBuilds false true u ms w = record { pending = refl; next = refl; builds = refl }
told-SameBuilds false false u ms w = record { pending = refl; next = refl; builds = refl }

end_build-IsSingle :
    (b : SessionBuild) (w v : Worker)
    → SameBuilds w v
    → Registered w.pending_sessions b
    → IsSingle w
    → IsSingle (end_build b v)
end_build-IsSingle b w v same r h =
    rw (same.pending, same.next, same.builds)
      (without_build-AreSingle w.pending_sessions w.next_ticket w.session_builds b r h)

module _ (clients : Clients) where
  built-SameBuilds :
      (b : SessionBuild) (built : Option ℕ) (w : Worker)
      → SameBuilds w (
          let r = build_result (install clients) built w in
          told_mismatch (mismatch b.expected r.0) r.1)
  built-SameBuilds b none w = record { pending = refl; next = refl; builds = refl }
  built-SameBuilds b (some ms) w = by_result (describe clients ms false)
    where
      by_result :
          (r : Result SessionInfo)
          → SameBuilds w
              (told_mismatch (mismatch b.expected (install_as ms r w).0) (install_as ms r w).1)
      by_result (err e) = record { pending = refl; next = refl; builds = refl }
      by_result (ok info) = told-SameBuilds _ _ info.user_id ms w

  create_done_keeps :
      (ticket : ℕ) (built : Option ℕ) (w : Worker)
      → IsSingle w
      → IsSingle (create_done clients ticket built w)
  unfolding create_done
  create_done_keeps ticket built w h =
      elim (Option-cases (find (λ (b : SessionBuild). eqb b.ticket ticket) w.session_builds)) [
        | inl e ↦ rw (e, create_done) h
        | inr (b, e) ↦
            rw (e, create_done)
              (end_build-IsSingle b w _ (built-SameBuilds b built w)
                (All-find (Registered w.pending_sessions) _ w.session_builds h.registered e).0 h)
      ]

  begin_for_keeps :
      (x : Option (ℕ × SessionEntry)) (p : Option ℕ) (u : String) (w : Worker)
      → map_get u w.pending_sessions ≡ p
      → IsSingle w
      → IsSingle (begin_for clients x p u w).0
  begin_for_keeps (some (at, e)) p u w q h = h
  begin_for_keeps none (some t) u w q h = h
  begin_for_keeps none none u w q h =
      start_build-IsSingle (some u) w (λ v same. let e : u ≡ v = cc in rw (← e) q) h

  begin_expected_keeps :
      (expected : Option String) (w : Worker)
      → IsSingle w
      → IsSingle (begin_expected clients expected w).0
  begin_expected_keeps none w h = start_build-IsSingle none w (λ u e. cc) h
  begin_expected_keeps (some u) w h =
      begin_for_keeps (session_of w u) (map_get u w.pending_sessions) u w refl h

  create_begin_keeps :
      (req : CreateRequest) (w : Worker) → IsSingle w → IsSingle (create_begin clients req w).0
  unfolding create_begin
  create_begin_keeps req w h = elim (Bool-cases (wrong_arity req)) [
    | inl e ↦ rw e h
    | inr e ↦ rw e (begin_expected_keeps (truthy req.expect_user_id) w h)
  ]

  destroy_session_keeps : (u : String) (w : Worker) → IsSingle w → IsSingle (destroy_session u w)
  unfolding destroy_session
  destroy_session_keeps u w h = elim (Option-cases (session_of w u)) [
    | inl e ↦ rw (e, destroy_session) h
    | inr ((at, en), e) ↦ rw (e, destroy_session) h
  ]

  session_steps_keep :
      (steps : List SessionStep) (w : Worker)
      → IsSingle w
      → IsSingle (session_steps clients steps w)
  session_steps_keep [] w h = h
  session_steps_keep (begins req ∷ steps) w h =
      session_steps_keep steps _ (create_begin_keeps req w h)
  session_steps_keep (ends ticket built ∷ steps) w h =
      session_steps_keep steps _ (create_done_keeps ticket built w h)
  session_steps_keep (destroys u ∷ steps) w h =
      session_steps_keep steps _ (destroy_session_keeps u w h)

  -- Whatever sequence of `session.create` requests, ends of builds and destructions a new worker
  -- has gone through, at most one of the builds in flight is for any one expected account.
  pub session_steps-AtMostOne :
      (steps : List SessionStep) (u : String)
      → length (filter (expects u) (session_steps clients steps fresh).session_builds) ≤ 1
  session_steps-AtMostOne steps u =
      let h =
        session_steps_keep steps fresh (record { registered = tt; below = tt; distinct = tt }) in
      at_most_one u _ _ h.registered h.distinct

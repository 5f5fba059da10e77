-- ===== src/Worker/Push/Delivery.antt =====
-- Which tab gets which state (ui/src/worker/dispatch.ts, lines 237 to 265).
use secure_collab_app.Prelude.{
  ℕ, zero, suc, ◌≡◌, refl, ◌∙◌, Bool, true, false, String, Option, none, some, List, [], ◌∷◌, ◌++◌,
  if◌then◌else◌, eqb, arith, inl, inr, Bool-cases, append_assoc, append-nil, ap, sym, All, map,
}
use mathlib.Core.List.{map-append}
use secure_collab_app.Worker.Protocol.{Event, workspace_state}
use secure_collab_app.Worker.Push.Keys.{IsPlain, ids_of-key_of}
use secure_collab_app.Worker.Push.Groups.{
  times, keys_for, times-append, eqb_refl, OneEach, tables_for, key_for, by_table_set-keys,
}
use secure_collab_app.Worker.State.{Worker, find_workspace}
use secure_collab_app.Worker.Push.{
  Reads, Parsed, materialize, ids_of, sort, unique, by_table_set, send_to, send_all, warn_times,
  push_groups, push_state,
}

-- The events for one tab in what was sent.
abbrev pub events_for : ℕ → List (ℕ × Event) → List Event
events_for client [] = []
events_for client ((c, e) ∷ sent) =
    if eqb c client then e ∷ events_for client sent else events_for client sent

events_for-append :
    (client : ℕ) (xs ys : List (ℕ × Event))
    → events_for client (xs ++ ys) ≡ events_for client xs ++ events_for client ys
events_for-append client [] ys = refl
events_for-append client ((c, e) ∷ xs) ys = elim (Bool-cases (eqb c client)) [
  | inl q ↦ rw (q, events_for-append client xs ys) refl
  | inr q ↦ rw (q, events_for-append client xs ys) refl
]

warn_times-sent : (n : ℕ) (w : Worker) → (warn_times n w).sent ≡ w.sent
warn_times-sent zero w = refl
warn_times-sent (suc n) w = warn_times-sent n _

module _ (reachable : ℕ → Bool) where
  abbrev sent_if : Bool → List Event → List Event
  sent_if b es = if b then es else []

  sent_if-append :
      (b : Bool) (xs ys : List Event) → sent_if b (xs ++ ys) ≡ sent_if b xs ++ sent_if b ys
  sent_if-append true xs ys = refl
  sent_if-append false xs ys = refl

  sent_if-nil : (b : Bool) → sent_if b [] ≡ []
  sent_if-nil true = refl
  sent_if-nil false = refl

  module _ (bundle : String → Event) (client : ℕ) where
    -- What a tab gets for the groups that it is in.
    abbrev due : List String → List Event
    due keys = sent_if (reachable client) (map bundle keys)

    due-append : (xs ys : List String) → due (xs ++ ys) ≡ due xs ++ due ys
    due-append xs ys =
        rw (map-append bundle xs ys)
          (sent_if-append (reachable client) (map bundle xs) (map bundle ys))

    send_to-events :
        (key : String) (c : ℕ) (w : Worker)
        → events_for client (send_to reachable (bundle key) c w).sent
          ≡ events_for client w.sent ++ due (times client key (c ∷ []))
    send_to-events key c w = elim (Bool-cases (eqb c client)) [
      | inl e ↦
          let same : c ≡ client = ground (arith, e) in
          rw (e, same)
            (elim (Bool-cases (reachable client)) [
              | inl r ↦
                  rw
                    (
                      r,
                      events_for-append client w.sent ((client, bundle key) ∷ []),
                      eqb_refl client,
                    )
                    refl
              | inr r ↦ rw (r, append-nil (events_for client w.sent)) refl
            ])
      | inr e ↦
          rw (e, sent_if-nil (reachable client), append-nil (events_for client w.sent))
            (elim (Bool-cases (reachable c)) [
              | inl r ↦
                  rw
                    (
                      r,
                      events_for-append client w.sent ((c, bundle key) ∷ []),
                      e,
                      append-nil (events_for client w.sent),
                    )
                    refl
              | inr r ↦ rw r refl
            ])
    ]

    send_all-events :
        (key : String) (cs : List ℕ) (w : Worker)
        → events_for client (send_all reachable (bundle key) cs w).sent
          ≡ events_for client w.sent ++ due (times client key cs)
    send_all-events key [] w =
        rw (sent_if-nil (reachable client), append-nil (events_for client w.sent)) refl
    send_all-events key (c ∷ cs) w =
        send_all-events key cs _
        ∙ rw (send_to-events key c w, times-append client key (c ∷ []) cs)
            (append_assoc (events_for client w.sent) _ _
              ∙ ap (λ x. events_for client w.sent ++ x)
                  (sym (due-append (times client key (c ∷ [])) (times client key cs))))

  module _ (reads : ℕ → Reads) (parse : String → Parsed) (precedes : String → String → Bool)
      (ws : ℕ) (room_id : String) where
    abbrev bundle_of : String → Event
    bundle_of key = workspace_state room_id (materialize (reads ws) parse (ids_of key)).0

    push_groups-events :
        (client : ℕ) (groups : List (String × List ℕ)) (w : Worker)
        → events_for client (push_groups reachable reads parse precedes ws room_id groups w).sent
          ≡ events_for client w.sent ++ due bundle_of client (keys_for client groups)
    push_groups-events client [] w =
        rw (sent_if-nil (reachable client), append-nil (events_for client w.sent)) refl
    push_groups-events client ((key, cs) ∷ groups) w =
        let n = (materialize (reads ws) parse (ids_of key)).1 in
        push_groups-events client groups _
        ∙ rw (send_all-events bundle_of client key cs (warn_times n w), warn_times-sent n w)
            (append_assoc (events_for client w.sent) _ _
              ∙ ap (λ x. events_for client w.sent ++ x)
                  (sym
                    (due-append bundle_of client (times client key cs) (keys_for client groups))))

    -- What a tab that has asked for some tables is to be shown.
    abbrev pub shown : Option (List String) → List Event
    shown none = []
    shown (some table_ids) =
        workspace_state room_id (materialize (reads ws) parse (sort precedes (unique table_ids))).0
        ∷ []

    abbrev pub ArePlain : Option (List String) → Type 0
    ArePlain none = Unit
    ArePlain (some table_ids) = All IsPlain table_ids

    due-shown :
        (client : ℕ) (asked : Option (List String))
        → ArePlain asked
        → due bundle_of client (key_for room_id precedes asked)
          ≡ sent_if (reachable client) (shown asked)
    due-shown client none h = refl
    due-shown client (some table_ids) h = rw (ids_of-key_of precedes table_ids h) refl

    -- When the state of an open room is pushed, a tab that can be reached and has asked for tables
    -- of the room gets one message, the state with the rows of just these tables, and any other tab
    -- gets none: grouping the tabs by their tables changes nothing for a tab. Each tab has one
    -- subscription, and the ids of its tables are not empty and have no spaces.
    pub push_state-shown :
        (client : ℕ) (w : Worker)
        → find_workspace w room_id ≡ some ws
        → OneEach w.subscriptions
        → ArePlain (tables_for room_id client w.subscriptions)
        → events_for client (push_state reachable reads parse precedes room_id w).sent
          ≡ events_for client w.sent
            ++ (if reachable client then shown (tables_for room_id client w.subscriptions) else [])
    unfolding push_state
    push_state-shown client w o d h = rw o (
        push_groups-events client (by_table_set precedes room_id w.subscriptions []) w
        ∙ ap (λ x. events_for client w.sent ++ x)
            (rw (by_table_set-keys room_id precedes client w.subscriptions [] d refl)
              (due-shown client (tables_for room_id client w.subscriptions) h)))

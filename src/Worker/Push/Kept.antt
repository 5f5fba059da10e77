-- ===== src/Worker/Push/Kept.antt =====
-- Pushing state leaves the sessions and the workspace builds of the worker as they are
-- (ui/src/worker/dispatch.ts, lines 244 to 265).
use secure_collab_app.Prelude.{
  ℕ, zero, suc, refl, Bool, true, false, String, Option, none, some, List, [], ◌∷◌,
}
use secure_collab_app.Worker.Protocol.{Event, workspace_state, warn_line}
use secure_collab_app.Worker.State.{Worker, find_workspace, log_at}
use secure_collab_app.Worker.Push.{
  Reads, Parsed, materialize, ids_of, by_table_set, send_to, send_all, warn_times, push_groups,
  push_for, push_state, send_if,
}
use secure_collab_app.Worker.Workspaces.Kept.{SameRooms, then_same, same}

warn_times-same : (n : ℕ) (w : Worker) → SameRooms w (warn_times n w)
warn_times-same zero w = same w
warn_times-same (suc n) w =
    let first : SameRooms w (log_at warn_line w) = record {
      entries = refl;
      sessions = refl;
      pending = refl;
      next = refl;
      builds = refl;
    } in
    then_same first (warn_times-same n (log_at warn_line w))

send_if-same : (b : Bool) (e : Event) (client : ℕ) (w : Worker) → SameRooms w (send_if b e client w)
send_if-same true e client w = record {
  entries = refl;
  sessions = refl;
  pending = refl;
  next = refl;
  builds = refl;
}
send_if-same false e client w = record {
  entries = refl;
  sessions = refl;
  pending = refl;
  next = refl;
  builds = refl;
}

module _ (reachable : ℕ → Bool) where
  send_all-same : (e : Event) (cs : List ℕ) (w : Worker) → SameRooms w (send_all reachable e cs w)
  send_all-same e [] w = same w
  send_all-same e (c ∷ cs) w =
      then_same (send_if-same (reachable c) e c w) (send_all-same e cs (send_to reachable e c w))

  module _ (reads : ℕ → Reads) (parse : String → Parsed) (precedes : String → String → Bool) where
    push_groups-same :
        (ws : ℕ) (room_id : String) (groups : List (String × List ℕ)) (w : Worker)
        → SameRooms w (push_groups reachable reads parse precedes ws room_id groups w)
    push_groups-same ws room_id [] w = same w
    push_groups-same ws room_id ((key, cs) ∷ groups) w =
        let m = materialize (reads ws) parse (ids_of key) in
        let v = warn_times m.1 w in
        then_same (warn_times-same m.1 w) (
          then_same (send_all-same (workspace_state room_id m.0) cs v) (
            push_groups-same ws room_id groups
              (send_all reachable (workspace_state room_id m.0) cs v)))

    push_for-same :
        (o : Option ℕ) (room_id : String) (w : Worker)
        → SameRooms w (push_for reachable reads parse precedes o room_id w)
    push_for-same none room_id w = same w
    push_for-same (some ws) room_id w =
        push_groups-same ws room_id (by_table_set precedes room_id w.subscriptions []) w

    pub push_state-same :
        (room_id : String) (w : Worker)
        → SameRooms w (push_state reachable reads parse precedes room_id w)
    unfolding push_state
    push_state-same room_id w = push_for-same (find_workspace w room_id) room_id w

-- ===== src/Worker/Workspaces/Kept.antt =====
-- What the callbacks of a workspace and the writing to the stores leave as it is
-- (ui/src/worker/dispatch.ts, lines 408 to 528).
use secure_collab_app.Prelude.{
  ℕ, ◌≡◌, refl, ◌∙◌, Bool, true, false, String, Option, none, some, List, [], ◌∷◌, if◌then◌else◌,
  get_elem?, ltb, is_empty,
}
use secure_collab_app.Exec.{Result, ok, err}
use secure_collab_app.Worker.Protocol.{workspace_change, log_line}
use secure_collab_app.Worker.State.{WorkspaceBuild, Persistence, Worker, broadcast, log_at}
use secure_collab_app.Worker.Persistence.{
  persist_outbox, persist_outbox_of, persist_snapshot_of, same_outbox, with_timer,
}
use secure_collab_app.Worker.Workspaces.{
  Fired, synced, queue_changed, on_fired, on_all_fired, replay, nothing_saved, replayed, threw,
  Replayed, on_fired_in,
}

-- The sessions and the workspaces that are being opened are what they were.
pub record SameRooms (w v : Worker) : Type 0 where
  pub entries : v.entries ≡ w.entries
  pub sessions : v.sessions ≡ w.sessions
  pub pending : v.pending_workspaces ≡ w.pending_workspaces
  pub next : v.next_opening ≡ w.next_opening
  pub builds : v.workspace_builds ≡ w.workspace_builds

pub same : (w : Worker) → SameRooms w w
same w = record { entries = refl; sessions = refl; pending = refl; next = refl; builds = refl }

pub then_same : {u v w : Worker} → SameRooms u v → SameRooms v w → SameRooms u w
then_same h k = record {
  entries = k.entries ∙ h.entries;
  sessions = k.sessions ∙ h.sessions;
  pending = k.pending ∙ h.pending;
  next = k.next ∙ h.next;
  builds = k.builds ∙ h.builds;
}

if_same : (b : Bool) (w v : Worker) → SameRooms w v → SameRooms w (if b then w else v)
if_same true w v h = same w
if_same false w v h = h

persist_outbox-same :
    (o : Option Persistence) (at : ℕ) (r : Result String) (w : Worker)
    → SameRooms w (persist_outbox_of at o r w)
persist_outbox-same none at r w = same w
persist_outbox-same (some p) at (err e) w = record {
  entries = refl;
  sessions = refl;
  pending = refl;
  next = refl;
  builds = refl;
}
persist_outbox-same (some p) at (ok json) w =
    if_same (same_outbox p.last_outbox json) w _
      (record { entries = refl; sessions = refl; pending = refl; next = refl; builds = refl })

pub persist_snapshot-same :
    (o : Option Persistence) (r : Result String) (w : Worker)
    → SameRooms w (persist_snapshot_of o r w)
persist_snapshot-same none r w = same w
persist_snapshot-same (some p) (err e) w = record {
  entries = refl;
  sessions = refl;
  pending = refl;
  next = refl;
  builds = refl;
}
persist_snapshot-same (some p) (ok s) w =
    if_same (is_empty s) w _
      (record { entries = refl; sessions = refl; pending = refl; next = refl; builds = refl })

with_timer-same :
    (b : Bool) (o : Option Persistence) (at : ℕ) (w : Worker) → SameRooms w (with_timer b o at w)
with_timer-same b none at w = same w
with_timer-same b (some p) at w = record {
  entries = refl;
  sessions = refl;
  pending = refl;
  next = refl;
  builds = refl;
}

module _ (push : String → Worker → Worker)
    (push-same : (room_id : String) (w : Worker) → SameRooms w (push room_id w)) where
  on_fired-same :
      (room_id : String) (at : ℕ) (f : Fired) (w : Worker)
      → SameRooms w (on_fired_in push room_id at f w)
  unfolding persist_outbox
  on_fired-same room_id at synced w =
      let told = broadcast (workspace_change room_id) w in
      let v = push room_id told in
      let first : SameRooms w told = record {
        entries = refl;
        sessions = refl;
        pending = refl;
        next = refl;
        builds = refl;
      } in
      then_same (then_same first (push-same room_id told))
        (with_timer-same true (get_elem? v.persistences at) at v)
  on_fired-same room_id at (queue_changed pending) w =
      let k = persist_outbox-same (get_elem? w.persistences at) at pending w in
      record {
        entries = k.entries;
        sessions = k.sessions;
        pending = k.pending;
        next = k.next;
        builds = k.builds;
      }

  on_all_fired-same :
      (at : ℕ) (fs : List Fired) (w : Worker) → SameRooms w (on_all_fired push at fs w)
  unfolding on_fired
  on_all_fired-same at [] w = same w
  on_all_fired-same at (f ∷ fs) w =
      then_same (on_fired-same _ at f w) (on_all_fired-same at fs (on_fired push at f w))

  log_if-same : (b : Bool) (w : Worker) → SameRooms w (if b then log_at log_line w else w)
  log_if-same true w = record {
    entries = refl;
    sessions = refl;
    pending = refl;
    next = refl;
    builds = refl;
  }
  log_if-same false w = same w

  pub replay-same :
      (b : WorkspaceBuild) (at : ℕ) (r : Replayed) (w : Worker) → SameRooms w (replay push b at r w)
  unfolding replay
  replay-same b at nothing_saved w = record {
    entries = refl;
    sessions = refl;
    pending = refl;
    next = refl;
    builds = refl;
  }
  replay-same b at (replayed count fired) w =
      let h = on_all_fired-same at fired w in
      let k = then_same h (log_if-same (ltb 0 count) (on_all_fired push at fired w)) in
      record {
        entries = k.entries;
        sessions = k.sessions;
        pending = k.pending;
        next = k.next;
        builds = k.builds;
      }
  replay-same b at (threw fired) w =
      let h = on_all_fired-same at fired w in
      record {
        entries = h.entries;
        sessions = h.sessions;
        pending = h.pending;
        next = h.next;
        builds = h.builds;
      }

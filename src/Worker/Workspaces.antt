-- ===== src/Worker/Workspaces.antt =====
-- Workspaces of the dispatcher (ui/src/worker/dispatch.ts, lines 457 to 528). `openWorkspace` runs
-- in three parts, of which only the creation is taken to throw: `open_begin` up to the first
-- `await`, `open_created` when the wasm module has created the workspace or failed, up to the
-- reading of the outbox, and `open_restored` from there.
pub mod Kept
pub mod Stale
pub mod Single
use secure_collab_app.Prelude.{
  ℕ, suc, Bool, true, false, not, String, Option, none, some, List, [], ◌∷◌, ◌++◌, if◌then◌else◌,
  get_elem?, set_elem, length, find, filter, eqb, ltb, concat,
}
use secure_collab_app.Exec.{Result, ok, err}
use secure_collab_app.Assoc.{map_get, map_set, map_delete}
use secure_collab_app.Worker.Protocol.{workspace_change, queue_change, log_line, warn_line}
use secure_collab_app.Worker.State.{
  SessionEntry, WorkspaceBuild, Persistence, Worker, clears_outbox, broadcast, log_at, session_of,
}
use secure_collab_app.Worker.Persistence.{
  start_write, persist_outbox, persist_snapshot, schedule_snapshot,
}

pub record OpenRequest : Type 0 where
  pub user_id : String
  pub room_id : String
  pub snapshot_key : Option ℕ

pub data Opened : Type 0 where
  failed : String → Opened
  joins : Opened
  awaits : (ticket : ℕ) → Opened
  starts : (ticket : ℕ) → Opened

abbrev pub open_key : OpenRequest → String
open_key req = concat req.user_id (concat "|" req.room_id)

abbrev pub start_opening : OpenRequest → ℕ → Worker → Worker
start_opening req at w = record w {
  workspace_builds =
      record {
        ticket = w.next_opening;
        key = open_key req;
        entry = at;
        room_id = req.room_id;
        snapshot_key = req.snapshot_key;
        created = none;
      }
      ∷ w.workspace_builds;
  next_opening = suc w.next_opening;
  pending_workspaces = map_set (open_key req) w.next_opening w.pending_workspaces;
}

-- With what the maps hold: the session, its workspace for the room, and a build in flight.
abbrev pub open_known : OpenRequest → ℕ → Option ℕ → Option ℕ → Worker → Worker × Opened
open_known req at (some ws) pending w = (log_at log_line w, joins)
open_known req at none (some ticket) w = (w, awaits ticket)
open_known req at none none w = (start_opening req at w, starts w.next_opening)

abbrev pub open_for : OpenRequest → Option (ℕ × SessionEntry) → Option ℕ → Worker → Worker × Opened
open_for req none pending w = (w, failed "No session")
open_for req (some (at, e)) pending w =
    open_known req at (map_get req.room_id e.workspaces) pending w

unfoldable pub open_begin : OpenRequest → Worker → Worker × Opened
open_begin req w =
    open_for req (session_of w req.user_id) (map_get (open_key req) w.pending_workspaces) w

-- What a workspace calls back: its rooms' data changed, or its send queue changed and
-- `pendingUpdates` then returns this.
pub data Fired : Type 0 where
  synced : Fired
  queue_changed : (pending : Result String) → Fired

abbrev room_at : Option Persistence → String
room_at none = ""
room_at (some p) = p.room_id

-- What comes of the saved outbox: there is none, the workspace replays so many writes and calls
-- back, or it throws after it has called back.
pub data Replayed : Type 0 where
  nothing_saved : Replayed
  replayed : (count : ℕ) (fired : List Fired) → Replayed
  threw : (fired : List Fired) → Replayed

-- The callbacks of the workspace whose persistence is at an address; `push` is `pushState`.
module _ (push : String → Worker → Worker) where
  abbrev pub on_fired_in : String → ℕ → Fired → Worker → Worker
  on_fired_in room_id at synced w =
      schedule_snapshot at (push room_id (broadcast (workspace_change room_id) w))
  on_fired_in room_id at (queue_changed pending) w =
      broadcast (queue_change room_id) (persist_outbox at pending w)

  unfoldable pub on_fired : ℕ → Fired → Worker → Worker
  on_fired at fired w = on_fired_in (room_at (get_elem? w.persistences at)) at fired w

  abbrev pub on_all_fired : ℕ → List Fired → Worker → Worker
  on_all_fired at [] w = w
  on_all_fired at (f ∷ fs) w = on_all_fired at fs (on_fired at f w)

  unfoldable pub replay : WorkspaceBuild → ℕ → Replayed → Worker → Worker
  replay b at nothing_saved w = start_write (clears_outbox b.room_id) w
  replay b at (replayed count fired) w =
      let v = on_all_fired at fired w in
      start_write (clears_outbox b.room_id) (if ltb 0 count then log_at log_line v else v)
  replay b at (threw fired) w = log_at warn_line (on_all_fired at fired w)

abbrev pub other_build : ℕ → WorkspaceBuild → Bool
other_build ticket b = not (eqb b.ticket ticket)

-- The `finally`.
abbrev pub end_opening : WorkspaceBuild → Worker → Worker
end_opening b w = record w {
  workspace_builds = filter (other_build b.ticket) w.workspace_builds;
  pending_workspaces = map_delete b.key w.pending_workspaces;
}

abbrev mark_created : ℕ → ℕ → WorkspaceBuild → WorkspaceBuild
mark_created ticket at b = if eqb b.ticket ticket then record b { created = some at } else b

abbrev pub mark_all : ℕ → ℕ → List WorkspaceBuild → List WorkspaceBuild
mark_all ticket at [] = []
mark_all ticket at (b ∷ bs) = mark_created ticket at b ∷ mark_all ticket at bs

-- The persistence of a new workspace, at the next address.
abbrev pub add_persistence : WorkspaceBuild → ℕ → Worker → Worker
add_persistence b cws w = record w {
  persistences =
      w.persistences
      ++ record {
        room_id = b.room_id;
        cws = cws;
        key = b.snapshot_key;
        snapshot_timer = false;
        last_outbox = none;
      }
        ∷ [];
  persistence = map_set b.room_id (length w.persistences) w.persistence;
  workspace_builds = mark_all b.ticket (length w.persistences) w.workspace_builds;
}

abbrev pub find_build : ℕ → Worker → Option WorkspaceBuild
find_build ticket w = find (λ (b : WorkspaceBuild). eqb b.ticket ticket) w.workspace_builds

abbrev pub create_for : Option ℕ → WorkspaceBuild → Worker → Worker
create_for none b w = end_opening b w
create_for (some cws) b w = add_persistence b cws w

-- With the workspace that the wasm module has created, or none if it failed.
unfoldable pub open_created : ℕ → Option ℕ → Worker → Worker
open_created ticket cws w = elim (find_build ticket w) [ none ↦ w | some b ↦ create_for cws b w ]

abbrev open_room : String → ℕ → SessionEntry → SessionEntry
open_room room_id cws e = record e { workspaces = map_set room_id cws e.workspaces }

abbrev pub register_in : ℕ → Option SessionEntry → String → ℕ → Worker → Worker
register_in at none room_id cws w = w
register_in at (some e) room_id cws w = record w {
  entries = set_elem at (open_room room_id cws e) w.entries;
}

-- `entry.workspaces.set(roomId, cws)`, on the entry that the build began with.
abbrev pub register_workspace : WorkspaceBuild → Option Persistence → Worker → Worker
register_workspace b none w = w
register_workspace b (some p) w =
    register_in b.entry (get_elem? w.entries b.entry) b.room_id p.cws w

module _ (push : String → Worker → Worker) where
  abbrev pub restore_for : WorkspaceBuild → ℕ → Replayed → Result String → Worker → Worker
  restore_for b at r snapshot w =
      let v = persist_snapshot at snapshot (replay push b at r w) in
      end_opening b (register_workspace b (get_elem? v.persistences at) v)

  -- With what comes of the saved outbox, and what `snapshot` returns.
  unfoldable pub open_restored : ℕ → Replayed → Result String → Worker → Worker
  open_restored ticket r snapshot w = elim (find_build ticket w) [
    | none ↦ w
    | some b ↦ elim b.created [ none ↦ w | some at ↦ restore_for b at r snapshot w ]
  ]

-- ===== src/Worker/Persistence.antt =====
-- What the worker writes to the stores (ui/src/worker/dispatch.ts, lines 408 to 455 and 671 to 681).
-- A write is queued where the code starts it; `settle` lets the queued writes land in the order in
-- which they were started. What `pendingUpdates` and `snapshot` of a workspace return or throw is an
-- argument.
pub mod Replay
use secure_collab_app.Prelude.{
  ℕ, Bool, true, false, ◌==◌, String, Option, none, some, List, [], ◌∷◌, ◌++◌, if◌then◌else◌,
  get_elem?, set_elem, is_empty, length,
}
use secure_collab_app.Exec.{Result, ok, err}
use secure_collab_app.Assoc.{map_set}
use secure_collab_app.Stores.{Cipher, Db, clear_record, save_outbox, save_snapshot}
use secure_collab_app.Worker.Protocol.{warn_line}
use secure_collab_app.Worker.State.{
  Worker, Persistence, StoreWrite, saves_outbox, clears_outbox, saves_snapshot, log_at,
}

abbrev pub start_write : StoreWrite → Worker → Worker
start_write write w = record w { writes = w.writes ++ write ∷ [] }

abbrev pub set_persistence : ℕ → Persistence → Worker → Worker
set_persistence at p w = record w { persistences = set_elem at p w.persistences }

abbrev pub same_outbox : Option String → String → Bool
same_outbox none json = false
same_outbox (some last) json = last == json

abbrev pub persist_outbox_of : ℕ → Option Persistence → Result String → Worker → Worker
persist_outbox_of at none pending w = w
persist_outbox_of at (some p) (err e) w = log_at warn_line w
persist_outbox_of at (some p) (ok json) w =
    if same_outbox p.last_outbox json
    then w
    else start_write (saves_outbox p.room_id json p.key)
        (set_persistence at (record p { last_outbox = some json }) w)

-- With what `pendingUpdates` returns.
unfoldable pub persist_outbox : ℕ → Result String → Worker → Worker
persist_outbox at pending w = persist_outbox_of at (get_elem? w.persistences at) pending w

abbrev pub persist_snapshot_of : Option Persistence → Result String → Worker → Worker
persist_snapshot_of none snapshot w = w
persist_snapshot_of (some p) (err e) w = log_at warn_line w
persist_snapshot_of (some p) (ok s) w =
    if is_empty s then w else start_write (saves_snapshot p.room_id s p.key) w

-- With what `snapshot` returns.
unfoldable pub persist_snapshot : ℕ → Result String → Worker → Worker
persist_snapshot at snapshot w = persist_snapshot_of (get_elem? w.persistences at) snapshot w

abbrev pub with_timer : Bool → Option Persistence → ℕ → Worker → Worker
with_timer timer none at w = w
with_timer timer (some p) at w = set_persistence at (record p { snapshot_timer = timer }) w

abbrev pub schedule_snapshot : ℕ → Worker → Worker
schedule_snapshot at w = with_timer true (get_elem? w.persistences at) at w

-- The timer of `scheduleSnapshot` goes off.
unfoldable pub snapshot_due : ℕ → Result String → Worker → Worker
unfolding persist_snapshot
snapshot_due at snapshot w =
    persist_snapshot at snapshot (with_timer false (get_elem? w.persistences at) at w)

module _ (pending snapshot : ℕ → Result String) where
  abbrev flush_one : ℕ → Worker → Worker
  flush_one at w =
      persist_snapshot at (snapshot at)
        (persist_outbox at (pending at) (with_timer false (get_elem? w.persistences at) at w))

  flush_each : List (String × ℕ) → Worker → Worker
  flush_each [] w = w
  flush_each ((room_id, at) ∷ rest) w = flush_each rest (flush_one at w)

  -- `flushPersistence`
  unfoldable pub flush_persistence : Worker → Worker
  unfolding flush_each
  flush_persistence w = flush_each w.persistence w

-- The two stores, and the random bytes of the next sealing.
pub record Disk : Type 0 where
  pub outbox : Db
  pub snapshots : Db
  pub iv : ℕ

module _ (cipher : Cipher ℕ) where
  abbrev pub land : StoreWrite → Disk → Disk
  land (saves_outbox room_id json key) d = record d {
    outbox = save_outbox cipher room_id json key d.iv d.outbox;
  }
  land (clears_outbox room_id) d = record d { outbox = clear_record room_id d.outbox }
  land (saves_snapshot room_id s key) d = record d {
    snapshots = save_snapshot cipher room_id s key d.iv d.snapshots;
  }

  abbrev pub settle : List StoreWrite → Disk → Disk
  settle [] d = d
  settle (write ∷ writes) d = settle writes (land write d)

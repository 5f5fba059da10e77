-- ===== src/Worker/State.antt =====
-- What the dispatcher holds (ui/src/worker/dispatch.ts, lines 61 to 160). An object of the wasm
-- module is a number, which stands for its identity. A session entry has an address, since a
-- build in flight keeps the entry that it began with while the map may get another.
use secure_collab_app.Prelude.{ℕ, Bool, String, Option, none, some, List, [], ◌∷◌, ◌++◌, get_elem?}
use secure_collab_app.Worker.Protocol.{Event, LogLevel, log}
use secure_collab_app.Assoc.{map_get}

pub record SessionEntry : Type 0 where
  pub ms : ℕ
  pub workspaces : List (String × ℕ)
  pub session_sync_started : Bool

-- A `session.create` that is building a client.
pub record SessionBuild : Type 0 where
  pub ticket : ℕ
  pub expected : Option String

-- A `workspace.open` that is building a workspace for the entry at an address. It has the address of
-- its persistence once the workspace is created.
pub record WorkspaceBuild : Type 0 where
  pub ticket : ℕ
  pub key : String
  pub entry : ℕ
  pub room_id : String
  pub snapshot_key : Option ℕ
  pub created : Option ℕ

-- A CryptoKey is a number; the timer is told by whether it is set.
pub record Persistence : Type 0 where
  pub room_id : String
  pub cws : ℕ
  pub key : Option ℕ
  pub snapshot_timer : Bool
  pub last_outbox : Option String

-- A call of a store that nobody awaits.
pub data StoreWrite : Type 0 where
  saves_outbox : (room_id json : String) (key : Option ℕ) → StoreWrite
  clears_outbox : (room_id : String) → StoreWrite
  saves_snapshot : (room_id snapshot : String) (key : Option ℕ) → StoreWrite

pub record Worker : Type 0 where
  pub entries : List SessionEntry
  pub sessions : List (String × ℕ)
  pub pending_sessions : List (String × ℕ)
  pub pending_workspaces : List (String × ℕ)
  pub session_builds : List SessionBuild
  pub workspace_builds : List WorkspaceBuild
  pub next_ticket : ℕ
  pub next_opening : ℕ
  pub persistences : List Persistence
  pub persistence : List (String × ℕ)
  pub writes : List StoreWrite
  pub verifications : List (String × ℕ)
  pub build : Option String
  pub subscriptions : List (ℕ × List (String × List String))
  pub queued_pushes : List String
  pub broadcasts : List Event
  pub sent : List (ℕ × Event)

abbrev pub fresh : Worker
fresh = record {
  entries = [];
  sessions = [];
  pending_sessions = [];
  pending_workspaces = [];
  session_builds = [];
  workspace_builds = [];
  next_ticket = 0;
  next_opening = 0;
  persistences = [];
  persistence = [];
  writes = [];
  verifications = [];
  build = none;
  subscriptions = [];
  queued_pushes = [];
  broadcasts = [];
  sent = [];
}

abbrev pub broadcast : Event → Worker → Worker
broadcast e w = record w { broadcasts = w.broadcasts ++ e ∷ [] }

abbrev pub log_at : LogLevel → Worker → Worker
log_at level w = broadcast (log level) w

-- `sessions.get(userId)`: the address of the entry, and the entry.
unfoldable pub session_of : Worker → String → Option (ℕ × SessionEntry)
session_of w user_id = elim (map_get user_id w.sessions) [
  | none ↦ none
  | some at ↦ elim (get_elem? w.entries at) [ none ↦ none | some e ↦ some (at, e) ]
]

abbrev or_later : Option ℕ → Option ℕ → Option ℕ
or_later none later = later
or_later (some ws) later = some ws

abbrev in_entry : Option SessionEntry → String → Option ℕ → Option ℕ
in_entry none room_id later = later
in_entry (some e) room_id later = or_later (map_get room_id e.workspaces) later

-- The first session, in the order of the map, whose entry has the room open.
unfoldable pub room_in : List SessionEntry → List (String × ℕ) → String → Option ℕ
room_in entries [] room_id = none
room_in entries ((user_id, at) ∷ rest) room_id =
    in_entry (get_elem? entries at) room_id (room_in entries rest room_id)

unfoldable pub find_workspace : Worker → String → Option ℕ
unfolding room_in
find_workspace w room_id = room_in w.entries w.sessions room_id

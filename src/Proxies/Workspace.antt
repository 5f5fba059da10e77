-- ===== src/Proxies/Workspace.antt =====
-- The stand-in for a workspace (ui/src/worker/workerWorkspace.ts, lines 32 to 210 and 278 to 302): it
-- reads from the last state that the worker has pushed, and asks for the rows of a table when it
-- first reads them. The state comes as it was sent, so that it can always be read.
use secure_collab_app.Prelude.{
  ℕ, Bool, true, false, not, ◌&&◌, String, Option, none, some, List, [], ◌∷◌, ◌++◌, ◌==◌,
  if◌then◌else◌, eqb, any, contains, is_empty,
}
use secure_collab_app.Exec.{Result, ok, err}
use secure_collab_app.Assoc.{map_get}
use secure_collab_app.Worker.Protocol.{
  WorkspaceState, Event, workspace_change, workspace_state, queue_change, session_sync,
  token_refresh, session_dropped, log,
}

abbrev pub empty_state : WorkspaceState
empty_state = record {
  tables = "[]";
  table_order_keys = "{}";
  current_user_id = none;
  is_encrypted = false;
  undecryptable_count = 0;
  connection_health = "{}";
  rejected_writes = "{\"count\":0,\"lastReason\":\"\"}";
  pending_updates = "[]";
  schemas = [];
  views_by_table = [];
  views = [];
  rows = [];
  row_order_keys = [];
}

-- `notified` are the listeners that were called, and `subscribed` the tables of each subscription
-- that was posted, in order.
pub record StandIn : Type 0 where
  pub room_id : String
  pub current : WorkspaceState
  pub table_ids : List String
  pub pending_resubscribe : Bool
  pub is_ready : Bool
  pub is_closed : Bool
  pub listeners : List ℕ
  pub queue_listeners : List ℕ
  pub notified : List ℕ
  pub subscribed : List (List String)

abbrev resubscribe : StandIn → StandIn
resubscribe p = record p { subscribed = p.subscribed ++ p.table_ids ∷ [] }

-- `createWorkerWorkspace`
abbrev pub new_stand_in : String → StandIn
new_stand_in room_id = resubscribe (record {
  room_id = room_id;
  current = empty_state;
  table_ids = [];
  pending_resubscribe = false;
  is_ready = false;
  is_closed = false;
  listeners = [];
  queue_listeners = [];
  notified = [];
  subscribed = [];
})

abbrev notify : List ℕ → StandIn → StandIn
notify listeners p = record p { notified = p.notified ++ listeners }

abbrev show : WorkspaceState → StandIn → StandIn
show state p = notify p.listeners (record p { current = state; is_ready = true })

abbrev pub pushed : WorkspaceState → StandIn → StandIn
pushed state p =
    if state.pending_updates == p.current.pending_updates
    then show state p
    else notify p.queue_listeners (show state p)

-- The tab's handler of events, until it is closed.
abbrev pub on_event : Event → StandIn → StandIn
on_event (workspace_state room_id state) p =
    if not p.is_closed && (room_id == p.room_id) then pushed state p else p
on_event (queue_change room_id) p =
    if not p.is_closed && (room_id == p.room_id) then notify p.queue_listeners p else p
on_event (workspace_change room_id) p = p
on_event (session_sync user_id) p = p
on_event (token_refresh user_id blob) p = p
on_event (session_dropped user_id) p = p
on_event (log level) p = p

abbrev pub note_table : String → StandIn → StandIn
note_table table_id p =
    if contains p.table_ids table_id
    then p
    else record p { table_ids = p.table_ids ++ table_id ∷ []; pending_resubscribe = true }

-- The microtask that `noteTable` has queued, if it has.
abbrev pub microtask_if : Bool → StandIn → StandIn
microtask_if true p = resubscribe (record p { pending_resubscribe = false })
microtask_if false p = p

abbrev pub microtask : StandIn → StandIn
microtask p = microtask_if p.pending_resubscribe p

abbrev or_else : Option String → String → String
or_else none fallback = fallback
or_else (some s) fallback = s

abbrev or_throw : Option String → Result String
or_throw none = err "not found"
or_throw (some s) = if is_empty s then err "not found" else ok s

abbrev pub get_table_rows : String → StandIn → String × StandIn
get_table_rows table_id p = (or_else (map_get table_id p.current.rows) "[]", note_table table_id p)

abbrev pub get_row_order_keys : String → StandIn → String × StandIn
get_row_order_keys table_id p =
    (or_else (map_get table_id p.current.row_order_keys) "{}", note_table table_id p)

abbrev pub get_table_schema : String → StandIn → Result String
get_table_schema table_id p = or_throw (map_get table_id p.current.schemas)

abbrev pub get_view : String → StandIn → Result String
get_view view_id p = or_throw (map_get view_id p.current.views)

abbrev pub list_views_for_table : String → StandIn → String
list_views_for_table table_id p = or_else (map_get table_id p.current.views_by_table) "[]"

abbrev add_listener : ℕ → List ℕ → List ℕ
add_listener l ls = if any (eqb l) ls then ls else ls ++ l ∷ []

-- `startSync` and `onState`
abbrev pub start_sync : ℕ → StandIn → StandIn
start_sync l p = record p { listeners = add_listener l p.listeners }

abbrev pub on_queue_changed : ℕ → StandIn → StandIn
on_queue_changed l p = record p { queue_listeners = add_listener l p.queue_listeners }

abbrev pub close : StandIn → StandIn
close p = record p { is_closed = true; listeners = []; queue_listeners = [] }

-- What a stand-in goes through.
pub data Use : Type 0 where
  hears : Event → Use
  reads_rows : (table_id : String) → Use
  reads_order : (table_id : String) → Use
  runs_microtask : Use
  listens : ℕ → Use
  listens_to_queue : ℕ → Use
  closes : Use

abbrev pub use_once : Use → StandIn → StandIn
use_once (hears e) p = on_event e p
use_once (reads_rows table_id) p = (get_table_rows table_id p).1
use_once (reads_order table_id) p = (get_row_order_keys table_id p).1
use_once runs_microtask p = microtask p
use_once (listens l) p = start_sync l p
use_once (listens_to_queue l) p = on_queue_changed l p
use_once closes p = close p

abbrev pub use_all : List Use → StandIn → StandIn
use_all [] p = p
use_all (u ∷ us) p = use_all us (use_once u p)

-- ===== src/Client.antt =====
-- The tab's end of the port (ui/src/worker/client.ts): requests get ids, and the promise of each is
-- settled by the message with its id, by its timer, or by a port that refuses it. Whether
-- `postMessage` throws is told by the steps.
pub mod Tables
pub mod Promises
mod Tests
use secure_collab_app.Prelude.{
  ℕ, suc, Bool, true, false, not, String, Option, none, some, List, [], ◌∷◌, ◌++◌, if◌then◌else◌,
  eqb, filter, any,
}
use secure_collab_app.Exec.{Result, ok, err}
use secure_collab_app.Worker.Protocol.{
  Cloneable, Event, LogLevel, log, session_key, room_key, workspace_change, workspace_state,
  queue_change, session_sync, token_refresh, session_dropped,
}
use secure_collab_app.Worker.Requests.{
  Request, ping, session_create, session_static, session_destroy, workspace_open,
  workspace_subscribe, verification_acquire, call,
}
use secure_collab_app.Worker.Sessions.{CreateRequest}
use secure_collab_app.Worker.Workspaces.{OpenRequest}

-- A promise that is not settled has its id, and tells whether its timer runs.
pub record Tab : Type 0 where
  pub next_id : ℕ
  pub pending : List (ℕ × Bool)
  pub settled : List (ℕ × Result Cloneable)
  pub posted : List Request
  pub handlers : List ℕ
  pub handled : List (ℕ × Event)
  pub console : List LogLevel

abbrev pub new_tab : Tab
new_tab = record {
  next_id = 1;
  pending = [];
  settled = [];
  posted = [];
  handlers = [];
  handled = [];
  console = [];
}

abbrev pub find_id {ℓ} : {A : Type ℓ} → ℕ → List (ℕ × A) → Option A
find_id i [] = none
find_id i ((j, a) ∷ rest) = if eqb j i then some a else find_id i rest

abbrev pub without_id {ℓ} : {A : Type ℓ} → ℕ → List (ℕ × A) → List (ℕ × A)
without_id i [] = []
without_id i ((j, a) ∷ rest) = if eqb j i then without_id i rest else (j, a) ∷ without_id i rest

abbrev pub settle : ℕ → Result Cloneable → Tab → Tab
settle i outcome t = record t {
  pending = without_id i t.pending;
  settled = t.settled ++ (i, outcome) ∷ [];
}

-- `send`, with what `postMessage` throws.
abbrev pub register : Bool → Tab → Tab
register timer t = record t {
  next_id = suc t.next_id;
  pending = t.pending ++ (t.next_id, timer) ∷ [];
}

abbrev pub post : Option String → ℕ → Request → Tab → Tab
post none id req t = record t { posted = t.posted ++ req ∷ [] }
post (some e) id req t = settle id (err e) t

unfoldable pub send : (ℕ → Request) → Bool → Option String → Tab → Tab
send req timer refused t = post refused t.next_id (req t.next_id) (register timer t)

-- A response, whose id may be none that waits.
abbrev pub resolve_for : Option Bool → ℕ → Result Cloneable → Tab → Tab
resolve_for none id value t = t
resolve_for (some timer) id value t = settle id value t

unfoldable pub receive : ℕ → Result Cloneable → Tab → Tab
receive id value t = resolve_for (find_id id t.pending) id value t

-- A timer goes off; that of a settled promise has been cleared.
abbrev pub time_out_for : Option Bool → ℕ → Tab → Tab
time_out_for none id t = t
time_out_for (some false) id t = t
time_out_for (some true) id t = settle id (err "Matrix worker did not answer") t

unfoldable pub time_out : ℕ → Tab → Tab
time_out id t = time_out_for (find_id id t.pending) id t

-- An event goes to each handler, whether or not the handlers before it throw.
abbrev pub handle_each : Event → List ℕ → List (ℕ × Event)
handle_each e [] = []
handle_each e (h ∷ hs) = (h, e) ∷ handle_each e hs

abbrev to_handlers : Event → Tab → Tab
to_handlers e t = record t { handled = t.handled ++ handle_each e t.handlers }

unfoldable pub on_event : Event → Tab → Tab
on_event (log level) t = record t { console = t.console ++ level ∷ [] }
on_event (workspace_change room_id) t = to_handlers (workspace_change room_id) t
on_event (workspace_state room_id state) t = to_handlers (workspace_state room_id state) t
on_event (queue_change room_id) t = to_handlers (queue_change room_id) t
on_event (session_sync user_id) t = to_handlers (session_sync user_id) t
on_event (token_refresh user_id blob) t = to_handlers (token_refresh user_id blob) t
on_event (session_dropped user_id) t = to_handlers (session_dropped user_id) t

-- `on`, and the unsubscription that it returns.
abbrev pub subscribe_to : ℕ → Tab → Tab
subscribe_to handler t =
    if any (eqb handler) t.handlers then t else record t { handlers = t.handlers ++ handler ∷ [] }

abbrev pub unsubscribe : ℕ → Tab → Tab
unsubscribe handler t = record t { handlers = filter (λ h. not (eqb h handler)) t.handlers }

-- The typed calls, without their ids.
pub data Unsent : Type 0 where
  pings : (build : String) → Unsent
  creates_session : CreateRequest → Unsent
  destroys_session : (user_id : String) → Unsent
  opens_workspace : OpenRequest → Unsent
  subscribes : (room_id : String) (table_ids : List String) → Unsent
  session_call : (user_id method : String) (args : List Cloneable) → Unsent
  room_call : (room_id method : String) (args : List Cloneable) → Unsent
  static_call : (method : String) (args : List Cloneable) → Unsent
  acquires_verification : (user_id flow_id : String) → Unsent
  verification_call : (handle method : String) (args : List Cloneable) → Unsent

abbrev pub with_id : Unsent → ℕ → Request
with_id (pings build) id = ping id build
with_id (creates_session req) id = session_create id req
with_id (destroys_session user_id) id = session_destroy id user_id
with_id (opens_workspace req) id = workspace_open id req
with_id (subscribes room_id table_ids) id = workspace_subscribe id room_id table_ids
with_id (session_call user_id method args) id = call id (session_key user_id) method args
with_id (room_call room_id method args) id = call id (room_key room_id) method args
with_id (static_call method args) id = session_static id method args
with_id (acquires_verification user_id flow_id) id = verification_acquire id user_id flow_id
with_id (verification_call handle method args) id = call id handle method args

-- What a tab goes through.
pub data TabStep : Type 0 where
  sends : (req : Unsent) (timer : Bool) (refused : Option String) → TabStep
  receives : (id : ℕ) (value : Result Cloneable) → TabStep
  times_out : (id : ℕ) → TabStep
  hears : Event → TabStep

abbrev pub tab_step : TabStep → Tab → Tab
tab_step (sends req timer refused) t = send (with_id req) timer refused t
tab_step (receives id value) t = receive id value t
tab_step (times_out id) t = time_out id t
tab_step (hears e) t = on_event e t

abbrev pub tab_steps : List TabStep → Tab → Tab
tab_steps [] t = t
tab_steps (x ∷ xs) t = tab_steps xs (tab_step x t)

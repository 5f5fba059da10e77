-- ===== src/Worker/Requests.antt =====
-- Requests of the tabs (ui/src/worker/dispatch.ts, lines 531 to 653). `run` up to its first `await`
-- is `run_begin`; the other parts run when what was awaited has ended. What the objects of the wasm
-- module have as methods and what `JSON.stringify` makes of the answers are parameters.
pub mod Allowed
use secure_collab_app.Prelude.{
  ℕ, Bool, true, false, not, ◌||◌, ◌&&◌, String, Option, none, some, List, [], ◌∷◌, ◌++◌, ◌==◌,
  if◌then◌else◌, eqb, contains, starts_with, slice_after, concat, filter, set_elem, is_nil,
}
use secure_collab_app.Exec.{Result, ok, err}
use secure_collab_app.Assoc.{map_get, map_set, map_keys}
use secure_collab_app.Worker.Protocol.{
  Cloneable, undefined, text, SessionInfo, Event, log_line, warn_line, session_static_methods,
  workspace_write_methods, verify_key,
}
use secure_collab_app.Worker.State.{SessionEntry, Worker, log_at, session_of, find_workspace}
use secure_collab_app.Worker.Handles.{Object, Target, resolve_target}
use secure_collab_app.Worker.Sessions.{Clients, CreateRequest, Begun, create_begin, destroy_session}
use secure_collab_app.Worker.Sessions
use secure_collab_app.Worker.Workspaces
use secure_collab_app.Worker.Workspaces.{OpenRequest, Opened, open_begin}

pub data Request : Type 0 where
  ping : (id : ℕ) (build : String) → Request
  session_create : (id : ℕ) (req : CreateRequest) → Request
  session_static : (id : ℕ) (method : String) (args : List Cloneable) → Request
  session_destroy : (id : ℕ) (user_id : String) → Request
  workspace_open : (id : ℕ) (req : OpenRequest) → Request
  workspace_subscribe : (id : ℕ) (room_id : String) (table_ids : List String) → Request
  verification_acquire : (id : ℕ) (user_id flow_id : String) → Request
  call : (id : ℕ) (target method : String) (args : List Cloneable) → Request
  bye : Request

abbrev pub request_id : Request → Option ℕ
request_id (ping id build) = some id
request_id (session_create id req) = some id
request_id (session_static id method args) = some id
request_id (session_destroy id user_id) = some id
request_id (workspace_open id req) = some id
request_id (workspace_subscribe id room_id table_ids) = some id
request_id (verification_acquire id user_id flow_id) = some id
request_id (call id target method args) = some id
request_id bye = none

pub record PingInfo : Type 0 where
  pub build : String
  pub matches : Bool
  pub sessions : List String

-- What a method of the wasm module returns.
pub data Returned : Type 0 where
  is_null : Returned
  is_cloneable : Cloneable → Returned
  is_other : Returned

abbrev pub to_cloneable : Returned → Result Cloneable
to_cloneable is_null = ok undefined
to_cloneable (is_cloneable c) = ok c
to_cloneable is_other = err "returned a non-transferable value"

-- What `run` awaits: a client that is being built, whose answer says whether the tab joins it; a
-- workspace that is being opened; a static method; the handle of a flow; or a method of an object.
pub data Work : Type 0 where
  builds : (ticket : ℕ) (joined : Bool) → Work
  opens : (ticket : ℕ) → Work
  static_call : (method : String) (args : List Cloneable) → Work
  acquires : (ms : ℕ) (flow_id : String) → Work
  calls : (obj : Object) (target method : String) (args : List Cloneable) → Work

pub data Start : Type 0 where
  answers : Result Cloneable → Start
  works : Work → Start

-- The wasm module's objects, and the texts of the answers.
pub record Api : Type 0 where
  pub clients : Clients
  pub has_method : Object → String → Bool
  pub start_session_sync : ℕ → Option String
  pub ping_text : PingInfo → String
  pub info_text : SessionInfo → String

abbrev pub set_build : Option String → String → Worker → Worker
set_build none tab w = record w { build = some tab }
set_build (some b) tab w = w

abbrev pub build_of : Option String → String → String
build_of none tab = tab
build_of (some b) tab = b

-- Calling `setTimeout` for a push, once for each room.
abbrev pub queue_state_for : String → Worker → Worker
queue_state_for room_id w =
    if contains w.queued_pushes room_id
    then w
    else record w { queued_pushes = w.queued_pushes ++ room_id ∷ [] }

abbrev pub set_rooms :
    ℕ
    → String
    → List String
    → List (ℕ × List (String × List String))
    → List (ℕ × List (String × List String))
set_rooms client room_id table_ids [] = (client, (room_id, table_ids) ∷ []) ∷ []
set_rooms client room_id table_ids ((c, rooms) ∷ subs) =
    if eqb c client
    then (c, map_set room_id table_ids rooms) ∷ subs
    else (c, rooms) ∷ set_rooms client room_id table_ids subs

abbrev pub subscribe_for : Option ℕ → ℕ → String → List String → Worker → Worker × Start
subscribe_for none client room_id table_ids w = (w, answers (err "Workspace is not open"))
subscribe_for (some ws) client room_id table_ids w = (
  queue_state_for room_id
      (record w { subscriptions = set_rooms client room_id table_ids w.subscriptions }),
  answers (ok undefined),
)

abbrev pub acquire_for : Option (ℕ × SessionEntry) → String → Worker → Worker × Start
acquire_for none flow_id w = (w, answers (err "No session"))
acquire_for (some (at, e)) flow_id w = (w, works (acquires e.ms flow_id))

abbrev pub open_start : Opened → Start
open_start (Workspaces.failed e) = answers (err e)
open_start Workspaces.joins = answers (ok undefined)
open_start (Workspaces.awaits ticket) = works (opens ticket)
open_start (Workspaces.starts ticket) = works (opens ticket)

module _ (api : Api) where
  abbrev pub create_start : Begun → Start
  create_start (Sessions.failed e) = answers (err e)
  create_start (Sessions.joins info) = answers (ok (text (api.info_text info)))
  create_start (Sessions.awaits ticket) = works (builds ticket true)
  create_start (Sessions.starts ticket) = works (builds ticket false)

  abbrev pub sync_answer : Option String → Start
  sync_answer none = answers (ok undefined)
  sync_answer (some e) = answers (err e)

  -- The session-level sync of a client is started once.
  abbrev pub start_sync_for : Option (ℕ × SessionEntry) → Worker → Worker × Start
  start_sync_for none w = (w, answers (err "No session"))
  start_sync_for (some (at, e)) w =
      if e.session_sync_started then (w, answers (ok undefined)) else (
        record w { entries = set_elem at (record e { session_sync_started = true }) w.entries },
        sync_answer (api.start_session_sync e.ms),
      )

  abbrev pub call_for : Result Target → String → String → List Cloneable → Start
  call_for (err e) target method args = answers (err e)
  call_for (ok t) target method args =
      if not (contains t.allowed method) || not (api.has_method t.obj method)
      then answers (err "is not callable from a tab")
      else works (calls t.obj target method args)

  unfoldable pub run_begin : ℕ → Request → Worker → Worker × Start
  run_begin client (ping id build) w = (
    set_build w.build build w,
    answers (
        ok (
          text (
            api.ping_text (record {
              build = build_of w.build build;
              matches = build == build_of w.build build;
              sessions = map_keys w.sessions;
            })))),
  )
  run_begin client (session_create id req) w =
      let r = create_begin api.clients req w in (r.0, create_start r.1)
  run_begin client (session_static id method args) w = (
    w,
    if contains session_static_methods method
        then works (static_call method args)
        else answers (err "is not callable from a tab"),
  )
  run_begin client (session_destroy id user_id) w =
      (destroy_session user_id w, answers (ok undefined))
  run_begin client (workspace_open id req) w = let r = open_begin req w in (r.0, open_start r.1)
  run_begin client (workspace_subscribe id room_id table_ids) w =
      subscribe_for (find_workspace w room_id) client room_id table_ids w
  run_begin client (verification_acquire id user_id flow_id) w =
      acquire_for (session_of w user_id) flow_id w
  run_begin client (call id target method args) w =
      if method == "startSessionSync"
      then start_sync_for (session_of w (slice_after "session:" target)) w
      else (w, call_for (resolve_target w target) target method args)
  run_begin client bye w = (w, answers (ok undefined))

-- A flow's handle is there or it is gone.
abbrev pub acquired : String → Result (Option ℕ) → Worker → Worker × Result Cloneable
acquired flow_id (err e) w = (w, err e)
acquired flow_id (ok none) w = (w, ok undefined)
acquired flow_id (ok (some v)) w =
    (record w { verifications = map_set flow_id v w.verifications }, ok (text (verify_key flow_id)))

abbrev pub returned_as : Result Returned → Result Cloneable
returned_as (err e) = err e
returned_as (ok r) = to_cloneable r

-- A method of an object has ended. After a write, the state is pushed before the answer goes out.
module _ (push : String → Worker → Worker) where
  abbrev pub called : String → String → Result Cloneable → Worker → Worker × Result Cloneable
  called target method (err e) w = (w, err e)
  called target method (ok value) w = (
    if starts_with "room:" target && contains workspace_write_methods method
        then push (slice_after "room:" target) w
        else w,
    ok value,
  )

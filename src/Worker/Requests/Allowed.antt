-- ===== src/Worker/Requests/Allowed.antt =====
-- Which methods of the wasm module's objects a request can call (ui/src/worker/protocol.ts,
-- lines 332 to 420, and ui/src/worker/dispatch.ts, lines 270 to 295 and 613 to 635).
use secure_collab_app.Prelude.{
  ℕ, ◌≡◌, refl, true, String, Option, none, some, List, ◌==◌, Bool-cases, inl, inr, contains,
}
use secure_collab_app.Exec.{Result, ok, err}
use secure_collab_app.Assoc.{map_get}
use secure_collab_app.Worker.Protocol.{
  Cloneable, session_methods, session_static_methods, workspace_methods, verification_methods,
}
use secure_collab_app.Worker.State.{Worker, SessionEntry, session_of, find_workspace}
use secure_collab_app.Worker.Handles.{
  Object, session, workspace, verification, Target, handle_parts, of_session, of_room,
  of_verification, resolve_target,
}
use secure_collab_app.Worker.Sessions.{Begun, create_begin, finish}
use secure_collab_app.Worker.Sessions
use secure_collab_app.Worker.Workspaces
use secure_collab_app.Worker.Workspaces.{Opened, Replayed, find_build, open_restored, open_begin}
use secure_collab_app.Worker.Requests.{
  Request, Work, builds, opens, static_call, acquires, calls, Start, answers, works, Api, run_begin,
  ping, session_create, session_static, session_destroy, workspace_open, workspace_subscribe,
  verification_acquire, call, bye, create_start, open_start, call_for, start_sync_for, sync_answer,
  subscribe_for, acquire_for,
}

-- The list that the protocol has for an object of each kind.
abbrev pub methods_of : Object → List String
methods_of (session ms) = session_methods
methods_of (workspace cws) = workspace_methods
methods_of (verification v) = verification_methods

abbrev Fits : Result Target → Type 0
Fits (err e) = Unit
Fits (ok t) = t.allowed ≡ methods_of t.obj

of_session-Fits : (o : Option (ℕ × SessionEntry)) → Fits (of_session o)
of_session-Fits none = tt
of_session-Fits (some (at, e)) = refl

of_room-Fits : (o : Option ℕ) → Fits (of_room o)
of_room-Fits none = tt
of_room-Fits (some ws) = refl

of_verification-Fits : (o : Option ℕ) → Fits (of_verification o)
of_verification-Fits none = tt
of_verification-Fits (some v) = refl

resolve_target-Fits : (w : Worker) (target : String) → Fits (resolve_target w target)
unfolding resolve_target
resolve_target-Fits w target =
    let (kind, id) = handle_parts target in
    elim (Bool-cases (kind == "session")) [
      | inl e ↦ rw e (of_session-Fits (session_of w id))
      | inr e ↦ rw e (elim (Bool-cases (kind == "room")) [
        | inl f ↦ rw f (of_room-Fits (find_workspace w id))
        | inr f ↦ rw f (elim (Bool-cases (kind == "verify")) [
          | inl g ↦ rw g (of_verification-Fits (map_get id w.verifications))
          | inr g ↦ rw g tt
        ])
      ])
    ]

-- The work calls only what the protocol lists for the kind of object, and what the object has.
module _ (api : Api) where
  abbrev pub IsAllowed : Work → Type 0
  IsAllowed (builds ticket joined) = Unit
  IsAllowed (opens ticket) = Unit
  IsAllowed (acquires ms flow_id) = Unit
  IsAllowed (static_call method args) = contains session_static_methods method ≡ true
  IsAllowed (calls obj target method args) =
      (contains (methods_of obj) method ≡ true) × (api.has_method obj method ≡ true)

  abbrev pub StartsAllowed : Start → Type 0
  StartsAllowed (answers value) = Unit
  StartsAllowed (works work) = IsAllowed work

  call_for-IsAllowed :
      (t : Result Target) (target method : String) (args : List Cloneable)
      → Fits t
      → StartsAllowed (call_for api t target method args)
  call_for-IsAllowed (err e) target method args h = tt
  call_for-IsAllowed (ok t) target method args h = elim (Bool-cases (contains t.allowed method)) [
    | inl e ↦ elim (Bool-cases (api.has_method t.obj method)) [
      | inl f ↦ rw (e, f) (rw (← h) e, f)
      | inr f ↦ rw (e, f) tt
    ]
    | inr e ↦ rw e tt
  ]

  create_start-IsAllowed : (b : Begun) → StartsAllowed (create_start api b)
  create_start-IsAllowed (Sessions.failed e) = tt
  create_start-IsAllowed (Sessions.joins info) = tt
  create_start-IsAllowed (Sessions.awaits ticket) = tt
  create_start-IsAllowed (Sessions.starts ticket) = tt

  open_start-IsAllowed : (o : Opened) → StartsAllowed (open_start o)
  open_start-IsAllowed (Workspaces.failed e) = tt
  open_start-IsAllowed Workspaces.joins = tt
  open_start-IsAllowed (Workspaces.awaits ticket) = tt
  open_start-IsAllowed (Workspaces.starts ticket) = tt

  sync_answer-IsAllowed : (o : Option String) → StartsAllowed (sync_answer api o)
  sync_answer-IsAllowed none = tt
  sync_answer-IsAllowed (some e) = tt

  start_sync_for-IsAllowed :
      (o : Option (ℕ × SessionEntry)) (w : Worker) → StartsAllowed (start_sync_for api o w).1
  start_sync_for-IsAllowed none w = tt
  start_sync_for-IsAllowed (some (at, e)) w = elim (Bool-cases e.session_sync_started) [
    | inl b ↦ rw b tt
    | inr b ↦ rw b (sync_answer-IsAllowed (api.start_session_sync e.ms))
  ]

  subscribe_for-IsAllowed :
      (o : Option ℕ) (client : ℕ) (room_id : String) (table_ids : List String) (w : Worker)
      → StartsAllowed (subscribe_for o client room_id table_ids w).1
  subscribe_for-IsAllowed none client room_id table_ids w = tt
  subscribe_for-IsAllowed (some ws) client room_id table_ids w = tt

  acquire_for-IsAllowed :
      (o : Option (ℕ × SessionEntry)) (flow_id : String) (w : Worker)
      → StartsAllowed (acquire_for o flow_id w).1
  acquire_for-IsAllowed none flow_id w = tt
  acquire_for-IsAllowed (some (at, e)) flow_id w = tt

  -- What a request starts is allowed.
  pub run_begin-IsAllowed :
      (client : ℕ) (req : Request) (w : Worker) → StartsAllowed (run_begin api client req w).1
  unfolding run_begin
  run_begin-IsAllowed client (ping id build) w = tt
  run_begin-IsAllowed client (session_create id req) w =
      create_start-IsAllowed (create_begin api.clients req w).1
  run_begin-IsAllowed client (session_static id method args) w =
      elim (Bool-cases (contains session_static_methods method)) [
        | inl e ↦ rw e e
        | inr e ↦ rw e tt
      ]
  run_begin-IsAllowed client (session_destroy id user_id) w = tt
  run_begin-IsAllowed client (workspace_open id req) w = open_start-IsAllowed (open_begin req w).1
  run_begin-IsAllowed client (workspace_subscribe id room_id table_ids) w =
      subscribe_for-IsAllowed (find_workspace w room_id) client room_id table_ids w
  run_begin-IsAllowed client (verification_acquire id user_id flow_id) w =
      acquire_for-IsAllowed (session_of w user_id) flow_id w
  run_begin-IsAllowed client (call id target method args) w =
      elim (Bool-cases (method == "startSessionSync")) [
        | inl e ↦ rw e (start_sync_for-IsAllowed _ w)
        | inr e ↦ rw e (
            call_for-IsAllowed (resolve_target w target) target method args
              (resolve_target-Fits w target))
      ]
  run_begin-IsAllowed client bye w = tt

-- ===== src/Worker/ServerTests.antt =====
-- The theorems about the requests, the state and the ports of ui/src/worker at a worker that two tabs
-- use.
use secure_collab_app.Prelude.{
  is_nil, eqb, not, ◌&&◌, map, length, filter, ◌≤◌, ◌+◌, ◌≡◌, refl, ℕ, Bool, true, false, none,
  some, String, List, [], ◌∷◌, ◌++◌, if◌then◌else◌, cut_at,
}
use secure_collab_app.Exec.{Result, ok}
use secure_collab_app.Assoc.{map_get, map_set, map_delete}
use secure_collab_app.Stores.{Cipher, load_record}
use secure_collab_app.Worker.Protocol.{restore, text, workspace_change}
use secure_collab_app.Worker.State.{
  Worker, WorkspaceBuild, Persistence, fresh, session_of, find_workspace,
}
use secure_collab_app.Worker.Persistence.{Disk, settle, persist_outbox, persist_snapshot}
use secure_collab_app.Worker.Persistence.Replay.{replay-forgets}
use secure_collab_app.Worker.Workspaces.{
  replay, replayed, nothing_saved, queue_changed, open_restored, open_begin, open_created,
}
use secure_collab_app.Worker.Workspaces.Stale.{open_restored-lost}
use secure_collab_app.Worker.Workspaces.Single.{
  OpeningStep, begins, creates, restores, opens_key, opening_steps, opening_steps-AtMostOne,
}
use secure_collab_app.Worker.Push.Kept.{push_state-same}
use secure_collab_app.Worker.Push.{Reads, Parsed, list_of, returns, throws, missing, push_state}
use secure_collab_app.Worker.Push.Groups.{tables_for}
use secure_collab_app.Worker.Push.Delivery.{events_for, shown, push_state-shown}
use secure_collab_app.Worker.Requests.{
  Api, session_create, workspace_open, workspace_subscribe, call, run_begin,
}
use secure_collab_app.Worker.Sessions.{create_begin, describe}
use secure_collab_app.Worker.Handles.{resolve_target}
use secure_collab_app.Worker.Ports.{Hub, broadcast, broadcast-Posted}
use secure_collab_app.Worker.Server.{
  Step, steps, step, arrives, built, created, restored, push_timer, new_server, end_jobs,
}
use secure_collab_app.Worker.Server.Answers.{times_asked, times_answered, times_awaited}
use secure_collab_app.Worker.Server.Waiting.{NoneWaits, ends}
use secure_collab_app.Worker.Server.Ended.{steps-answered}

abbrev quiet : String → Worker → Worker
quiet room_id w = w

abbrev saved : Persistence
saved = record { room_id = "!r:x"; cws = 9; key = none; snapshot_timer = false; last_outbox = none }

abbrev opening : WorkspaceBuild
opening = record {
  ticket = 0;
  key = "@ann:x|!r:x";
  entry = 0;
  room_id = "!r:x";
  snapshot_key = none;
  created = some 0;
}

abbrev is_opening : Worker
is_opening = record fresh { persistences = saved ∷ []; workspace_builds = opening ∷ [] }

abbrev no_cipher : Cipher ℕ
no_cipher = record { seal = λ key iv s. ok s; unseal = λ key s. ok s }

abbrev disk : Disk
disk = record {
  outbox = record { opens = true; commits = true; records = ("!r:x", "[1]") ∷ [] };
  snapshots = record { opens = true; commits = true; records = [] };
  iv = 0;
}

-- One unsent write, which the workspace replays and puts in its queue.
replay-forgets_example :
    let v = replay quiet opening 0 (replayed 1 (queue_changed (ok "[1]") ∷ [])) is_opening in
    (load_record no_cipher "!r:x" none (settle no_cipher v.writes disk).outbox ≡ none)
    × (persist_outbox 0 (ok "[1]") v ≡ v)
replay-forgets_example =
    replay-forgets no_cipher quiet opening 0 1 "[1]" saved none disk is_opening refl
      (record { opens = refl; commits = refl })

abbrev reads : Reads
reads = record {
  list_tables = returns "[t1,t2]";
  table_order_keys = missing;
  current_user_id = returns (some "@ann:x");
  is_encrypted = returns true;
  undecryptable_count = returns 0;
  connection_health = throws;
  rejected_writes = returns "{}";
  pending_updates = returns "[]";
  table_schema = λ id. returns "schema";
  views_for_table = λ id. returns "[]";
  view = λ id. missing;
  table_rows = λ id. returns "rows";
  row_order_keys = λ id. returns "{}";
}

abbrev parse : String → Parsed
parse s = list_of []

abbrev in_order : String → String → Bool
in_order s t = true

-- What the worker pushes, to tabs that can all be reached.
abbrev pushes : String → Worker → Worker
pushes = push_state (λ c. true) (λ ws. reads) parse in_order

-- The user has signed in again since the opening began, and has another room open.
abbrev signed_in_again : Worker
signed_in_again = record is_opening {
  entries =
      record { ms = 7; workspaces = []; session_sync_started = true }
      ∷ record { ms = 8; workspaces = ("!s:x", 4) ∷ []; session_sync_started = true }
      ∷ [];
  sessions = ("@ann:x", 1) ∷ [];
}

open_restored-lost_example :
    find_workspace (open_restored pushes 0 nothing_saved (ok "snapshot") signed_in_again) "!r:x"
    ≡ find_workspace signed_in_again "!r:x"
open_restored-lost_example =
    open_restored-lost pushes (push_state-same (λ c. true) (λ ws. reads) parse in_order) 0 opening
      nothing_saved (ok "snapshot") signed_in_again "!r:x" refl (refl, tt)

abbrev asks : OpeningStep
asks = begins (record { user_id = "@ann:x"; room_id = "!r:x"; snapshot_key = none })

-- Two tabs ask before the workspace is there, and one after.
abbrev openings : List OpeningStep
openings = asks ∷ asks ∷ creates 0 (some 9) ∷ asks ∷ restores 0 nothing_saved (ok "") ∷ asks ∷ []

abbrev signed_in : Worker
signed_in = record fresh {
  entries = record { ms = 7; workspaces = []; session_sync_started = false } ∷ [];
  sessions = ("@ann:x", 0) ∷ [];
}

opening_steps-AtMostOne_example :
    length
      (filter (opens_key "@ann:x|!r:x") (opening_steps pushes openings signed_in).workspace_builds)
    ≤ 1
opening_steps-AtMostOne_example =
    opening_steps-AtMostOne pushes (push_state-same (λ c. true) (λ ws. reads) parse in_order)
      openings signed_in "@ann:x|!r:x" refl

abbrev shared : Worker
shared = record fresh {
  entries = record { ms = 7; workspaces = ("!r:x", 9) ∷ []; session_sync_started = false } ∷ [];
  sessions = ("@ann:x", 0) ∷ [];
  subscriptions = (1, ("!r:x", "t1" ∷ []) ∷ []) ∷ (2, ("!r:x", "t1" ∷ "t2" ∷ []) ∷ []) ∷ [];
}

room_found : find_workspace shared "!r:x" ≡ some 9
unfolding find_workspace map_get
room_found = refl

push_state-shown_example :
    events_for 1 (push_state (λ c. true) (λ ws. reads) parse in_order "!r:x" shared).sent
    ≡ events_for 1 shared.sent
      ++ (if true
          then shown
              (λ c. true)
              (λ ws. reads)
              parse
              in_order
              9
              "!r:x"
              (tables_for "!r:x" 1 shared.subscriptions)
          else [])
unfolding map_get
push_state-shown_example =
    push_state-shown (λ c. true) (λ ws. reads) parse in_order 9 "!r:x" 1 shared room_found
      ((refl, tt), (tt, tt)) ((refl, refl), tt)

abbrev api : Api
api = record {
  clients = record { user_id = λ ms. some "@ann:x"; session_data = λ ms. "data" };
  has_method = λ obj method. true;
  start_session_sync = λ ms. none;
  ping_text = λ info. info.build;
  info_text = λ info. info.user_id;
}

-- Two tabs join one session and one workspace, and one of them writes a cell.
-- Two tabs ask for one session, before it is built.
abbrev two_joined : List Step
two_joined =
    arrives 1
      (session_create 1 (record { via = restore; expect_user_id = some "@ann:x"; args = 2 }))
    ∷ arrives 2
        (session_create 1 (record { via = restore; expect_user_id = some "@ann:x"; args = 2 }))
    ∷ []

abbrev a_day : List Step
a_day =
    arrives 1
      (session_create 1 (record { via = restore; expect_user_id = some "@ann:x"; args = 2 }))
    ∷ arrives 2
        (session_create 1 (record { via = restore; expect_user_id = some "@ann:x"; args = 2 }))
    ∷ built 0 (some 7)
    ∷ arrives 1
        (workspace_open 2 (record { user_id = "@ann:x"; room_id = "!r:x"; snapshot_key = none }))
    ∷ created 0 (some 9)
    ∷ restored 0 nothing_saved (ok "")
    ∷ arrives 1 (workspace_subscribe 3 "!r:x" ("t1" ∷ []))
    ∷ push_timer "!r:x"
    ∷ arrives 2 (call 2 "room:!r:x" "updateCell" (text "t1" ∷ []))
    ∷ []

steps-answered_example :
    let s = steps api quiet two_joined new_server in
    (times_answered 2 1 s.answered + times_awaited 2 1 s.jobs ≡ times_asked 2 1 two_joined)
    × NoneWaits (ends (built 0 (some 7)) s) (step api quiet (built 0 (some 7)) s).jobs
steps-answered_example = steps-answered api quiet 2 1 two_joined (built 0 (some 7))

day_end :
    (times_answered 1 1 (steps api quiet a_day new_server).answered ≡ 1)
    × (times_answered 2 1 (steps api quiet a_day new_server).answered ≡ 1)
    × (times_awaited 2 2 (steps api quiet a_day new_server).jobs ≡ 1)
unfolding step run_begin create_begin describe session_of map_get map_set map_delete open_begin
    open_created open_restored replay find_workspace resolve_target cut_at end_jobs persist_snapshot
day_end = (refl, refl, refl)

-- Three ports, of which only the second still takes messages.
abbrev hub : Hub
hub = record { worker = signed_in; ports = 1 ∷ 2 ∷ 3 ∷ []; delivered = []; flushed = 0 }

abbrev nothing_left : ℕ → Result String
nothing_left at = ok "[]"

broadcast-Posted_example :
    let v = broadcast nothing_left nothing_left (eqb 2) (workspace_change "!r:x") hub in
    (v.ports ≡ filter (eqb 2) hub.ports)
    × (v.delivered
        ≡ hub.delivered ++ map (λ p. (p, workspace_change "!r:x")) (filter (eqb 2) hub.ports))
    × (v.flushed
        ≡ hub.flushed
          + (if is_nil (filter (eqb 2) hub.ports) && not (is_nil hub.ports) then 1 else 0))
broadcast-Posted_example =
    broadcast-Posted nothing_left nothing_left (eqb 2) (workspace_change "!r:x") hub
      ((refl, (refl, tt)), ((refl, tt), (tt, tt)))

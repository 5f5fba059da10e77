-- ===== src/Worker/Server.antt =====
-- The worker as the tabs see it (ui/src/worker/dispatch.ts, lines 531 to 548 and 656 to 689): requests
-- arrive, what they await ends, timers go off, and answers go out. A request that has not been
-- answered is a job. What the wasm module returns, and when, is told by the steps.
pub mod Answers
pub mod Waiting
pub mod Ended
pub mod Calls
use secure_collab_app.Prelude.{
  ℕ, suc, Bool, true, false, not, ◌&&◌, String, Option, none, some, List, [], ◌∷◌, ◌++◌, ◌==◌,
  if◌then◌else◌, eqb, filter, find, length,
}
use secure_collab_app.Exec.{Result, ok, err}
use secure_collab_app.Assoc.{map_keys}
use secure_collab_app.Worker.Protocol.{Cloneable, undefined, text, SessionInfo, warn_line}
use secure_collab_app.Worker.State.{
  Worker, SessionEntry, SessionBuild, WorkspaceBuild, log_at, fresh,
}
use secure_collab_app.Worker.Sessions.{finish}
use secure_collab_app.Worker.Persistence.{snapshot_due, persist_snapshot, flush_persistence}
use secure_collab_app.Worker.Workspaces.{
  Fired, Replayed, on_fired, open_created, open_restored, find_build,
}
use secure_collab_app.Worker.Push.{without_client}
use secure_collab_app.Worker.Requests.{
  Request, request_id, bye, Returned, Work, builds, opens, static_call, acquires, calls, Start,
  answers, works, Api, run_begin, acquired, returned_as, called,
}

pub record Job : Type 0 where
  pub number : ℕ
  pub client : ℕ
  pub id : ℕ
  pub work : Work

pub record Answer : Type 0 where
  pub client : ℕ
  pub id : ℕ
  pub value : Result Cloneable

pub record Server : Type 0 where
  pub worker : Worker
  pub jobs : List Job
  pub next_job : ℕ
  pub answered : List Answer

abbrev pub new_server : Server
new_server = record { worker = fresh; jobs = []; next_job = 0; answered = [] }

abbrev pub warn_of : Result Cloneable → Worker → Worker
warn_of (ok value) w = w
warn_of (err e) w = log_at warn_line w

-- The answer to a request; an error is logged too.
abbrev pub answer : ℕ → ℕ → Result Cloneable → Server → Server
answer client id value s = record s {
  worker = warn_of value s.worker;
  answered = s.answered ++ record { client = client; id = id; value = value } ∷ [];
}

abbrev pub start_job : ℕ → ℕ → Start → Server → Server
start_job client id (answers value) s = answer client id value s
start_job client id (works work) s = record s {
  jobs = s.jobs ++ record { number = s.next_job; client = client; id = id; work = work } ∷ [];
  next_job = suc s.next_job;
}

abbrev pub set_worker : Worker → Server → Server
set_worker w s = record s { worker = w }

-- The answers to jobs that have ended, with what the work of each comes to, or none for a job that
-- has not ended.
abbrev pub end_one : Option (Result Cloneable) → Job → Server → Server
end_one none j s = record s { jobs = s.jobs ++ j ∷ [] }
end_one (some value) j s = answer j.client j.id value s

abbrev pub end_each : (Job → Option (Result Cloneable)) → List Job → Server → Server
end_each outcome [] s = s
end_each outcome (j ∷ js) s = end_each outcome js (end_one (outcome j) j s)

unfoldable pub end_jobs : (Job → Option (Result Cloneable)) → Server → Server
end_jobs outcome s = end_each outcome s.jobs (record s { jobs = [] })

module _ (api : Api) where
  abbrev pub info_answer : Bool → Result SessionInfo → Result Cloneable
  info_answer joined (err e) = err e
  info_answer true (ok info) = ok (text (api.info_text (record info { joined = true })))
  info_answer false (ok info) = ok (text (api.info_text info))

  abbrev pub of_build : ℕ → Result SessionInfo → Job → Option (Result Cloneable)
  of_build ticket r j = elim j.work [
    | builds t joined ↦ if eqb t ticket then some (info_answer joined r) else none
    | opens t ↦ none
    | static_call method args ↦ none
    | acquires ms flow_id ↦ none
    | calls obj target method args ↦ none
  ]

abbrev pub of_opening : ℕ → Result Cloneable → Job → Option (Result Cloneable)
of_opening ticket r j = elim j.work [
  | builds t joined ↦ none
  | opens t ↦ if eqb t ticket then some r else none
  | static_call method args ↦ none
  | acquires ms flow_id ↦ none
  | calls obj target method args ↦ none
]

abbrev pub of_number : ℕ → Result Cloneable → Job → Option (Result Cloneable)
of_number number r j = if eqb j.number number then some r else none

abbrev pub find_job : ℕ → List Job → Option Job
find_job number jobs = find (λ (j : Job). eqb j.number number) jobs

-- What happens next.
pub data Step : Type 0 where
  arrives : (client : ℕ) (req : Request) → Step
  built : (ticket : ℕ) (ms : Option ℕ) → Step
  created : (ticket : ℕ) (cws : Option ℕ) → Step
  restored : (ticket : ℕ) (r : Replayed) (snapshot : Result String) → Step
  returned : (number : ℕ) (r : Result Returned) → Step
  acquired_as : (number : ℕ) (r : Result (Option ℕ)) → Step
  fires : (at : ℕ) (fired : Fired) → Step
  snapshot_timer : (at : ℕ) (snapshot : Result String) → Step
  snapshot_interval : (at : ℕ) (snapshot : Result String) → Step
  push_timer : (room_id : String) → Step
  leaves : (client : ℕ) → Step
  flushes : (pending snapshot : ℕ → Result String) → Step

abbrev pub push_due : (String → Worker → Worker) → String → Worker → Worker
push_due push room_id w =
    push room_id (record w { queued_pushes = filter (λ r. not (r == room_id)) w.queued_pushes })

abbrev pub disconnect : ℕ → Worker → Worker
disconnect client w = record w { subscriptions = without_client client w.subscriptions }

module _ (api : Api) (push : String → Worker → Worker) where
  abbrev pub start_for : Option ℕ → ℕ → Request → Server → Server
  start_for none client req s = s
  start_for (some id) client req s =
      let r = run_begin api client req s.worker in start_job client id r.1 (set_worker r.0 s)

  -- The client is built, or it has failed: all who await it are answered.
  abbrev pub built_for : Option SessionBuild → Option ℕ → Server → Server
  built_for none ms s = s
  built_for (some b) ms s =
      let r = finish api.clients b ms s.worker in
      end_jobs (of_build api b.ticket r.0) (set_worker r.1 s)

  -- The creation of a workspace ends, well or not.
  abbrev pub created_as : WorkspaceBuild → Option ℕ → Server → Server
  created_as b (some cws) s = set_worker (open_created b.ticket (some cws) s.worker) s
  created_as b none s =
      end_jobs (of_opening b.ticket (err "workspace.open failed"))
        (set_worker (open_created b.ticket none s.worker) s)

  abbrev pub created_at : Option ℕ → WorkspaceBuild → Option ℕ → Server → Server
  created_at none b cws s = created_as b cws s
  created_at (some at) b cws s = s

  abbrev pub created_for : Option WorkspaceBuild → Option ℕ → Server → Server
  created_for none cws s = s
  created_for (some b) cws s = created_at b.created b cws s

  -- The opening of a created workspace ends: all who await it are answered.
  abbrev pub restored_at : Option ℕ → WorkspaceBuild → Replayed → Result String → Server → Server
  restored_at none b r snapshot s = s
  restored_at (some at) b r snapshot s =
      end_jobs (of_opening b.ticket (ok undefined))
        (set_worker (open_restored push b.ticket r snapshot s.worker) s)

  abbrev pub restored_for : Option WorkspaceBuild → Replayed → Result String → Server → Server
  restored_for none r snapshot s = s
  restored_for (some b) r snapshot s = restored_at b.created b r snapshot s

  abbrev pub returned_work : ℕ → Work → Result Returned → Server → Server
  returned_work number (builds ticket joined) r s = s
  returned_work number (opens ticket) r s = s
  returned_work number (acquires ms flow_id) r s = s
  returned_work number (static_call method args) r s = end_jobs (of_number number (returned_as r)) s
  returned_work number (calls obj target method args) r s =
      let v = called push target method (returned_as r) s.worker in
      end_jobs (of_number number v.1) (set_worker v.0 s)

  abbrev pub returned_for : ℕ → Option Job → Result Returned → Server → Server
  returned_for number none r s = s
  returned_for number (some j) r s = returned_work number j.work r s

  abbrev pub acquired_work : ℕ → Work → Result (Option ℕ) → Server → Server
  acquired_work number (builds ticket joined) r s = s
  acquired_work number (opens ticket) r s = s
  acquired_work number (static_call method args) r s = s
  acquired_work number (calls obj target method args) r s = s
  acquired_work number (acquires ms flow_id) r s =
      let v = acquired flow_id r s.worker in end_jobs (of_number number v.1) (set_worker v.0 s)

  abbrev pub acquired_for : ℕ → Option Job → Result (Option ℕ) → Server → Server
  acquired_for number none r s = s
  acquired_for number (some j) r s = acquired_work number j.work r s

  unfoldable pub step : Step → Server → Server
  step (arrives client req) s = start_for (request_id req) client req s
  step (built ticket ms) s =
      built_for (find (λ (b : SessionBuild). eqb b.ticket ticket) s.worker.session_builds) ms s
  step (created ticket cws) s = created_for (find_build ticket s.worker) cws s
  step (restored ticket r snapshot) s = restored_for (find_build ticket s.worker) r snapshot s
  step (returned number r) s = returned_for number (find_job number s.jobs) r s
  step (acquired_as number r) s = acquired_for number (find_job number s.jobs) r s
  step (fires at fired) s = set_worker (on_fired push at fired s.worker) s
  step (snapshot_timer at snapshot) s = set_worker (snapshot_due at snapshot s.worker) s
  step (snapshot_interval at snapshot) s = set_worker (persist_snapshot at snapshot s.worker) s
  step (push_timer room_id) s = set_worker (push_due push room_id s.worker) s
  step (leaves client) s = set_worker (disconnect client s.worker) s
  step (flushes pending snapshot) s = set_worker (flush_persistence pending snapshot s.worker) s

  abbrev pub steps : List Step → Server → Server
  steps [] s = s
  steps (x ∷ xs) s = steps xs (step x s)

-- ===== src/Worker/Server/Waiting.antt =====
-- What the requests of the tabs wait for (ui/src/worker/dispatch.ts, lines 655 to 669).
use secure_collab_app.Prelude.{
  ℕ, ◌≡◌, refl, Bool, true, false, ◌&&◌, Option, none, some, List, [], ◌∷◌, eqb, arith, find, All,
  All-append, Bool-cases, inl, inr,
}
use secure_collab_app.Exec.{Result}
use secure_collab_app.Worker.Protocol.{Cloneable, SessionInfo}
use secure_collab_app.Worker.State.{SessionBuild, WorkspaceBuild}
use secure_collab_app.Worker.Workspaces.{find_build}
use secure_collab_app.Worker.Requests.{Work, builds, opens, static_call, acquires, calls, Api}
use secure_collab_app.Worker.Server.{
  Job, Server, end_one, end_each, end_jobs, Step, arrives, built, created, restored, returned,
  acquired_as, fires, snapshot_timer, snapshot_interval, push_timer, leaves, flushes, of_build,
  of_opening, of_number, find_job,
}

-- A job that waits for the end of a client's build, of a workspace's opening, of a call, or of the
-- request for a verification flow.
abbrev pub waits_for_build : ℕ → Job → Bool
waits_for_build ticket j = elim j.work [
  | builds t joined ↦ eqb t ticket
  | opens t ↦ false
  | static_call method args ↦ false
  | acquires ms flow_id ↦ false
  | calls obj target method args ↦ false
]

abbrev pub waits_for_opening : ℕ → Job → Bool
waits_for_opening ticket j = elim j.work [
  | builds t joined ↦ false
  | opens t ↦ eqb t ticket
  | static_call method args ↦ false
  | acquires ms flow_id ↦ false
  | calls obj target method args ↦ false
]

-- No job of the list passes the test.
abbrev pub NoneWaits : (Job → Bool) → List Job → Type 0
NoneWaits p jobs = All (λ (j : Job). p j ≡ false) jobs

-- The jobs that are left are those that have no outcome.
module _ (p : Job → Bool) (outcome : Job → Option (Result Cloneable))
    (ends : (j : Job) → outcome j ≡ none → p j ≡ false) where
  end_one-NoneWaits :
      (o : Option (Result Cloneable)) (j : Job) (s : Server)
      → outcome j ≡ o
      → NoneWaits p s.jobs
      → NoneWaits p (end_one o j s).jobs
  end_one-NoneWaits none j s e h =
      All-append (λ (j : Job). p j ≡ false) s.jobs (j ∷ []) h (ends j e, tt)
  end_one-NoneWaits (some value) j s e h = h

  end_each-NoneWaits :
      (js : List Job) (s : Server) → NoneWaits p s.jobs → NoneWaits p (end_each outcome js s).jobs
  end_each-NoneWaits [] s h = h
  end_each-NoneWaits (j ∷ js) s h =
      end_each-NoneWaits js (end_one (outcome j) j s) (end_one-NoneWaits (outcome j) j s refl h)

  pub end_jobs-NoneWaits : (s : Server) → NoneWaits p (end_jobs outcome s).jobs
  unfolding end_jobs
  end_jobs-NoneWaits s = end_each-NoneWaits s.jobs (record s { jobs = [] }) tt

-- No job of any list passes a test that is always false.
pub never : (jobs : List Job) → NoneWaits (λ j. false) jobs
never [] = tt
never (j ∷ jobs) = (refl, never jobs)

abbrev pub in_flight : Option SessionBuild → Bool
in_flight none = false
in_flight (some b) = true

-- An opening in flight whose workspace the wasm module has not created yet, or has.
abbrev pub is_uncreated : Option WorkspaceBuild → Bool
is_uncreated none = false
is_uncreated (some b) = elim b.created [ none ↦ true | some at ↦ false ]

abbrev pub is_created : Option WorkspaceBuild → Bool
is_created none = false
is_created (some b) = elim b.created [ none ↦ false | some at ↦ true ]

abbrev pub is_call_work : Work → Bool
is_call_work (builds t joined) = false
is_call_work (opens t) = false
is_call_work (static_call method args) = true
is_call_work (acquires ms flow_id) = false
is_call_work (calls obj target method args) = true

abbrev pub is_call : Option Job → Bool
is_call none = false
is_call (some j) = is_call_work j.work

abbrev pub is_acquiring_work : Work → Bool
is_acquiring_work (builds t joined) = false
is_acquiring_work (opens t) = false
is_acquiring_work (static_call method args) = false
is_acquiring_work (acquires ms flow_id) = true
is_acquiring_work (calls obj target method args) = false

abbrev pub is_acquiring : Option Job → Bool
is_acquiring none = false
is_acquiring (some j) = is_acquiring_work j.work

abbrev pub build_at : ℕ → Server → Option SessionBuild
build_at ticket s = find (λ (b : SessionBuild). eqb b.ticket ticket) s.worker.session_builds

-- Whether a step ends what a job waits for: the build of its client, the creation of its workspace
-- where it fails, the rest of the opening, or its own call.
abbrev pub ends : Step → Server → Job → Bool
ends (arrives c req) s j = false
ends (built ticket ms) s j = in_flight (build_at ticket s) && waits_for_build ticket j
ends (created ticket none) s j =
    is_uncreated (find_build ticket s.worker) && waits_for_opening ticket j
ends (created ticket (some cws)) s j = false
ends (restored ticket r snapshot) s j =
    is_created (find_build ticket s.worker) && waits_for_opening ticket j
ends (returned number r) s j = is_call (find_job number s.jobs) && eqb j.number number
ends (acquired_as number r) s j = is_acquiring (find_job number s.jobs) && eqb j.number number
ends (fires at fired) s j = false
ends (snapshot_timer at snapshot) s j = false
ends (snapshot_interval at snapshot) s j = false
ends (push_timer room_id) s j = false
ends (leaves c) s j = false
ends (flushes pending snapshot) s j = false

pub of_build-none :
    (api : Api) (ticket at : ℕ) (r : Result SessionInfo) (j : Job)
    → eqb at ticket ≡ true
    → of_build api at r j ≡ none
    → waits_for_build ticket j ≡ false
of_build-none api ticket at r j same e = ground arith

pub of_opening-none :
    (ticket at : ℕ) (r : Result Cloneable) (j : Job)
    → eqb at ticket ≡ true
    → of_opening at r j ≡ none
    → waits_for_opening ticket j ≡ false
of_opening-none ticket at r j same e = ground arith

pub of_number-none :
    (number : ℕ) (r : Result Cloneable) (j : Job)
    → of_number number r j ≡ none
    → eqb j.number number ≡ false
of_number-none number r j e = ground arith

pub find-passes :
    {A : Type 0} (p : A → Bool) (xs : List A) (x : A) → find p xs ≡ some x → p x ≡ true
find-passes p [] x e = cc
find-passes p (y ∷ xs) x e = elim (Bool-cases (p y)) [
  | inl h ↦ same h (rw h at e)
  | inr h ↦ find-passes p xs x (rw h at e)
]
  where
    same : p y ≡ true → some y ≡ some x → p x ≡ true
    same h q = cc

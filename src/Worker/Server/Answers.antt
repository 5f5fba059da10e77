-- ===== src/Worker/Server/Answers.antt =====
-- Each request is answered once (ui/src/worker/protocol.ts, lines 15 to 19, and
-- ui/src/worker/dispatch.ts, lines 655 to 669).
use secure_collab_app.Prelude.{
  ℕ, ◌+◌, ◌≡◌, refl, Bool, true, false, ◌&&◌, String, Option, none, some, List, [], ◌∷◌, ◌++◌, eqb,
  arith,
}
use secure_collab_app.Exec.{Result}
use secure_collab_app.Worker.Protocol.{Cloneable}
use secure_collab_app.Worker.State.{Worker, SessionBuild, WorkspaceBuild}
use secure_collab_app.Worker.Sessions.{finish}
use secure_collab_app.Worker.Workspaces.{Replayed, find_build}
use secure_collab_app.Worker.Requests.{
  Request, request_id, Returned, Work, builds, opens, static_call, acquires, calls, Start, answers,
  works, Api, run_begin,
}
use secure_collab_app.Worker.Server.{
  Job, Answer, Server, new_server, answer, start_job, set_worker, end_one, end_each, end_jobs, Step,
  step, steps, arrives, built, created, restored, returned, acquired_as, fires, snapshot_timer,
  snapshot_interval, push_timer, leaves, flushes, start_for, built_for, created_as, created_at,
  created_for, restored_at, restored_for, returned_for, acquired_for, find_job, returned_work,
  acquired_work,
}

abbrev one_if : Bool → ℕ
one_if true = 1
one_if false = 0

-- How many times a tab's request has been answered, is awaited, and has been made.
module _ (client id : ℕ) where
  abbrev is_of : ℕ → ℕ → ℕ
  is_of c i = one_if (eqb c client && eqb i id)

  abbrev pub times_answered : List Answer → ℕ
  times_answered [] = 0
  times_answered (a ∷ rest) = is_of a.client a.id + times_answered rest

  abbrev pub times_awaited : List Job → ℕ
  times_awaited [] = 0
  times_awaited (j ∷ js) = is_of j.client j.id + times_awaited js

  abbrev asked_by : ℕ → Option ℕ → ℕ
  asked_by c none = 0
  asked_by c (some i) = is_of c i

  abbrev asked : Step → ℕ
  asked (arrives c req) = asked_by c (request_id req)
  asked (built ticket ms) = 0
  asked (created ticket cws) = 0
  asked (restored ticket r snapshot) = 0
  asked (returned number r) = 0
  asked (acquired_as number r) = 0
  asked (fires at fired) = 0
  asked (snapshot_timer at snapshot) = 0
  asked (snapshot_interval at snapshot) = 0
  asked (push_timer room_id) = 0
  asked (leaves c) = 0
  asked (flushes pending snapshot) = 0

  abbrev pub times_asked : List Step → ℕ
  times_asked [] = 0
  times_asked (x ∷ xs) = asked x + times_asked xs

  abbrev settled : Server → ℕ
  settled s = times_answered s.answered + times_awaited s.jobs

  times_answered-append :
      (ans : List Answer) (a : Answer)
      → times_answered (ans ++ a ∷ []) ≡ times_answered ans + is_of a.client a.id
  times_answered-append [] a = omega arith
  times_answered-append (b ∷ ans) a = omega (arith, times_answered-append ans a)

  times_awaited-append :
      (js : List Job) (j : Job)
      → times_awaited (js ++ j ∷ []) ≡ times_awaited js + is_of j.client j.id
  times_awaited-append [] j = omega arith
  times_awaited-append (k ∷ js) j = omega (arith, times_awaited-append js j)

  answer-settled :
      (c i : ℕ) (value : Result Cloneable) (s : Server)
      → settled (answer c i value s) ≡ settled s + is_of c i
  answer-settled c i value s =
      omega (arith, times_answered-append s.answered (record { client = c; id = i; value = value }))

  start_job-settled :
      (c i : ℕ) (st : Start) (s : Server) → settled (start_job c i st s) ≡ settled s + is_of c i
  start_job-settled c i (answers value) s = answer-settled c i value s
  start_job-settled c i (works work) s = omega (
    arith,
    times_awaited-append s.jobs (record { number = s.next_job; client = c; id = i; work = work }),
  )

  end_one-settled :
      (o : Option (Result Cloneable)) (j : Job) (s : Server)
      → settled (end_one o j s) ≡ settled s + is_of j.client j.id
  end_one-settled none j s = omega (arith, times_awaited-append s.jobs j)
  end_one-settled (some value) j s = answer-settled j.client j.id value s

  end_each-settled :
      (outcome : Job → Option (Result Cloneable)) (js : List Job) (s : Server)
      → settled (end_each outcome js s) ≡ settled s + times_awaited js
  end_each-settled outcome [] s = omega arith
  end_each-settled outcome (j ∷ js) s = omega (
    arith,
    end_each-settled outcome js (end_one (outcome j) j s),
    end_one-settled (outcome j) j s,
  )

  end_jobs-settled :
      (outcome : Job → Option (Result Cloneable)) (s : Server)
      → settled (end_jobs outcome s) ≡ settled s
  unfolding end_jobs
  end_jobs-settled outcome s =
      omega (arith, end_each-settled outcome s.jobs (record s { jobs = [] }))

  module _ (api : Api) (push : String → Worker → Worker) where
    start_for-settled :
        (o : Option ℕ) (c : ℕ) (req : Request) (s : Server)
        → settled (start_for api push o c req s) ≡ settled s + asked_by c o
    start_for-settled none c req s = omega arith
    start_for-settled (some i) c req s =
        start_job-settled c i (run_begin api c req s.worker).1
          (set_worker (run_begin api c req s.worker).0 s)

    built_for-settled :
        (b : Option SessionBuild) (ms : Option ℕ) (s : Server)
        → settled (built_for api push b ms s) ≡ settled s
    built_for-settled none ms s = refl
    built_for-settled (some b) ms s =
        end_jobs-settled _ (set_worker (finish api.clients b ms s.worker).1 s)

    created_as-settled :
        (b : WorkspaceBuild) (cws : Option ℕ) (s : Server)
        → settled (created_as api push b cws s) ≡ settled s
    created_as-settled b none s = end_jobs-settled _ _
    created_as-settled b (some cws) s = refl

    created_at-settled :
        (o : Option ℕ) (b : WorkspaceBuild) (cws : Option ℕ) (s : Server)
        → settled (created_at api push o b cws s) ≡ settled s
    created_at-settled none b cws s = created_as-settled b cws s
    created_at-settled (some at) b cws s = refl

    created_for-settled :
        (b : Option WorkspaceBuild) (cws : Option ℕ) (s : Server)
        → settled (created_for api push b cws s) ≡ settled s
    created_for-settled none cws s = refl
    created_for-settled (some b) cws s = created_at-settled b.created b cws s

    restored_at-settled :
        (o : Option ℕ) (b : WorkspaceBuild) (r : Replayed) (snapshot : Result String) (s : Server)
        → settled (restored_at api push o b r snapshot s) ≡ settled s
    restored_at-settled none b r snapshot s = refl
    restored_at-settled (some at) b r snapshot s = end_jobs-settled _ _

    restored_for-settled :
        (b : Option WorkspaceBuild) (r : Replayed) (snapshot : Result String) (s : Server)
        → settled (restored_for api push b r snapshot s) ≡ settled s
    restored_for-settled none r snapshot s = refl
    restored_for-settled (some b) r snapshot s = restored_at-settled b.created b r snapshot s

    returned_work-settled :
        (number : ℕ) (k : Work) (r : Result Returned) (s : Server)
        → settled (returned_work api push number k r s) ≡ settled s
    returned_work-settled number (builds ticket joined) r s = refl
    returned_work-settled number (opens ticket) r s = refl
    returned_work-settled number (acquires ms flow_id) r s = refl
    returned_work-settled number (static_call method args) r s = end_jobs-settled _ s
    returned_work-settled number (calls obj target method args) r s = end_jobs-settled _ _

    returned_for-settled :
        (number : ℕ) (j : Option Job) (r : Result Returned) (s : Server)
        → settled (returned_for api push number j r s) ≡ settled s
    returned_for-settled number none r s = refl
    returned_for-settled number (some j) r s = returned_work-settled number j.work r s

    acquired_work-settled :
        (number : ℕ) (k : Work) (r : Result (Option ℕ)) (s : Server)
        → settled (acquired_work api push number k r s) ≡ settled s
    acquired_work-settled number (builds ticket joined) r s = refl
    acquired_work-settled number (opens ticket) r s = refl
    acquired_work-settled number (acquires ms flow_id) r s = end_jobs-settled _ _
    acquired_work-settled number (static_call method args) r s = refl
    acquired_work-settled number (calls obj target method args) r s = refl

    acquired_for-settled :
        (number : ℕ) (j : Option Job) (r : Result (Option ℕ)) (s : Server)
        → settled (acquired_for api push number j r s) ≡ settled s
    acquired_for-settled number none r s = refl
    acquired_for-settled number (some j) r s = acquired_work-settled number j.work r s

    step-settled : (x : Step) (s : Server) → settled (step api push x s) ≡ settled s + asked x
    unfolding step
    step-settled (arrives c req) s = start_for-settled (request_id req) c req s
    step-settled (built ticket ms) s = omega (arith, built_for-settled _ ms s)
    step-settled (created ticket cws) s =
        omega (arith, created_for-settled (find_build ticket s.worker) cws s)
    step-settled (restored ticket r snapshot) s =
        omega (arith, restored_for-settled (find_build ticket s.worker) r snapshot s)
    step-settled (returned number r) s =
        omega (arith, returned_for-settled number (find_job number s.jobs) r s)
    step-settled (acquired_as number r) s =
        omega (arith, acquired_for-settled number (find_job number s.jobs) r s)
    step-settled (fires at fired) s = omega arith
    step-settled (snapshot_timer at snapshot) s = omega arith
    step-settled (snapshot_interval at snapshot) s = omega arith
    step-settled (push_timer room_id) s = omega arith
    step-settled (leaves c) s = omega arith
    step-settled (flushes pending snapshot) s = omega arith

    steps-settled :
        (xs : List Step) (s : Server) → settled (steps api push xs s) ≡ settled s + times_asked xs
    steps-settled [] s = omega arith
    steps-settled (x ∷ xs) s = omega (arith, steps-settled xs (step api push x s), step-settled x s)

    -- Whatever a new worker goes through, a request that a tab has made is answered or awaited, and as
    -- often as the tab has made it.
    pub steps-counted :
        (xs : List Step)
        → times_answered (steps api push xs new_server).answered
            + times_awaited (steps api push xs new_server).jobs
          ≡ times_asked xs
    steps-counted xs = omega (arith, steps-settled xs new_server)

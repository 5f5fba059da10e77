-- ===== src/Worker/Server/Ended.antt =====
-- What a step ends is answered (ui/src/worker/dispatch.ts, lines 655 to 669): no job waits for a
-- build, an opening or a call that has ended.
use secure_collab_app.Prelude.{
  ℕ, ◌≡◌, refl, true, false, ◌&&◌, String, Option, none, some, List, eqb, ◌+◌,
}
use secure_collab_app.Exec.{Result}
use secure_collab_app.Worker.State.{Worker, SessionBuild, WorkspaceBuild}
use secure_collab_app.Worker.Workspaces.{find_build, Replayed}
use secure_collab_app.Worker.Requests.{
  Returned, Work, builds, opens, static_call, acquires, calls, Api,
}
use secure_collab_app.Worker.Server.{
  Job, Server, new_server, Step, step, steps, arrives, built, created, restored, returned,
  acquired_as, fires, snapshot_timer, snapshot_interval, push_timer, leaves, flushes, find_job,
  built_for, created_for, created_at, restored_for, restored_at, returned_for, returned_work,
  acquired_for, acquired_work,
}
use secure_collab_app.Worker.Server.Answers.{
  times_answered, times_awaited, times_asked, steps-counted,
}
use secure_collab_app.Worker.Server.Waiting.{
  NoneWaits, build_at, end_jobs-NoneWaits, ends, find-passes, in_flight, is_acquiring,
  is_acquiring_work, is_call, is_call_work, is_created, is_uncreated, never, of_build-none,
  of_number-none, of_opening-none, waits_for_build, waits_for_opening,
}

module _ (api : Api) (push : String → Worker → Worker) where
  built_for-ended :
      (ticket : ℕ) (ms : Option ℕ) (s : Server) (o : Option SessionBuild)
      → build_at ticket s ≡ o
      → NoneWaits (λ j. in_flight o && waits_for_build ticket j) (built_for api push o ms s).jobs
  built_for-ended ticket ms s none e = never s.jobs
  built_for-ended ticket ms s (some b) e =
      let same =
        find-passes (λ (b : SessionBuild). eqb b.ticket ticket) s.worker.session_builds b e in
      end_jobs-NoneWaits (waits_for_build ticket) _
        (λ j. of_build-none api ticket b.ticket _ j same) _

  created_as-ended :
      (ticket : ℕ) (b : WorkspaceBuild) (s : Server)
      → eqb b.ticket ticket ≡ true
      → (o : Option ℕ)
      → NoneWaits
          (λ j. elim o [ none ↦ true | some at ↦ false ] && waits_for_opening ticket j)
          (created_at api push o b none s).jobs
  created_as-ended ticket b s same none =
      end_jobs-NoneWaits (waits_for_opening ticket) _
        (λ j. of_opening-none ticket b.ticket _ j same) _
  created_as-ended ticket b s same (some at) = never s.jobs

  created_for-ended :
      (ticket : ℕ) (s : Server) (o : Option WorkspaceBuild)
      → find_build ticket s.worker ≡ o
      → NoneWaits
          (λ j. is_uncreated o && waits_for_opening ticket j)
          (created_for api push o none s).jobs
  created_for-ended ticket s none e = never s.jobs
  created_for-ended ticket s (some b) e =
      created_as-ended ticket b s
        (find-passes (λ (b : WorkspaceBuild). eqb b.ticket ticket) s.worker.workspace_builds b e)
        b.created

  restored_at-ended :
      (ticket : ℕ) (b : WorkspaceBuild) (r : Replayed) (snapshot : Result String) (s : Server)
      → eqb b.ticket ticket ≡ true
      → (o : Option ℕ)
      → NoneWaits
          (λ j. elim o [ none ↦ false | some at ↦ true ] && waits_for_opening ticket j)
          (restored_at api push o b r snapshot s).jobs
  restored_at-ended ticket b r snapshot s same none = never s.jobs
  restored_at-ended ticket b r snapshot s same (some at) =
      end_jobs-NoneWaits (waits_for_opening ticket) _
        (λ j. of_opening-none ticket b.ticket _ j same) _

  restored_for-ended :
      (ticket : ℕ) (r : Replayed) (snapshot : Result String) (s : Server)
      (o : Option WorkspaceBuild)
      → find_build ticket s.worker ≡ o
      → NoneWaits
          (λ j. is_created o && waits_for_opening ticket j)
          (restored_for api push o r snapshot s).jobs
  restored_for-ended ticket r snapshot s none e = never s.jobs
  restored_for-ended ticket r snapshot s (some b) e =
      restored_at-ended ticket b r snapshot s
        (find-passes (λ (b : WorkspaceBuild). eqb b.ticket ticket) s.worker.workspace_builds b e)
        b.created

  returned_work-ended :
      (number : ℕ) (k : Work) (r : Result Returned) (s : Server)
      → NoneWaits
          (λ j. is_call_work k && eqb j.number number)
          (returned_work api push number k r s).jobs
  returned_work-ended number (builds ticket joined) r s = never s.jobs
  returned_work-ended number (opens ticket) r s = never s.jobs
  returned_work-ended number (acquires ms flow_id) r s = never s.jobs
  returned_work-ended number (static_call method args) r s =
      end_jobs-NoneWaits (λ j. eqb j.number number) _ (of_number-none number _) s
  returned_work-ended number (calls obj target method args) r s =
      end_jobs-NoneWaits (λ j. eqb j.number number) _ (of_number-none number _) _

  returned_for-ended :
      (number : ℕ) (r : Result Returned) (s : Server) (o : Option Job)
      → NoneWaits (λ j. is_call o && eqb j.number number) (returned_for api push number o r s).jobs
  returned_for-ended number r s none = never s.jobs
  returned_for-ended number r s (some j) = returned_work-ended number j.work r s

  acquired_work-ended :
      (number : ℕ) (k : Work) (r : Result (Option ℕ)) (s : Server)
      → NoneWaits
          (λ j. is_acquiring_work k && eqb j.number number)
          (acquired_work api push number k r s).jobs
  acquired_work-ended number (builds ticket joined) r s = never s.jobs
  acquired_work-ended number (opens ticket) r s = never s.jobs
  acquired_work-ended number (static_call method args) r s = never s.jobs
  acquired_work-ended number (calls obj target method args) r s = never s.jobs
  acquired_work-ended number (acquires ms flow_id) r s =
      end_jobs-NoneWaits (λ j. eqb j.number number) _ (of_number-none number _) _

  acquired_for-ended :
      (number : ℕ) (r : Result (Option ℕ)) (s : Server) (o : Option Job)
      → NoneWaits
          (λ j. is_acquiring o && eqb j.number number)
          (acquired_for api push number o r s).jobs
  acquired_for-ended number r s none = never s.jobs
  acquired_for-ended number r s (some j) = acquired_work-ended number j.work r s

  step-ended : (x : Step) (s : Server) → NoneWaits (ends x s) (step api push x s).jobs
  unfolding step
  step-ended (arrives c req) s = never _
  step-ended (built ticket ms) s = built_for-ended ticket ms s (build_at ticket s) refl
  step-ended (created ticket none) s = created_for-ended ticket s (find_build ticket s.worker) refl
  step-ended (created ticket (some cws)) s = never _
  step-ended (restored ticket r snapshot) s =
      restored_for-ended ticket r snapshot s (find_build ticket s.worker) refl
  step-ended (returned number r) s = returned_for-ended number r s (find_job number s.jobs)
  step-ended (acquired_as number r) s = acquired_for-ended number r s (find_job number s.jobs)
  step-ended (fires at fired) s = never s.jobs
  step-ended (snapshot_timer at snapshot) s = never s.jobs
  step-ended (snapshot_interval at snapshot) s = never s.jobs
  step-ended (push_timer room_id) s = never s.jobs
  step-ended (leaves c) s = never s.jobs
  step-ended (flushes pending snapshot) s = never s.jobs

  -- After any steps of a new worker, a request that a tab has made is answered or awaited, and as often
  -- as the tab has made it. What the next step ends is answered then: no request still waits for a
  -- client that has been built, a workspace whose opening has ended, or its own call that has returned.
  pub steps-answered :
      (client id : ℕ) (xs : List Step) (x : Step)
      → let s = steps api push xs new_server in
        (times_answered client id s.answered + times_awaited client id s.jobs
          ≡ times_asked client id xs)
        × NoneWaits (ends x s) (step api push x s).jobs
  steps-answered client id xs x =
      (steps-counted client id api push xs, step-ended x (steps api push xs new_server))

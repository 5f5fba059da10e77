-- ===== src/Worker/Workspaces/Single.antt =====
-- At most one workspace is being built for an account and a room (ui/src/worker/dispatch.ts, lines 457 to
-- 528). A build of a workspace is seen as one of a client that is expected for its key.
use secure_collab_app.Prelude.{
  ℕ, ◌≡◌, ◌≤◌, refl, ◌∙◌, Bool, String, Option, none, some, List, [], ◌∷◌, ◌==◌, get_elem?, eqb,
  All, Bool-cases, Option-cases, inl, inr, filter, length, map, All-find,
}
use secure_collab_app.Exec.{Result}
use secure_collab_app.Assoc.{map_get}
use secure_collab_app.Worker.State.{
  SessionEntry, SessionBuild, WorkspaceBuild, Persistence, Worker, fresh, session_of,
}
use secure_collab_app.Worker.Persistence.{persist_snapshot}
use secure_collab_app.Worker.Sessions.{without_build}
use secure_collab_app.Worker.Sessions.Single.{
  IsSingle, Registered, expects, at_most_one, start_build-IsSingle, without_build-AreSingle,
}
use secure_collab_app.Worker.Workspaces.{
  OpenRequest, open_key, open_known, open_for, open_begin, Replayed, replay, other_build,
  end_opening, mark_all, find_build, create_for, open_created, register_in, register_workspace,
  restore_for, open_restored,
}
use secure_collab_app.Worker.Workspaces.Kept.{
  SameRooms, then_same, persist_snapshot-same, replay-same,
}

abbrev as_build : WorkspaceBuild → SessionBuild
as_build b = record { ticket = b.ticket; expected = some b.key }

-- The worker with its workspace builds in the place of the client builds.
abbrev openings : Worker → Worker
openings w = record fresh {
  pending_sessions = w.pending_workspaces;
  next_ticket = w.next_opening;
  session_builds = map as_build w.workspace_builds;
}

abbrev pub AreOpenedOnce : Worker → Type 0
AreOpenedOnce w = IsSingle (openings w)

abbrev pub opens_key : String → WorkspaceBuild → Bool
opens_key key b = b.key == key

length-opens_key :
    (key : String) (bs : List WorkspaceBuild)
    → length (filter (expects key) (map as_build bs)) ≡ length (filter (opens_key key) bs)
length-opens_key key [] = refl
length-opens_key key (b ∷ bs) = elim (Bool-cases (b.key == key)) [
  | inl e ↦ rw (e, length-opens_key key bs) refl
  | inr e ↦ rw (e, length-opens_key key bs) refl
]

map-other_build :
    (t : ℕ) (bs : List WorkspaceBuild)
    → map as_build (filter (other_build t) bs) ≡ without_build t (map as_build bs)
map-other_build t [] = refl
map-other_build t (b ∷ bs) = elim (Bool-cases (eqb b.ticket t)) [
  | inl e ↦ rw (e, map-other_build t bs) refl
  | inr e ↦ rw (e, map-other_build t bs) refl
]

map-mark_all :
    (t at : ℕ) (bs : List WorkspaceBuild) → map as_build (mark_all t at bs) ≡ map as_build bs
map-mark_all t at [] = refl
map-mark_all t at (b ∷ bs) = elim (Bool-cases (eqb b.ticket t)) [
  | inl e ↦ rw (e, map-mark_all t at bs) refl
  | inr e ↦ rw (e, map-mark_all t at bs) refl
]

All-as_build :
    (P : SessionBuild → Type 0) (bs : List WorkspaceBuild)
    → All P (map as_build bs)
    → All (λ b. P (as_build b)) bs
All-as_build P [] h = tt
All-as_build P (b ∷ bs) h = (h.0, All-as_build P bs h.1)

-- What a build that the worker has is registered under.
found-Registered :
    (t : ℕ) (b : WorkspaceBuild) (w : Worker)
    → AreOpenedOnce w
    → find_build t w ≡ some b
    → Registered w.pending_workspaces (as_build b)
found-Registered t b w h f =
    (All-find (λ c. Registered w.pending_workspaces (as_build c)) _ w.workspace_builds
      (All-as_build (Registered w.pending_workspaces) w.workspace_builds h.registered) f).0

-- The end of a build, after steps that leave the builds as they are.
end_opening_keeps :
    (b : WorkspaceBuild) (w v : Worker)
    → v.pending_workspaces ≡ w.pending_workspaces
    → v.next_opening ≡ w.next_opening
    → v.workspace_builds ≡ w.workspace_builds
    → Registered w.pending_workspaces (as_build b)
    → AreOpenedOnce w
    → AreOpenedOnce (end_opening b v)
end_opening_keeps b w v p n s r h =
    rw (p, n, s, map-other_build b.ticket w.workspace_builds)
      (without_build-AreSingle w.pending_workspaces w.next_opening (map as_build w.workspace_builds)
        (as_build b) r h)

open_known_keeps :
    (req : OpenRequest) (at : ℕ) (opened pending : Option ℕ) (w : Worker)
    → map_get (open_key req) w.pending_workspaces ≡ pending
    → AreOpenedOnce w
    → AreOpenedOnce (open_known req at opened pending w).0
open_known_keeps req at (some ws) pending w q h = h
open_known_keeps req at none (some ticket) w q h = h
open_known_keeps req at none none w q h =
    start_build-IsSingle (some (open_key req)) (openings w)
      (λ u same. let e : open_key req ≡ u = cc in rw (← e) q) h

open_for_keeps :
    (req : OpenRequest) (x : Option (ℕ × SessionEntry)) (pending : Option ℕ) (w : Worker)
    → map_get (open_key req) w.pending_workspaces ≡ pending
    → AreOpenedOnce w
    → AreOpenedOnce (open_for req x pending w).0
open_for_keeps req none pending w q h = h
open_for_keeps req (some (at, e)) pending w q h =
    open_known_keeps req at (map_get req.room_id e.workspaces) pending w q h

create_for_keeps :
    (cws : Option ℕ) (b : WorkspaceBuild) (w : Worker)
    → Registered w.pending_workspaces (as_build b)
    → AreOpenedOnce w
    → AreOpenedOnce (create_for cws b w)
create_for_keeps none b w r h = end_opening_keeps b w w refl refl refl r h
create_for_keeps (some cws) b w r h =
    rw (map-mark_all b.ticket (length w.persistences) w.workspace_builds)
      (record { registered = h.registered; below = h.below; distinct = h.distinct })

open_created_keeps :
    (ticket : ℕ) (cws : Option ℕ) (w : Worker)
    → AreOpenedOnce w
    → AreOpenedOnce (open_created ticket cws w)
unfolding open_created
open_created_keeps ticket cws w h = elim (Option-cases (find_build ticket w)) [
  | inl e ↦ rw (e, open_created) h
  | inr (b, e) ↦ rw (e, open_created) (create_for_keeps cws b w (found-Registered ticket b w h e) h)
]

register_in-same :
    (at : ℕ) (o : Option SessionEntry) (room_id : String) (cws : ℕ) (w : Worker)
    → ((register_in at o room_id cws w).pending_workspaces ≡ w.pending_workspaces)
      × ((register_in at o room_id cws w).next_opening ≡ w.next_opening)
      × ((register_in at o room_id cws w).workspace_builds ≡ w.workspace_builds)
register_in-same at none room_id cws w = (refl, refl, refl)
register_in-same at (some e) room_id cws w = (refl, refl, refl)

register-same :
    (b : WorkspaceBuild) (p : Option Persistence) (w : Worker)
    → ((register_workspace b p w).pending_workspaces ≡ w.pending_workspaces)
      × ((register_workspace b p w).next_opening ≡ w.next_opening)
      × ((register_workspace b p w).workspace_builds ≡ w.workspace_builds)
register-same b none w = (refl, refl, refl)
register-same b (some p) w =
    register_in-same b.entry (get_elem? w.entries b.entry) b.room_id p.cws w

-- What happens to the workspaces of a worker, in the order in which it happens.
pub data OpeningStep : Type 0 where
  begins : OpenRequest → OpeningStep
  creates : (ticket : ℕ) (cws : Option ℕ) → OpeningStep
  restores : (ticket : ℕ) (r : Replayed) (snapshot : Result String) → OpeningStep

module _ (push : String → Worker → Worker) where
  abbrev pub opening_step : OpeningStep → Worker → Worker
  opening_step (begins req) w = (open_begin req w).0
  opening_step (creates ticket cws) w = open_created ticket cws w
  opening_step (restores ticket r snapshot) w = open_restored push ticket r snapshot w

  abbrev pub opening_steps : List OpeningStep → Worker → Worker
  opening_steps [] w = w
  opening_steps (x ∷ xs) w = opening_steps xs (opening_step x w)

module _ (push : String → Worker → Worker)
    (push-same : (room_id : String) (w : Worker) → SameRooms w (push room_id w)) where
  restore_for_keeps :
      (b : WorkspaceBuild) (at : ℕ) (r : Replayed) (snapshot : Result String) (w : Worker)
      → Registered w.pending_workspaces (as_build b)
      → AreOpenedOnce w
      → AreOpenedOnce (restore_for push b at r snapshot w)
  unfolding persist_snapshot
  restore_for_keeps b at r snapshot w q h =
      let v = replay push b at r w in
      let u = persist_snapshot at snapshot v in
      let k =
        then_same (replay-same push push-same b at r w)
          (persist_snapshot-same (get_elem? v.persistences at) snapshot v) in
      let m = register-same b (get_elem? u.persistences at) u in
      end_opening_keeps b w (register_workspace b (get_elem? u.persistences at) u) (m.0 ∙ k.pending)
        (m.1 ∙ k.next) (m.2 ∙ k.builds) q h

  restored_stage_keeps :
      (o : Option ℕ) (b : WorkspaceBuild) (r : Replayed) (snapshot : Result String) (w : Worker)
      → Registered w.pending_workspaces (as_build b)
      → AreOpenedOnce w
      → AreOpenedOnce (elim o [ none ↦ w | some at ↦ restore_for push b at r snapshot w ])
  restored_stage_keeps none b r snapshot w q h = h
  restored_stage_keeps (some at) b r snapshot w q h = restore_for_keeps b at r snapshot w q h

  open_restored_keeps :
      (ticket : ℕ) (r : Replayed) (snapshot : Result String) (w : Worker)
      → AreOpenedOnce w
      → AreOpenedOnce (open_restored push ticket r snapshot w)
  unfolding open_restored
  open_restored_keeps ticket r snapshot w h = elim (Option-cases (find_build ticket w)) [
    | inl e ↦ rw (e, open_restored) h
    | inr (b, e) ↦
        rw (e, open_restored)
          (restored_stage_keeps b.created b r snapshot w (found-Registered ticket b w h e) h)
  ]

  opening_step_keeps :
      (x : OpeningStep) (w : Worker) → AreOpenedOnce w → AreOpenedOnce (opening_step push x w)
  unfolding open_begin
  opening_step_keeps (begins req) w h =
      open_for_keeps req (session_of w req.user_id) (map_get (open_key req) w.pending_workspaces) w
        refl h
  opening_step_keeps (creates ticket cws) w h = open_created_keeps ticket cws w h
  opening_step_keeps (restores ticket r snapshot) w h = open_restored_keeps ticket r snapshot w h

  opening_steps_keep :
      (xs : List OpeningStep) (w : Worker)
      → AreOpenedOnce w
      → AreOpenedOnce (opening_steps push xs w)
  opening_steps_keep [] w h = h
  opening_steps_keep (x ∷ xs) w h =
      opening_steps_keep xs (opening_step push x w) (opening_step_keeps x w h)

  -- Whatever sequence of `workspace.open` requests and ends of their creations and replays a worker
  -- without workspace builds goes through, at most one of the builds in flight is for any one
  -- account and room. Pushing state leaves the sessions and the builds as they are.
  pub opening_steps-AtMostOne :
      (xs : List OpeningStep) (w : Worker) (key : String)
      → w.workspace_builds ≡ []
      → length (filter (opens_key key) (opening_steps push xs w).workspace_builds) ≤ 1
  opening_steps-AtMostOne xs w key none_yet =
      let h =
        opening_steps_keep xs w
          (rw none_yet (record { registered = tt; below = tt; distinct = tt })) in
      rw (← length-opens_key key (opening_steps push xs w).workspace_builds) (
        at_most_one key (opening_steps push xs w).pending_workspaces
          (map as_build (opening_steps push xs w).workspace_builds) h.registered h.distinct)

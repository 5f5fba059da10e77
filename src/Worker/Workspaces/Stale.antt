-- ===== src/Worker/Workspaces/Stale.antt =====
-- A workspace whose session is replaced while it is being opened (ui/src/worker/dispatch.ts, lines 457
-- to 528).
use secure_collab_app.Prelude.{
  ℕ, ◌≡◌, refl, ◌∙◌, false, String, Option, none, some, List, [], ◌∷◌, get_elem?, set_elem, zero,
  suc, eqb, arith,
}
use secure_collab_app.Exec.{Result}
use secure_collab_app.Worker.State.{
  SessionEntry, WorkspaceBuild, Persistence, Worker, find_workspace, room_in,
}
use secure_collab_app.Worker.Persistence.{persist_snapshot}
use secure_collab_app.Worker.Workspaces.Kept.{
  SameRooms, then_same, persist_snapshot-same, replay-same,
}
use secure_collab_app.Worker.Workspaces.{
  replay, Replayed, register_workspace, register_in, open_restored, restore_for, find_build,
}

get_elem-set_elem-other :
    {A : Type 0} (i j : ℕ) (x : A) (xs : List A)
    → eqb j i ≡ false
    → get_elem? (set_elem i x xs) j ≡ get_elem? xs j
get_elem-set_elem-other i j x [] h = refl
get_elem-set_elem-other zero zero x (y ∷ ys) h = cc
get_elem-set_elem-other zero (suc j) x (y ∷ ys) h = refl
get_elem-set_elem-other (suc i) zero x (y ∷ ys) h = refl
get_elem-set_elem-other (suc i) (suc j) x (y ∷ ys) h =
    get_elem-set_elem-other i j x ys (ground (arith, h))

-- No session has the entry.
abbrev pub IsLost : ℕ → List (String × ℕ) → Type 0
IsLost at [] = Unit
IsLost at ((user_id, a) ∷ sessions) = (eqb a at ≡ false) × IsLost at sessions

room_in-lost :
    (at : ℕ) (e : SessionEntry) (entries : List SessionEntry) (sessions : List (String × ℕ))
    (room_id : String)
    → IsLost at sessions
    → room_in (set_elem at e entries) sessions room_id ≡ room_in entries sessions room_id
unfolding room_in
room_in-lost at e entries [] room_id h = refl
room_in-lost at e entries ((user_id, a) ∷ sessions) room_id h =
    rw (get_elem-set_elem-other at a e entries h.0, room_in-lost at e entries sessions room_id h.1)
      refl

register_in-lost :
    (at : ℕ) (o : Option SessionEntry) (room_id : String) (cws : ℕ) (w : Worker) (r : String)
    → IsLost at w.sessions
    → find_workspace (register_in at o room_id cws w) r ≡ find_workspace w r
unfolding find_workspace
register_in-lost at none room_id cws w r h = refl
register_in-lost at (some e) room_id cws w r h = room_in-lost at _ w.entries w.sessions r h

register-lost :
    (b : WorkspaceBuild) (p : Option Persistence) (w : Worker) (room_id : String)
    → IsLost b.entry w.sessions
    → find_workspace (register_workspace b p w) room_id ≡ find_workspace w room_id
register-lost b none w room_id h = refl
register-lost b (some p) w room_id h =
    register_in-lost b.entry (get_elem? w.entries b.entry) b.room_id p.cws w room_id h

module _ (push : String → Worker → Worker)
    (push-same : (room_id : String) (w : Worker) → SameRooms w (push room_id w)) where
  restore_for-lost :
      (b : WorkspaceBuild) (at : ℕ) (r : Replayed) (snapshot : Result String) (w : Worker)
      (room_id : String)
      → IsLost b.entry w.sessions
      → find_workspace (restore_for push b at r snapshot w) room_id ≡ find_workspace w room_id
  unfolding find_workspace persist_snapshot
  restore_for-lost b at r snapshot w room_id h =
      let v = replay push b at r w in
      let u = persist_snapshot at snapshot v in
      let k =
        then_same (replay-same push push-same b at r w)
          (persist_snapshot-same (get_elem? v.persistences at) snapshot v) in
      register-lost b (get_elem? u.persistences at) u room_id (rw k.sessions h)
      ∙ rw (k.entries, k.sessions) refl

  restored_stage-lost :
      (o : Option ℕ) (b : WorkspaceBuild) (r : Replayed) (snapshot : Result String) (w : Worker)
      (room_id : String)
      → IsLost b.entry w.sessions
      → find_workspace (elim o [ none ↦ w | some at ↦ restore_for push b at r snapshot w ]) room_id
        ≡ find_workspace w room_id
  restored_stage-lost none b r snapshot w room_id h = refl
  restored_stage-lost (some at) b r snapshot w room_id h =
      restore_for-lost b at r snapshot w room_id h

  -- When the session of a workspace that is being opened is replaced or signed out before the
  -- opening ends, so that no session has the entry it began with, the end of the opening leaves
  -- every room of the worker as it was: a room that was not open is not open after it. Pushing state
  -- leaves the sessions as they are.
  pub open_restored-lost :
      (ticket : ℕ) (b : WorkspaceBuild) (r : Replayed) (snapshot : Result String) (w : Worker)
      (room_id : String)
      → find_build ticket w ≡ some b
      → IsLost b.entry w.sessions
      → find_workspace (open_restored push ticket r snapshot w) room_id ≡ find_workspace w room_id
  unfolding open_restored
  open_restored-lost ticket b r snapshot w room_id f h =
      rw (f, open_restored) (restored_stage-lost b.created b r snapshot w room_id h)

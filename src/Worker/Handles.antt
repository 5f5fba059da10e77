-- ===== src/Worker/Handles.antt =====
-- Handles of objects (ui/src/worker/dispatch.ts, lines 269 to 295): a key names a kind of object and
-- its id, and each kind has the methods that a tab may call.
use secure_collab_app.Prelude.{
  ℕ, ◌≡◌, refl, ◌==◌, String, Option, none, some, List, if◌then◌else◌, cut_at,
}
use secure_collab_app.Exec.{Result, ok, err}
use secure_collab_app.Assoc.{map_get}
use secure_collab_app.Worker.Protocol.{
  session_key, room_key, verify_key, session_methods, workspace_methods, verification_methods,
}
use secure_collab_app.Worker.State.{Worker, SessionEntry, session_of, find_workspace}

pub data Object : Type 0 where
  session : ℕ → Object
  workspace : ℕ → Object
  verification : ℕ → Object

pub record Target : Type 0 where
  pub obj : Object
  pub allowed : List String

-- The kind and the id of a key; a key without a colon is both.
abbrev pub handle_parts : String → String × String
handle_parts target = elim (cut_at b':' target) [ none ↦ (target, target) | some p ↦ p ]

abbrev pub of_session : Option (ℕ × SessionEntry) → Result Target
of_session none = err "No session"
of_session (some (at, e)) = ok (record { obj = session e.ms; allowed = session_methods })

abbrev pub of_room : Option ℕ → Result Target
of_room none = err "Workspace is not open"
of_room (some ws) = ok (record { obj = workspace ws; allowed = workspace_methods })

abbrev pub of_verification : Option ℕ → Result Target
of_verification none = err "No verification flow"
of_verification (some v) = ok (record { obj = verification v; allowed = verification_methods })

unfoldable pub resolve_target : Worker → String → Result Target
resolve_target w target =
    let (kind, id) = handle_parts target in
    if kind == "session"
    then of_session (session_of w id)
    else if kind == "room"
    then of_room (find_workspace w id)
    else if kind == "verify"
    then of_verification (map_get id w.verifications)
    else err "Unknown handle"

-- The key of a session, a room or a verification flow resolves to that object, with the methods of
-- its kind, or fails where the worker has none, also if the id has colons of its own.
pub resolve_target-key :
    (w : Worker) (id : String)
    → (resolve_target w (session_key id) ≡ of_session (session_of w id))
      × (resolve_target w (room_key id) ≡ of_room (find_workspace w id))
      × (resolve_target w (verify_key id) ≡ of_verification (map_get id w.verifications))
unfolding resolve_target cut_at
resolve_target-key w id = (refl, refl, refl)

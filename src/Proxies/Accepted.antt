-- ===== src/Proxies/Accepted.antt =====
-- What the tab sends on is what the worker takes (ui/src/worker/protocol.ts, lines 332 to 420).
use secure_collab_app.Prelude.{ℕ, ◌≡◌, true, String, some, []}
use secure_collab_app.Assoc.{map_get}
use secure_collab_app.Worker.Protocol.{session_key, room_key, verify_key}
use secure_collab_app.Worker.State.{Worker, session_of, find_workspace, SessionEntry}
use secure_collab_app.Worker.Handles.{Object, session, workspace, verification}
use secure_collab_app.Worker.Requests.{Work, calls, Api}
use secure_collab_app.Client.{Unsent, room_call, session_call, verification_call}
use secure_collab_app.Proxies.Calls.{
  RoomCall, room_method, room_args, SessionCall, session_method, session_args, VerificationCall,
  verification_method,
}

-- A call of one of the tab's stand-ins.
pub data StandInCall : Type 0 where
  of_room : (room_id : String) → RoomCall → StandInCall
  of_session : (user_id : String) → SessionCall → StandInCall
  of_verification : (flow_id : String) → VerificationCall → StandInCall

abbrev pub sent_on : StandInCall → Unsent
sent_on (of_room room_id c) = room_call room_id (room_method c) (room_args c)
sent_on (of_session user_id c) = session_call user_id (session_method c) (session_args c)
sent_on (of_verification flow_id c) =
    verification_call (verify_key flow_id) (verification_method c) []

-- The worker has the object that the call is for, and the object has the method.
abbrev pub Reaches : Api → Worker → StandInCall → Object → Type 0
Reaches api w (of_room room_id c) obj =
    (cws : ℕ) × (obj ≡ workspace cws)
    × (find_workspace w room_id ≡ some cws)
    × (api.has_method (workspace cws) (room_method c) ≡ true)
Reaches api w (of_session user_id c) obj =
    (at : ℕ) × (e : SessionEntry) × (obj ≡ session e.ms)
    × (session_of w user_id ≡ some (at, e))
    × (api.has_method (session e.ms) (session_method c) ≡ true)
Reaches api w (of_verification flow_id c) obj =
    (flow : ℕ) × (obj ≡ verification flow)
    × (map_get flow_id w.verifications ≡ some flow)
    × (api.has_method (verification flow) (verification_method c) ≡ true)

-- What is to be called of the object.
abbrev pub called_of : StandInCall → Object → Work
called_of (of_room room_id c) obj = calls obj (room_key room_id) (room_method c) (room_args c)
called_of (of_session user_id c) obj =
    calls obj (session_key user_id) (session_method c) (session_args c)
called_of (of_verification flow_id c) obj =
    calls obj (verify_key flow_id) (verification_method c) []

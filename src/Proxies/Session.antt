-- ===== src/Proxies/Session.antt =====
-- The stand-in for a session (ui/src/worker/workerSession.ts, lines 123 to 148, 179 to 191 and 211 to
-- 215): it answers with what the worker has told it of the account.
use secure_collab_app.Prelude.{
  ℕ, suc, Bool, true, false, not, ◌&&◌, String, List, [], ◌∷◌, ◌++◌, ◌==◌, if◌then◌else◌, any, eqb,
}
use secure_collab_app.Worker.Protocol.{
  SessionInfo, Event, workspace_change, workspace_state, queue_change, session_sync, token_refresh,
  session_dropped, log,
}

-- `told` are the token listeners that were called, each with what `sessionData()` then gives;
-- `synced` are the others, and `sync_requests` counts the calls of `startSessionSync` sent on.
pub record Session : Type 0 where
  pub user_id : String
  pub session_data : String
  pub joined : Bool
  pub is_closed : Bool
  pub token_listeners : List ℕ
  pub sync_listeners : List ℕ
  pub told : List (ℕ × String)
  pub synced : List ℕ
  pub sync_requests : ℕ

abbrev pub wrap_session : SessionInfo → Session
wrap_session info = record {
  user_id = info.user_id;
  session_data = info.session_data;
  joined = info.joined;
  is_closed = false;
  token_listeners = [];
  sync_listeners = [];
  told = [];
  synced = [];
  sync_requests = 0;
}

-- The data is kept before the listeners are called.
abbrev tell_each : List ℕ → Session → Session
tell_each [] s = s
tell_each (l ∷ ls) s = tell_each ls (record s { told = s.told ++ (l, s.session_data) ∷ [] })

abbrev refresh : String → Session → Session
refresh blob s = tell_each s.token_listeners (record s { session_data = blob })

abbrev is_for : String → Session → Bool
is_for user_id s = not s.is_closed && (user_id == s.user_id)

abbrev pub on_event : Event → Session → Session
on_event (token_refresh user_id blob) s = if is_for user_id s then refresh blob s else s
on_event (session_sync user_id) s =
    if is_for user_id s then record s { synced = s.synced ++ s.sync_listeners } else s
on_event (workspace_change room_id) s = s
on_event (workspace_state room_id state) s = s
on_event (queue_change room_id) s = s
on_event (session_dropped user_id) s = s
on_event (log level) s = s

abbrev pub add_listener : ℕ → List ℕ → List ℕ
add_listener l ls = if any (eqb l) ls then ls else ls ++ l ∷ []

abbrev pub start_token_persistence : ℕ → Session → Session
start_token_persistence l s = record s { token_listeners = add_listener l s.token_listeners }

abbrev pub start_session_sync : ℕ → Session → Session
start_session_sync l s = record s {
  sync_listeners = add_listener l s.sync_listeners;
  sync_requests = suc s.sync_requests;
}

abbrev pub close : Session → Session
close s = record s { is_closed = true; token_listeners = []; sync_listeners = [] }

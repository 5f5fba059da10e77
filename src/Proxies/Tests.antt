-- ===== src/Proxies/Tests.antt =====
-- The theorems about the stand-ins at a tab that shows two tables.
use secure_collab_app.Prelude.{◌≡◌, refl, true, none, some, List, [], ◌∷◌, contains, get_last?}
use secure_collab_app.Worker.Protocol.{workspace_change, token_refresh}
use secure_collab_app.Worker.State.{Worker, SessionEntry, fresh}
use secure_collab_app.Worker.Requests.{Api}
use secure_collab_app.Proxies.Workspace.{
  Use, hears, reads_rows, reads_order, runs_microtask, use_all, new_stand_in, microtask,
}
use secure_collab_app.Proxies.Session
use secure_collab_app.Proxies.Session.{wrap_session, start_token_persistence}
use secure_collab_app.Proxies.Subscribed.{tables_read, microtask-subscribed}

abbrev two_tables : List Use
two_tables =
    reads_rows "t1"
    ∷ reads_order "t1"
    ∷ runs_microtask
    ∷ hears (workspace_change "!r:x")
    ∷ reads_rows "t2"
    ∷ []

microtask-subscribed_example :
    let p = use_all two_tables (new_stand_in "!r:x") in
    (get_last? (microtask p).subscribed ≡ some p.table_ids)
    × (contains p.table_ids "t2" ≡ contains (tables_read two_tables) "t2")
microtask-subscribed_example = microtask-subscribed two_tables "!r:x" "t2"

abbrev entry : SessionEntry
entry = record { ms = 7; workspaces = ("!r:x", 9) ∷ []; session_sync_started = true }

abbrev worker : Worker
worker = record fresh { entries = entry ∷ []; sessions = ("@ann:x", 0) ∷ [] }

abbrev api : Api
api = record {
  clients = record { user_id = λ ms. some "@ann:x"; session_data = λ ms. "data" };
  has_method = λ obj method. true;
  start_session_sync = λ ms. none;
  ping_text = λ info. info.build;
  info_text = λ info. info.user_id;
}

-- A listener that reads the session's data when it is told of new tokens reads the new ones, and a
-- refresh of another account is not told.
fresh_tokens :
    let s = Session.on_event (token_refresh "@bob:x" "other") (
      Session.on_event (token_refresh "@ann:x" "new") (
        start_token_persistence 5
          (wrap_session (record { user_id = "@ann:x"; session_data = "old"; joined = true })))) in
    (s.told ≡ (5, "new") ∷ []) × (s.session_data ≡ "new")
fresh_tokens = (refl, refl)

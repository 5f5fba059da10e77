-- ===== src/Worker/Sessions.antt =====
-- Sessions of the dispatcher (ui/src/worker/dispatch.ts, lines 313 to 406). `createSession` runs up
-- to its first `await` in `create_begin`; the rest, up to the `finally`, runs in `create_done` when
-- the wasm module has built a client or has failed. What the module says of a client is a
-- parameter.
pub mod Single
use secure_collab_app.Prelude.{
  ◌==◌, ℕ, suc, ◌+◌, Bool, true, false, not, ◌||◌, String, Option, none, some, List, [], ◌∷◌, ◌++◌,
  eqb, ltb, if◌then◌else◌, length, filter, is_empty, find,
}
use secure_collab_app.Exec.{Result, ok, err}
use secure_collab_app.Assoc.{map_get, map_set, map_delete}
use secure_collab_app.Worker.Protocol.{
  SessionVia, session_factory_arity, SessionInfo, session_dropped, log_line, warn_line,
}
use secure_collab_app.Worker.State.{
  SessionEntry, SessionBuild, Worker, broadcast, log_at, session_of,
}

-- `ms.userId()` and `ms.sessionData()` for a client.
pub record Clients : Type 0 where
  pub user_id : ℕ → Option String
  pub session_data : ℕ → String

pub record CreateRequest : Type 0 where
  pub via : SessionVia
  pub expect_user_id : Option String
  pub args : ℕ

pub data Begun : Type 0 where
  failed : String → Begun
  joins : SessionInfo → Begun
  awaits : (ticket : ℕ) → Begun
  starts : (ticket : ℕ) → Begun

-- The arguments after the hook of the events are too few or too many for the factory.
abbrev pub wrong_arity : CreateRequest → Bool
wrong_arity req =
    let arity = session_factory_arity req.via in ltb req.args arity.min || ltb arity.max req.args

-- An empty text is as good as none.
abbrev pub truthy : Option String → Option String
truthy none = none
truthy (some s) = if is_empty s then none else some s

abbrev pub replaces : Option (ℕ × SessionEntry) → ℕ → Bool
replaces none ms = false
replaces (some (at, e)) ms = not (eqb e.ms ms)

abbrev pub register_entry : String → ℕ → Worker → Worker
register_entry user_id ms w = record w {
  entries = w.entries ++ record { ms = ms; workspaces = []; session_sync_started = false } ∷ [];
  sessions = map_set user_id (length w.entries) w.sessions;
}

abbrev pub begun_of : Result SessionInfo → Begun
begun_of (ok info) = joins info
begun_of (err e) = failed e

-- A new build, registered under the expected account if there is one.
abbrev pub start_build : Option String → Worker → Worker × Begun
start_build expected w = (
  record w {
    session_builds = record { ticket = w.next_ticket; expected = expected } ∷ w.session_builds;
    next_ticket = suc w.next_ticket;
    pending_sessions = elim expected [
      | none ↦ w.pending_sessions
      | some u ↦ map_set u w.next_ticket w.pending_sessions
    ];
  },
  starts w.next_ticket,
)

abbrev pub without_build : ℕ → List SessionBuild → List SessionBuild
without_build ticket builds = filter (λ (b : SessionBuild). not (eqb b.ticket ticket)) builds

abbrev pub clear_pending : Option String → List (String × ℕ) → List (String × ℕ)
clear_pending none m = m
clear_pending (some u) m = map_delete u m

-- The `warn` of a build that yields another account.
abbrev pub mismatch : Option String → Result SessionInfo → Bool
mismatch expected (err e) = false
mismatch none (ok info) = false
mismatch (some u) (ok info) = not (info.user_id == u)

-- The client takes the account's place in the map; tabs of a client that it replaces are told.
abbrev pub told_dropped : Bool → String → Worker → Worker
told_dropped true user_id w = broadcast (session_dropped user_id) (log_at warn_line w)
told_dropped false user_id w = w

abbrev pub install_as : ℕ → Result SessionInfo → Worker → Result SessionInfo × Worker
install_as ms (err e) w = (err e, w)
install_as ms (ok info) w = (
  ok info,
  register_entry info.user_id ms
      (told_dropped (replaces (session_of w info.user_id) ms) info.user_id w),
)

-- What the wasm module has yielded: a client, or none if it failed.
abbrev pub build_result :
    (ℕ → Worker → Result SessionInfo × Worker) → Option ℕ → Worker → Result SessionInfo × Worker
build_result installed none w = (err "session.create failed", w)
build_result installed (some ms) w = installed ms w

abbrev pub told_mismatch : Bool → Worker → Worker
told_mismatch true w = log_at warn_line w
told_mismatch false w = w

-- The `finally`.
abbrev pub end_build : SessionBuild → Worker → Worker
end_build b w = record w {
  session_builds = without_build b.ticket w.session_builds;
  pending_sessions = clear_pending b.expected w.pending_sessions;
}

module _ (clients : Clients) where
  unfoldable pub describe : ℕ → Bool → Result SessionInfo
  describe ms joined = elim (truthy (clients.user_id ms)) [
    | none ↦ err "Session has no user id — restore did not complete"
    | some u ↦ ok (record { user_id = u; session_data = clients.session_data ms; joined = joined })
  ]

  abbrev pub install : ℕ → Worker → Result SessionInfo × Worker
  install ms w = install_as ms (describe ms false) w

  -- With what the two maps hold for the expected account `u`.
  abbrev pub begin_for : Option (ℕ × SessionEntry) → Option ℕ → String → Worker → Worker × Begun
  begin_for (some (at, e)) pending u w = (log_at log_line w, begun_of (describe e.ms true))
  begin_for none (some ticket) u w = (log_at log_line w, awaits ticket)
  begin_for none none u w = start_build (some u) w

  abbrev pub begin_expected : Option String → Worker → Worker × Begun
  begin_expected none w = start_build none w
  begin_expected (some u) w = begin_for (session_of w u) (map_get u w.pending_sessions) u w

  unfoldable pub create_begin : CreateRequest → Worker → Worker × Begun
  create_begin req w =
      if wrong_arity req
      then (w, failed "session.create takes another number of arguments")
      else begin_expected (truthy req.expect_user_id) w

  abbrev pub finish : SessionBuild → Option ℕ → Worker → Result SessionInfo × Worker
  finish b built w =
      let r = build_result install built w in
      (r.0, end_build b (told_mismatch (mismatch b.expected r.0) r.1))

  unfoldable pub create_done : ℕ → Option ℕ → Worker → Worker
  create_done ticket built w =
      elim (find (λ (b : SessionBuild). eqb b.ticket ticket) w.session_builds) [
        | none ↦ w
        | some b ↦ (finish b built w).1
      ]

-- `destroySession`
unfoldable pub destroy_session : String → Worker → Worker
destroy_session user_id w = elim (session_of w user_id) [
  | none ↦ w
  | some (at, e) ↦
      broadcast (session_dropped user_id) (record w { sessions = map_delete user_id w.sessions })
]

-- What happens to the sessions of a worker, in the order in which it happens.
pub data SessionStep : Type 0 where
  begins : CreateRequest → SessionStep
  ends : (ticket : ℕ) (built : Option ℕ) → SessionStep
  destroys : String → SessionStep

abbrev pub session_step : Clients → SessionStep → Worker → Worker
session_step clients (begins req) w = (create_begin clients req w).0
session_step clients (ends ticket built) w = create_done clients ticket built w
session_step clients (destroys user_id) w = destroy_session user_id w

abbrev pub session_steps : Clients → List SessionStep → Worker → Worker
session_steps clients [] w = w
session_steps clients (s ∷ steps) w = session_steps clients steps (session_step clients s w)

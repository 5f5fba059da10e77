-- ===== src/Worker/Tests.antt =====
-- The theorems about ui/src/worker/dispatch.ts at a worker that three tabs ask for sessions.
use secure_collab_app.Prelude.{
  ◌≤◌, ◌≡◌, refl, none, some, List, [], ◌∷◌, filter, length, if◌then◌else◌, eqb,
}
use secure_collab_app.Assoc.{map_get, map_set, map_delete}
use secure_collab_app.Worker.Protocol.{restore}
use secure_collab_app.Worker.State.{fresh, session_of}
use secure_collab_app.Worker.Sessions.{
  Clients, SessionStep, begins, ends, destroys, session_steps, create_begin, create_done,
  destroy_session, describe,
}
use secure_collab_app.Worker.Sessions.Single.{expects, session_steps-AtMostOne}

abbrev clients : Clients
clients = record {
  user_id = λ ms. if eqb ms 7 then some "@ann:x" else none;
  session_data = λ ms. "data";
}

abbrev asks : SessionStep
asks = begins (record { via = restore; expect_user_id = some "@ann:x"; args = 2 })

-- Two tabs ask before the build ends, one after.
abbrev steps : List SessionStep
steps = asks ∷ asks ∷ ends 0 (some 7) ∷ asks ∷ destroys "@ann:x" ∷ asks ∷ asks ∷ []

one_client :
    ((session_steps clients (asks ∷ asks ∷ ends 0 (some 7) ∷ asks ∷ []) fresh).sessions
      ≡ ("@ann:x", 0) ∷ [])
    × (length (session_steps clients (asks ∷ asks ∷ []) fresh).session_builds ≡ 1)
    × (length (session_steps clients steps fresh).session_builds ≡ 1)
unfolding create_begin create_done destroy_session describe session_of map_get map_set map_delete
one_client = (refl, refl, refl)

session_steps-AtMostOne_example :
    length (filter (expects "@ann:x") (session_steps clients steps fresh).session_builds) ≤ 1
session_steps-AtMostOne_example = session_steps-AtMostOne clients steps "@ann:x"

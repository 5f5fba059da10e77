-- ===== src/Worker/Server/Calls.antt =====
-- Which methods of the wasm module's objects the tabs can have called (ui/src/worker/protocol.ts,
-- lines 332 to 420, and ui/src/worker/dispatch.ts, lines 270 to 295 and 613 to 635).
use secure_collab_app.Prelude.{List, All}
use secure_collab_app.Worker.State.{Worker}
use secure_collab_app.Worker.Requests.{Api}
use secure_collab_app.Worker.Requests.Allowed.{IsAllowed}
use secure_collab_app.Worker.Server.{Job, Server}

module _ (api : Api) where
  abbrev AllAllowed : List Job → Type 0
  AllAllowed jobs = All (λ j. IsAllowed api j.work) jobs

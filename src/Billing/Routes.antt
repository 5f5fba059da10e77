-- ===== src/Billing/Routes.antt =====
-- The entry points of the billing worker (billing/src/index.ts, lines 696 to 755).
pub mod Guards
pub mod Unlocks
pub mod Handlers
pub mod Safety
use Prim.Native.String
use secure_collab_app.Prelude.{
  ℕ, Bool, true, false, not, ◌&&◌, ◌||◌, String, Option, none, some, List, ◌==◌, if◌then◌else◌,
}
use secure_collab_app.Prelude.Int.{Num, parse_int}
use secure_collab_app.Exec.{Result, ok, err, Exec, pure, throw, attempt, ◌>>=◌, ◌>>◌}
use secure_collab_app.Billing.Services.{Env, Services, World}
use secure_collab_app.Billing.Sweep.{
  SweepOverrides, Summary, no_overrides, or_else, text_or_empty, sweep,
}
use secure_collab_app.Billing.Http.{
  Request, Response, respond, no_body, text_body, location, summary_body, query_get,
}
use secure_collab_app.Billing.Standing.{subscribe, success, status}
use secure_collab_app.Billing.Account.{checkout, portal, delete_account}
use secure_collab_app.Billing.Webhook.{webhook}

-- `num(k)`: no parameter, or what `parseInt` makes of it.
pub num : String → Request → Option Num
num key req = elim (query_get key req.query) [ none ↦ none | some raw ↦ some (parse_int raw) ]

pub manual_overrides : Request → SweepOverrides
manual_overrides req = record {
  trial_days = num "trial_days" req;
  grace_days = num "grace_days" req;
  delete_after_days = num "delete_after_days" req;
  delete_mode = some (or_else (query_get "delete_mode" req.query) "report");
}

abbrev pub bearer : Env → String
bearer env = String.◌++◌ "Bearer " env.mas_billing_client_secret

module _ {W : Type 0} (svc : Services W) where
  pub manual_sweep : Env → Num → Request → Exec (World W) Response
  manual_sweep env now req =
      if not (text_or_empty req.authorization == bearer env)
      then pure (respond 403 (text_body "Forbidden"))
      else do s ← sweep svc env (manual_overrides req) now; pure (respond 200 (summary_body s))

  -- The `try` of `fetch`: the first route that fits answers.
  pub route : Env → Num → Request → Exec (World W) Response
  route env now req =
      if req.method == "GET" && req.pathname == "/subscribe"
      then subscribe svc env req
      else if req.method == "GET" && req.pathname == "/success"
      then success svc env req
      else if req.method == "GET" && req.pathname == "/status"
      then status svc env now req
      else if req.method == "POST" && req.pathname == "/checkout"
      then checkout svc env req
      else if req.method == "OPTIONS"
          && (req.pathname == "/portal"
              || req.pathname == "/checkout"
              || req.pathname == "/delete-account")
      then pure (respond 204 no_body)
      else if req.method == "POST" && req.pathname == "/portal"
      then portal svc env req
      else if req.method == "POST" && req.pathname == "/delete-account"
      then delete_account svc env req
      else if req.method == "POST" && req.pathname == "/webhook"
      then webhook svc env req
      else if req.method == "POST" && req.pathname == "/__sweep"
      then manual_sweep env now req
      else if req.pathname == "/"
      then pure (respond 302 (location (String.◌++◌ env.site_url "/#fares")))
      else pure (respond 404 (text_body "Not found"))

  -- The request with its url parsed, or none where `new URL` throws, which is outside the `try`.
  pub fetch : Env → Num → Option Request → Exec (World W) Response
  fetch env now none = throw "TypeError: Invalid URL"
  fetch env now (some req) =
      attempt (route env now req)
        (λ _. pure (respond 500 (text_body "Something went wrong — please contact support.")))

  -- The cron trigger.
  pub scheduled : Env → Num → Exec (World W) Summary
  scheduled env now = sweep svc env no_overrides now

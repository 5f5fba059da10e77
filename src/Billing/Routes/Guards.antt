-- ===== src/Billing/Routes/Guards.antt =====
-- The routes of the billing worker (billing/src/index.ts, lines 696 to 755): a manual sweep wants
-- the secret.
use secure_collab_app.Prelude.{
  ◌≡◌, ◌≢◌, ◌↔◌, inl, inr, Option-cases, true, false, some, ◌==◌, eq_iff, arith,
}
use secure_collab_app.Prelude.Int.{Num}
use secure_collab_app.Exec.{ok}
use secure_collab_app.Billing.Services.{Env, Services, World}
use secure_collab_app.Billing.Sweep.{settings, text_or_empty}
use secure_collab_app.Billing.Http.{Request, respond, text_body, query_get}
use secure_collab_app.Billing.Routes.{manual_overrides, bearer, manual_sweep, route, fetch}

-- The settings of a manual sweep apply deletions exactly if the request itself asks for it.
pub manual_apply_iff :
    (env : Env) (req : Request)
    → ((settings env (manual_overrides req)).apply_deletes ≡ true)
      ↔ (query_get "delete_mode" req.query ≡ some "apply")
unfolding settings manual_overrides
manual_apply_iff env req = elim (Option-cases (query_get "delete_mode" req.query)) [
  | inl e ↦ rw e (ground (arith, eq_iff "report" "apply"))
  | inr (m, e) ↦ rw e (ground (arith, eq_iff m "apply"))
]

module _ {W : Type 0} (svc : Services W) (env : Env) (now : Num) (req : Request) (w : World W) where
  -- A manual sweep without the worker's secret is answered with status 403, and no request is made.
  manual_sweep-forbidden :
      (text_or_empty req.authorization ≢ bearer env)
      → req.method ≡ "POST"
      → req.pathname ≡ "/__sweep"
      → fetch svc env now (some req) w ≡ (ok (respond 403 (text_body "Forbidden")), w)
  unfolding fetch route manual_sweep
  manual_sweep-forbidden wrong post path =
      let refused : (text_or_empty req.authorization == bearer env) ≡ false =
        ground (arith, eq_iff (text_or_empty req.authorization) (bearer env)) in
      simp (post, path, refused)

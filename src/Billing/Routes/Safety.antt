-- ===== src/Billing/Routes/Safety.antt =====
-- Which requests to the billing worker can change an account (billing/src/index.ts, lines 699 to 750).
use secure_collab_app.Prelude.{
  ◌≡◌, Bool, false, ◌&&◌, ◌||◌, some, ◌==◌, if◌then◌else◌, Bool-cases, inl, inr, arith,
}
use secure_collab_app.Prelude.Int.{Num}
use secure_collab_app.Exec.{Exec}
use secure_collab_app.Billing.Services.{Env, Services, World}
use secure_collab_app.Billing.Http.{Request, Response, respond, no_body, text_body}
use secure_collab_app.Billing.Sweep.{text_or_empty}
use secure_collab_app.Billing.Routes.{bearer, manual_sweep, route, fetch}
use secure_collab_app.Billing.Routes.Unlocks.{
  Unlocked, Unlocks, Unlocks-pure, Unlocks-attempt, Unlocks-if,
}
use secure_collab_app.Billing.Routes.Handlers.{
  subscribe-Unlocks, success-Unlocks, status-Unlocks, checkout-Unlocks, portal-Unlocks,
}

-- A deletion of the own account, a webhook, or a manual sweep with the worker's secret.
abbrev pub is_privileged : Env → Request → Bool
is_privileged env req =
    req.method == "POST"
    && (req.pathname == "/delete-account"
        || req.pathname == "/webhook"
        || (req.pathname == "/__sweep" && text_or_empty req.authorization == bearer env))

module _ {W : Type 0} (svc : Services W) (env : Env) (now : Num) where
  Unlocks-skip :
      (b : Bool) (m n : Exec (World W) Response)
      → b ≡ false
      → Unlocks n
      → Unlocks (if b then m else n)
  Unlocks-skip b m n e k = rw e k

  refused-Unlocks :
      (req : Request)
      → (text_or_empty req.authorization == bearer env) ≡ false
      → Unlocks (manual_sweep svc env now req)
  unfolding manual_sweep
  refused-Unlocks req e = rw e (Unlocks-pure (respond 403 (text_body "Forbidden")))

  sweep-Unlocks :
      (req : Request) (n : Exec (World W) Response)
      → is_privileged env req ≡ false
      → Unlocks n
      → Unlocks (
          if req.method == "POST" && req.pathname == "/__sweep"
          then manual_sweep svc env now req
          else n)
  sweep-Unlocks req n e k = elim (Bool-cases (req.method == "POST" && req.pathname == "/__sweep")) [
    | inl f ↦ rw f (refused-Unlocks req (ground (arith, e, f)))
    | inr f ↦ rw f k
  ]

  route-Unlocks : (req : Request) → is_privileged env req ≡ false → Unlocks (route svc env now req)
  unfolding route
  route-Unlocks req e =
      Unlocks-if (req.method == "GET" && req.pathname == "/subscribe") _ _
        (subscribe-Unlocks svc env req)
        (Unlocks-if (req.method == "GET" && req.pathname == "/success") _ _
          (success-Unlocks svc env req)
          (Unlocks-if (req.method == "GET" && req.pathname == "/status") _ _
            (status-Unlocks svc env now req)
            (Unlocks-if (req.method == "POST" && req.pathname == "/checkout") _ _
              (checkout-Unlocks svc env req)
              (Unlocks-if
                (req.method == "OPTIONS"
                  && (req.pathname == "/portal"
                      || req.pathname == "/checkout"
                      || req.pathname == "/delete-account"))
                _ _ (Unlocks-pure (respond 204 no_body))
                (Unlocks-if (req.method == "POST" && req.pathname == "/portal") _ _
                  (portal-Unlocks svc env req)
                  (Unlocks-skip (req.method == "POST" && req.pathname == "/delete-account") _ _
                    (ground (arith, e))
                    (Unlocks-skip (req.method == "POST" && req.pathname == "/webhook") _ _
                      (ground (arith, e))
                      (sweep-Unlocks req _ e (
                        Unlocks-if (req.pathname == "/") _ _ (Unlocks-pure _)
                          (Unlocks-pure _))))))))))

  -- Whether it is answered or throws, a request that is no deletion of the own account, no webhook and
  -- no manual sweep with the worker's secret sends nothing that changes an account but unlocks.
  pub fetch-Unlocks :
      (req : Request) (w : World W)
      → is_privileged env req ≡ false
      → Unlocked w.sent (fetch svc env now (some req) w).1.sent
  unfolding fetch
  fetch-Unlocks req w e =
      (Unlocks-attempt (route svc env now req) _ (route-Unlocks req e) (λ x. Unlocks-pure _)).at w

-- ===== src/Billing/Standing.antt =====
-- The public reads of the billing worker (billing/src/index.ts, lines 277 to 283 and 306 to 361):
-- the entry to Checkout, the page after it, and the coarse standing of an account.
pub mod Trial
use secure_collab_app.Prelude.{
  ℕ, ◌+◌, ◌-◌, ◌/◌, ◌*◌, Bool, true, false, ◌&&◌, ◌||◌, String, Option, none, some, List, [], ◌∷◌,
  ◌==◌, if◌then◌else◌, is_empty, trim,
}
use secure_collab_app.Prelude.Int.{
  Num, nan, int, ℤ, pos, negsuc, pos_part, neg_part, sub_ℕ, ◌+ℤ◌, scale, parse_int,
}
use secure_collab_app.Exec.{Result, ok, err, Exec, pure, throw, attempt, ◌>>=◌, ◌>>◌}
use secure_collab_app.Billing.Services.{
  Env, MasUser, PaymentStatus, paid, no_payment_required, unpaid, Services, World,
}
use secure_collab_app.Billing.Mas.{mas_admin_token, mas_get_user, mas_set_lock_by_id}
use secure_collab_app.Billing.Stripe.{call, active_subscription_for}
use secure_collab_app.Billing.Sweep.{day_ms, text_or_empty, or_else}
use secure_collab_app.Billing.Http.{
  Request, Response, respond, text_body, location, success_page, standing_body, Standing, unknown,
  locked, active, trial, query_get,
}

abbrev negate_ℤ : ℤ → ℤ
negate_ℤ a = sub_ℕ (neg_part a) (pos_part a)

-- `Math.max(0, Math.ceil(trialDays - (now - created) / 86_400_000))`
unfoldable pub days_left : Num → Num → Num → Num
days_left (int days) (int created) (int now) =
    int (pos ((pos_part (scale day_ms days +ℤ created +ℤ negate_ℤ now) + (day_ms - 1)) / day_ms))
days_left _ _ _ = nan

abbrev pub query_username : Request → String
query_username req = trim (text_or_empty (query_get "username" req.query))

abbrev pub stands : Standing → Response
stands s = respond 200 (standing_body s)

module _ {W : Type 0} (svc : Services W) where
  unfoldable pub subscribe : Env → Request → Exec (World W) Response
  subscribe env req =
      if is_empty (query_username req) then pure (respond 302 (location env.app_url)) else do
        url ← call svc (svc.create_checkout (query_username req))
        elim url [ none ↦ throw "TypeError" | some u ↦ pure (respond 303 (location u)) ]

  -- The unlock after a payment. A user that is not found or not locked is left alone.
  unfoldable pub unlock_paid : String → Exec (World W) (Unit {0})
  unlock_paid username = do
    tok ← mas_admin_token svc
    user ← mas_get_user svc tok username
    elim user [
      | none ↦ pure tt
      | some u ↦ if u.locked_at then mas_set_lock_by_id svc tok u.id false else pure tt
    ]

  abbrev pub settled : PaymentStatus → Bool
  settled paid = true
  settled no_payment_required = true
  settled unpaid = false

  unfoldable pub success : Env → Request → Exec (World W) Response
  unfolding unlock_paid
  success env req =
      if is_empty (text_or_empty (query_get "session_id" req.query))
      then pure (respond 400 (text_body "Missing session"))
      else do
        session ←
            call svc (svc.retrieve_checkout (text_or_empty (query_get "session_id" req.query)))
        let username = or_else session.client_reference_id "your account"
        elim (settled session.payment_status) [
          | false ↦ pure (respond 402 (text_body "Payment not completed"))
          | true ↦ do
            attempt (unlock_paid username) (λ _. pure tt)
            pure (respond 200 (success_page username))
        ]

  -- The `try` of `status`.
  unfoldable pub standing_of : Env → Num → String → Exec (World W) Standing
  standing_of env now username = do
    tok ← mas_admin_token svc
    user ← mas_get_user svc tok username
    elim user [
      | none ↦ pure unknown
      | some u ↦ if u.locked_at then pure locked else do
        subscribed ← active_subscription_for svc username
        pure (
            if subscribed
            then active
            else trial (days_left (parse_int (text_or_empty env.trial_days)) u.created_at now))
    ]

  unfoldable pub status : Env → Num → Request → Exec (World W) Response
  unfolding standing_of
  status env now req = if is_empty (query_username req) then pure (stands unknown) else do
    standing ← attempt (standing_of env now (query_username req)) (λ _. pure unknown)
    pure (stands standing)

-- ===== src/Billing/Account.antt =====
-- What a caller does with the own account (billing/src/index.ts, lines 285 to 304 and 420 to 512):
-- start a checkout, manage the subscription, delete the account.
pub mod Order
use secure_collab_app.Prelude.{
  ℕ, zero, ◌+◌, Bool, true, false, ◌||◌, String, Option, none, some, List, [], ◌∷◌, if◌then◌else◌,
  remove_all,
}
use secure_collab_app.Exec.{Result, ok, err, Exec, pure, lift, attempt, ◌>>=◌, ◌>>◌}
use secure_collab_app.Billing.Services.{
  Env, MasUser, SubscriptionStatus, active, trialing, canceled, incomplete_expired, other_status,
  Subscription, Services, World, send, cancel,
}
use secure_collab_app.Billing.Mas.{
  mas_admin_token, mas_get_user, mas_unlink_upstream, mas_deactivate_by_id,
}
use secure_collab_app.Billing.Stripe.{call}
use secure_collab_app.Billing.Http.{
  Request, Response, respond, error_body, url_body, deactivate_failed, deleted_body, known,
  turned_away, authenticate,
}

-- `status === 'canceled' || status === 'incomplete_expired'`
abbrev pub over : SubscriptionStatus → Bool
over active = false
over trialing = false
over canceled = true
over incomplete_expired = true
over other_status = false

abbrev pub first_customer : List Subscription → Option String
first_customer [] = none
first_customer (sub ∷ subs) = sub.customer

-- What the two `try` blocks of `deleteAccount` leave.
pub data Erasure : Type 0 where
  no_account : Erasure
  erased : (unlinked : ℕ) → Erasure

module _ {W : Type 0} (svc : Services W) where
  unfoldable pub checkout : Env → Request → Exec (World W) Response
  checkout env req = do
    who ← authenticate svc env req
    elim who [
      | turned_away r ↦ pure r
      | known username ↦ do
        url ← call svc (svc.create_checkout username)
        elim url [
          | none ↦ pure (respond 502 (error_body "checkout_unavailable"))
          | some u ↦ pure (respond 200 (url_body u))
        ]
    ]

  unfoldable pub portal : Env → Request → Exec (World W) Response
  portal env req = do
    who ← authenticate svc env req
    elim who [
      | turned_away r ↦ pure r
      | known username ↦ do
        found ← call svc (svc.search_any (remove_all 39 username) 1)
        elim (first_customer found) [
          | none ↦ pure (respond 404 (error_body "no_subscription"))
          | some customer ↦ do
            url ← call svc (svc.create_portal customer)
            pure (respond 200 (url_body url))
        ]
    ]

  -- The loop that cancels what is not over yet.
  cancel_each : List Subscription → ℕ → Exec (World W) ℕ
  cancel_each [] cancelled = pure cancelled
  cancel_each (sub ∷ subs) cancelled = elim (over sub.status) [
    | true ↦ cancel_each subs cancelled
    | false ↦ do
      λ w. send (cancel sub.id) (svc.cancel_subscription sub.id) w
      cancel_each subs (cancelled + 1)
  ]

  unfoldable pub cancel_all : String → Exec (World W) ℕ
  unfolding cancel_each
  cancel_all username = do
    found ← call svc (svc.search_any (remove_all 39 username) 100)
    cancel_each found 0

  unfoldable pub erase : String → Exec (World W) Erasure
  erase username = do
    tok ← mas_admin_token svc
    user ← mas_get_user svc tok username
    elim user [
      | none ↦ pure no_account
      | some u ↦ do
        unlinked ← mas_unlink_upstream svc tok u.id
        if u.deactivated_at
            then pure (erased unlinked)
            else do mas_deactivate_by_id svc tok u.id; pure (erased unlinked)
    ]

  abbrev answer_erasure : ℕ → Erasure → Response
  answer_erasure cancelled no_account = respond 404 (error_body "no_account")
  answer_erasure cancelled (erased unlinked) = respond 200 (deleted_body cancelled unlinked)

  -- The rest of `deleteAccount` after the subscriptions: `none` is a cancel that threw.
  after_cancel : String → Option ℕ → Exec (World W) Response
  after_cancel username none = pure (respond 502 (error_body "cancel_failed"))
  after_cancel username (some cancelled) =
      attempt (do e ← erase username; pure (answer_erasure cancelled e))
        (λ _. pure (respond 502 (deactivate_failed cancelled)))

  unfoldable pub delete_account : Env → Request → Exec (World W) Response
  unfolding after_cancel
  delete_account env req = do
    who ← authenticate svc env req
    elim who [
      | turned_away r ↦ pure r
      | known username ↦ do
        cancelled ← attempt (do n ← cancel_all username; pure (some n)) (λ _. pure none)
        after_cancel username cancelled
    ]

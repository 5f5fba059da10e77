-- ===== src/Billing/Webhook.antt =====
-- The Stripe webhook of the billing worker (billing/src/index.ts, lines 514 to 556).
pub mod Decision
use secure_collab_app.Prelude.{
  Bool, true, false, not, ◌&&◌, ◌||◌, String, Option, none, some, if◌then◌else◌, is_empty,
}
use secure_collab_app.Exec.{Result, ok, err, Exec, pure, attempt, ◌>>=◌, ◌>>◌}
use secure_collab_app.Billing.Services.{
  Env, MasUser, EventType, subscription_deleted, subscription_updated, subscription_created,
  other_event, StripeEvent, Services, World,
}
use secure_collab_app.Billing.Mas.{mas_admin_token, mas_get_user, mas_set_lock_by_id}
use secure_collab_app.Billing.Stripe.{call, in_good_standing}
use secure_collab_app.Billing.Sweep.{text_or_empty}
use secure_collab_app.Billing.Http.{Request, Response, respond, text_body}

abbrev pub concerns_subscription : EventType → Bool
concerns_subscription subscription_deleted = true
concerns_subscription subscription_updated = true
concerns_subscription subscription_created = true
concerns_subscription other_event = false

abbrev is_deleted : EventType → Bool
is_deleted subscription_deleted = true
is_deleted subscription_updated = false
is_deleted subscription_created = false
is_deleted other_event = false

unfoldable pub should_lock : StripeEvent → Bool
should_lock event = is_deleted event.type || not (in_good_standing event.subscription.status)

-- `shouldLock !== !!locked_at`
abbrev pub differs : Bool → Bool → Bool
differs true b = not b
differs false b = b

module _ {W : Type 0} (svc : Services W) where
  -- The account of `username` is locked or unlocked, if it is there and not so already.
  unfoldable pub set_standing : String → Bool → Exec (World W) (Unit {0})
  set_standing username lock = do
    tok ← mas_admin_token svc
    user ← mas_get_user svc tok username
    elim user [
      | none ↦ pure tt
      | some u ↦ if differs lock u.locked_at then mas_set_lock_by_id svc tok u.id lock else pure tt
    ]

  unfoldable pub on_event : StripeEvent → Exec (World W) (Unit {0})
  on_event event =
      let username = text_or_empty event.subscription.tidework_username in
      if concerns_subscription event.type && not (is_empty username)
      then set_standing username (should_lock event)
      else pure tt

  -- The `try` round `constructEventAsync`: `none` is a throw.
  read_event : String → String → Exec (World W) (Option StripeEvent)
  read_event text signature =
      attempt (do e ← call svc (svc.construct_event text signature); pure (some e)) (λ _. pure none)

  pub webhook : Env → Request → Exec (World W) Response
  unfolding on_event read_event
  webhook env req = elim req.stripe_signature [
    | none ↦ pure (respond 400 (text_body "No signature"))
    | some signature ↦
        if is_empty signature then pure (respond 400 (text_body "No signature")) else do
          event ← read_event req.text signature
          elim event [
            | none ↦ pure (respond 400 (text_body "Bad signature"))
            | some e ↦ do on_event e; pure (respond 200 (text_body "ok"))
          ]
  ]

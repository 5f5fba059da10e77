-- ===== src/Billing/Webhook/Decision.antt =====
-- What a subscription event makes the webhook send (billing/src/index.ts, lines 514 to 556).
use secure_collab_app.Prelude.{
  ◌≡◌, ◌≢◌, ◌↔◌, ◌⊎◌, Bool, true, false, String, some, List, [], ◌∷◌, arith, if◌then◌else◌,
  is_empty,
}
use secure_collab_app.Exec.{ok, pure}
use secure_collab_app.Billing.Services.{
  MasUser, active, trialing, subscription_deleted, StripeEvent, Services, World, Command, set_lock,
}
use secure_collab_app.Billing.Trace.{Outcome, Issues, Issues-pure, sent-Issues_nil}
use secure_collab_app.Billing.Mas.{mas_admin_token, mas_get_user, mas_set_lock_by_id}
use secure_collab_app.Billing.Mas.Sends.{
  Any, mas_admin_token-Issues, mas_get_user-Issues, mas_set_lock_by_id-Issues,
}
use secure_collab_app.Billing.Webhook.{
  concerns_subscription, should_lock, differs, set_standing, on_event,
}

-- The event says that its subscription is gone, or neither active nor on trial.
abbrev pub IsLapsed : StripeEvent → Type 0
IsLapsed event =
    (event.type ≡ subscription_deleted)
    ⊎ ((event.subscription.status ≢ active) × (event.subscription.status ≢ trialing))

should_lock_iff : (event : StripeEvent) → (should_lock event ≡ true) ↔ IsLapsed event
unfolding should_lock
should_lock_iff event = (λ h. ground arith, λ h. ground arith)

module _ {W : Type 0} (svc : Services W) where
  -- The account of `name` is read.
  pub record Found (name : String) (w : World W) : Type 0 where
    pub tok : String
    pub user : MasUser
    pub w1 : World W
    pub w2 : World W
    pub token_read : mas_admin_token svc w ≡ (ok tok, w1)
    pub user_read : mas_get_user svc tok name w1 ≡ (ok (some user), w2)

  abbrev pub correction : MasUser → Bool → List Command
  correction u lock = if differs lock u.locked_at then set_lock u.id lock ∷ [] else []

  correct-Issues :
      (tok id : String) (lock different : Bool)
      → Issues {W = W} {A = Unit {0}}
          (if different then set_lock id lock ∷ [] else [])
          Any
          (if different then mas_set_lock_by_id svc tok id lock else pure tt)
  correct-Issues tok id lock true = mas_set_lock_by_id-Issues svc tok id lock
  correct-Issues tok id lock false = Issues-pure tt tt

  set_standing-Outcome :
      (name : String) (lock : Bool) (w : World W) (f : Found name w)
      → Outcome w.sent
          (correction f.user lock)
          Any
          (set_standing svc name lock w).0
          (set_standing svc name lock w).1.sent
  unfolding set_standing
  set_standing-Outcome name lock w f =
      rw
        (
          f.token_read,
          f.user_read,
          ← sent-Issues_nil _ w f.w1 f.tok (mas_admin_token-Issues svc) f.token_read,
          ← sent-Issues_nil _ f.w1 f.w2 (some f.user) (mas_get_user-Issues svc f.tok name)
              f.user_read,
        )
        ((correct-Issues f.tok f.user.id lock (differs lock f.user.locked_at)).at f.w2)

  -- For an event about a subscription of a named account that is read, the handler wants the account
  -- locked if and only if the event ends this subscription or finds it neither active nor on trial,
  -- and sends one change of the lock if the account's lock differs from that, else nothing. Other
  -- subscriptions of the account are not looked at.
  pub on_event-Outcome :
      (event : StripeEvent) (name : String) (w : World W) (f : Found name w)
      → concerns_subscription event.type ≡ true
      → event.subscription.tidework_username ≡ some name
      → is_empty name ≡ false
      → ((should_lock event ≡ true) ↔ IsLapsed event)
        × Outcome w.sent
            (correction f.user (should_lock event))
            Any
            (on_event svc event w).0
            (on_event svc event w).1.sent
  unfolding on_event should_lock
  on_event-Outcome event name w f relevant named given = (
    should_lock_iff event,
    rw (relevant, named, given) (set_standing-Outcome name (should_lock event) w f),
  )

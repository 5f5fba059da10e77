-- ===== src/Billing/Routes/Handlers.antt =====
-- What the routes for anyone send (billing/src/index.ts, lines 277 to 361 and 420 to 453).
use secure_collab_app.Prelude.{
  refl, is_nil, Bool, true, false, not, String, Option, none, some, [], ◌∷◌, if◌then◌else◌,
  is_empty, remove_all,
}
use secure_collab_app.Prelude.Int.{Num, parse_int}
use secure_collab_app.Exec.{pure, throw, attempt, ◌>>=◌, ◌>>◌}
use secure_collab_app.Billing.Services.{Env, MasUser, Services, World, set_lock}
use secure_collab_app.Billing.Mas.{mas_admin_token, mas_get_user, mas_set_lock_by_id}
use secure_collab_app.Billing.Mas.Sends.{
  mas_admin_token-Issues, mas_get_user-Issues, mas_set_lock_by_id-Issues,
}
use secure_collab_app.Billing.Stripe.{call, active_subscription_for}
use secure_collab_app.Billing.Http.{
  query_get, success_page, by_pinned, by_body, verify, location, Standing, active, locked, unknown,
  trial, error_body, url_body, JsonBody, unreadable, json_null, token_body, pinned, Request,
  Response, Caller, known, turned_away, respond, text_body, authenticate,
}
use secure_collab_app.Billing.Standing.{
  stands, query_username, days_left, settled, subscribe, success, status, unlock_paid, standing_of,
}
use secure_collab_app.Billing.Account.{first_customer, checkout, portal}
use secure_collab_app.Billing.Sweep.{text_or_empty, or_else}
use secure_collab_app.Billing.Routes.Unlocks.{
  Unlocked, Unlocks, Unlocks-pure, Unlocks-throw, Unlocks-Issues, Unlocks-call, Unlocks-bind,
  Unlocks-attempt, Unlocks-if, Unlocked-refl,
}

module _ {W : Type 0} (svc : Services W) where
  token-Unlocks : Unlocks (mas_admin_token svc)
  token-Unlocks = Unlocks-Issues [] _ tt (mas_admin_token-Issues svc)

  user-Unlocks : (tok name : String) → Unlocks (mas_get_user svc tok name)
  user-Unlocks tok name = Unlocks-Issues [] _ tt (mas_get_user-Issues svc tok name)

  unlock-Unlocks : (tok id : String) → Unlocks (mas_set_lock_by_id svc tok id false)
  unlock-Unlocks tok id =
      Unlocks-Issues (set_lock id false ∷ []) _ (refl, tt)
        (mas_set_lock_by_id-Issues svc tok id false)

  subscribed-Unlocks : (username : String) → Unlocks (active_subscription_for svc username)
  unfolding active_subscription_for
  subscribed-Unlocks username =
      Unlocks-bind _ _ (Unlocks-call svc (svc.search_active (remove_all 39 username) 1))
        (λ found. Unlocks-pure (not (is_nil found)))

  pub subscribe-Unlocks : (env : Env) (req : Request) → Unlocks (subscribe svc env req)
  unfolding subscribe
  subscribe-Unlocks env req =
      Unlocks-if (is_empty (query_username req)) _ _
        (Unlocks-pure (respond 302 (location env.app_url)))
        (Unlocks-bind _ _ (Unlocks-call svc (svc.create_checkout (query_username req))) go)
    where
      go :
          (url : Option String)
          → Unlocks {W = W} {A = Response}
              (elim url [ none ↦ throw "TypeError" | some u ↦ pure (respond 303 (location u)) ])
      go none = Unlocks-throw "TypeError"
      go (some u) = Unlocks-pure (respond 303 (location u))

  unlock_paid-Unlocks : (username : String) → Unlocks (unlock_paid svc username)
  unfolding unlock_paid
  unlock_paid-Unlocks username =
      Unlocks-bind _ _ token-Unlocks (λ tok. Unlocks-bind _ _ (user-Unlocks tok username) (go tok))
    where
      go :
          (tok : String) (user : Option MasUser)
          → Unlocks {W = W} {A = Unit {0}} (elim user [
            | none ↦ pure tt
            | some u ↦ if u.locked_at then mas_set_lock_by_id svc tok u.id false else pure tt
          ])
      go tok none = Unlocks-pure tt
      go tok (some u) = Unlocks-if u.locked_at _ _ (unlock-Unlocks tok u.id) (Unlocks-pure tt)

  authenticate-Unlocks : (env : Env) (req : Request) → Unlocks (authenticate svc env req)
  unfolding authenticate verify
  authenticate-Unlocks env req = record { at = λ w. by_json w req.json }
    where
      by_pin : (w : World W) (o : Option String) → Unlocked w.sent (by_pinned svc o w).1.sent
      by_pin w none = Unlocked-refl w.sent
      by_pin w (some t) = Unlocked-refl w.sent

      by_json : (w : World W) (j : JsonBody) → Unlocked w.sent (by_body svc env j w).1.sent
      by_json w unreadable = Unlocked-refl w.sent
      by_json w json_null = Unlocked-refl w.sent
      by_json w (token_body token server) = by_pin w (pinned env token server)

  pub checkout-Unlocks : (env : Env) (req : Request) → Unlocks (checkout svc env req)
  unfolding checkout
  checkout-Unlocks env req = Unlocks-bind _ _ (authenticate-Unlocks env req) by_caller
    where
      by_url :
          (url : Option String)
          → Unlocks {W = W} {A = Response} (elim url [
            | none ↦ pure (respond 502 (error_body "checkout_unavailable"))
            | some u ↦ pure (respond 200 (url_body u))
          ])
      by_url none = Unlocks-pure (respond 502 (error_body "checkout_unavailable"))
      by_url (some u) = Unlocks-pure (respond 200 (url_body u))

      by_caller :
          (who : Caller)
          → Unlocks {W = W} {A = Response} (elim who [
            | turned_away r ↦ pure r
            | known username ↦ do
              url ← call svc (svc.create_checkout username)
              elim url [
                | none ↦ pure (respond 502 (error_body "checkout_unavailable"))
                | some u ↦ pure (respond 200 (url_body u))
              ]
          ])
      by_caller (turned_away r) = Unlocks-pure r
      by_caller (known username) =
          Unlocks-bind _ _ (Unlocks-call svc (svc.create_checkout username)) by_url

  pub portal-Unlocks : (env : Env) (req : Request) → Unlocks (portal svc env req)
  unfolding portal
  portal-Unlocks env req = Unlocks-bind _ _ (authenticate-Unlocks env req) by_caller
    where
      by_customer :
          (customer : Option String)
          → Unlocks {W = W} {A = Response} (elim customer [
            | none ↦ pure (respond 404 (error_body "no_subscription"))
            | some customer ↦ do
              url ← call svc (svc.create_portal customer)
              pure (respond 200 (url_body url))
          ])
      by_customer none = Unlocks-pure (respond 404 (error_body "no_subscription"))
      by_customer (some customer) =
          Unlocks-bind _ _ (Unlocks-call svc (svc.create_portal customer))
            (λ url. Unlocks-pure (respond 200 (url_body url)))

      by_caller :
          (who : Caller)
          → Unlocks {W = W} {A = Response} (elim who [
            | turned_away r ↦ pure r
            | known username ↦ do
              found ← call svc (svc.search_any (remove_all 39 username) 1)
              elim (first_customer found) [
                | none ↦ pure (respond 404 (error_body "no_subscription"))
                | some customer ↦ do
                  url ← call svc (svc.create_portal customer)
                  pure (respond 200 (url_body url))
              ]
          ])
      by_caller (turned_away r) = Unlocks-pure r
      by_caller (known username) =
          Unlocks-bind _ _ (Unlocks-call svc (svc.search_any (remove_all 39 username) 1))
            (λ found. by_customer (first_customer found))

  standing_of-Unlocks :
      (env : Env) (now : Num) (username : String) → Unlocks (standing_of svc env now username)
  unfolding standing_of
  standing_of-Unlocks env now username =
      Unlocks-bind _ _ token-Unlocks (λ tok. Unlocks-bind _ _ (user-Unlocks tok username) go)
    where
      told : MasUser → Bool → Standing
      told u subscribed =
          if subscribed
          then active
          else trial (days_left (parse_int (text_or_empty env.trial_days)) u.created_at now)

      go :
          (user : Option MasUser)
          → Unlocks {W = W} {A = Standing} (elim user [
            | none ↦ pure unknown
            | some u ↦ if u.locked_at then pure locked else do
              subscribed ← active_subscription_for svc username
              pure (
                  if subscribed
                  then active
                  else trial
                      (days_left (parse_int (text_or_empty env.trial_days)) u.created_at now))
          ])
      go none = Unlocks-pure unknown
      go (some u) = Unlocks-if u.locked_at _ _ (Unlocks-pure locked) (
          Unlocks-bind _ _ (subscribed-Unlocks username)
            (λ subscribed. Unlocks-pure (told u subscribed)))

  pub status-Unlocks : (env : Env) (now : Num) (req : Request) → Unlocks (status svc env now req)
  unfolding status
  status-Unlocks env now req =
      Unlocks-if (is_empty (query_username req)) _ _ (Unlocks-pure (stands unknown)) (
        Unlocks-bind _ _
          (Unlocks-attempt _ (λ _. pure unknown) (standing_of-Unlocks env now (query_username req))
            (λ e. Unlocks-pure unknown))
          (λ standing. Unlocks-pure (stands standing)))

  pub success-Unlocks : (env : Env) (req : Request) → Unlocks (success svc env req)
  unfolding success
  success-Unlocks env req =
      Unlocks-if (is_empty (text_or_empty (query_get "session_id" req.query))) _ _
        (Unlocks-pure (respond 400 (text_body "Missing session")))
        (Unlocks-bind _ _
          (Unlocks-call svc
            (svc.retrieve_checkout (text_or_empty (query_get "session_id" req.query))))
          (λ session.
            by_payment (or_else session.client_reference_id "your account")
              (settled svc session.payment_status)))
    where
      by_payment :
          (username : String) (is_settled : Bool)
          → Unlocks {W = W} {A = Response} (elim is_settled [
            | false ↦ pure (respond 402 (text_body "Payment not completed"))
            | true ↦ do
              attempt (unlock_paid svc username) (λ _. pure tt)
              pure (respond 200 (success_page username))
          ])
      by_payment username false = Unlocks-pure (respond 402 (text_body "Payment not completed"))
      by_payment username true =
          Unlocks-bind _ (λ _. pure (respond 200 (success_page username)))
            (Unlocks-attempt (unlock_paid svc username) (λ _. pure tt)
              (unlock_paid-Unlocks username) (λ e. Unlocks-pure tt))
            (λ done. Unlocks-pure (respond 200 (success_page username)))

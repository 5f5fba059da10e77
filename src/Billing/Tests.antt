-- ===== src/Billing/Tests.antt =====
-- The theorems about the billing worker (billing/src/index.ts) at concrete services: every call
-- answers, and nothing of the outside changes.
use secure_collab_app.Prelude.{
  ◌≡◌, refl, trim, split, split_first, strip_first, remove_all, ◌↔◌, Bool, true, false, String,
  none, some, List, [], ◌∷◌, ◌++◌, ◌==◌, if◌then◌else◌, All, Begins, arith,
}
use secure_collab_app.Prelude.Int.{Num, int, pos, parse_int}
use secure_collab_app.Exec.{ok, err}
use secure_collab_app.Billing.Services.{
  Env, MasUser, Subscription, active, subscription_deleted, StripeEvent, paid, body, Services,
  World, Command, set_lock, deactivate, cancel, unlink,
}
use secure_collab_app.Billing.Mas.{
  mas_admin_token, mas_get_user, mas_list_users, mas_set_lock_by_id, mas_deactivate_by_id,
}
use secure_collab_app.Billing.Stripe.{subscription_index, empty_index}
use secure_collab_app.Billing.Stripe.Index.{Complete, subscription_index-Complete}
use secure_collab_app.Billing.Sweep.{
  settings, no_overrides, days, past, overdue, deletable, deletable_users, lock_overdue,
  delete_unpaid, act_on, read_and_act, sweep,
}
use secure_collab_app.Billing.Sweep.Plan.{Reads, sweep-Outcome, Counted, due_users, gone_users}
use secure_collab_app.Billing.Trace.{Outcome}
use secure_collab_app.Billing.Mas.Sends.{Any}
use secure_collab_app.Billing.Http.{
  Request, token_body, respond, error_body, authenticate, localpart,
}
use secure_collab_app.Billing.Account.{cancel_all, delete_account}
use secure_collab_app.Billing.Account.Order.{
  Account, Known, Ends, delete_account-cancel_first, delete_account-Ends,
}
use secure_collab_app.Billing.Webhook.{should_lock, on_event}
use secure_collab_app.Billing.Webhook.Decision.{Found, IsLapsed, on_event-Outcome}
use secure_collab_app.Billing.Standing.{days_left}
use secure_collab_app.Billing.Standing.Trial.{days_left-overdue}
use secure_collab_app.Billing.Routes.{fetch}
use secure_collab_app.Billing.Routes.Unlocks.{Unlocked}
use secure_collab_app.Billing.Routes.Safety.{fetch-Unlocks}
use secure_collab_app.Billing.Sweep.Safety.{Justified, sweep-Justified}

abbrev env : Env
env = record {
  trial_days = some "14";
  grace_days = some "3";
  delete_after_days = some "30";
  delete_mode = some "apply";
  exempt_usernames = "root, ops";
  app_url = "https://app";
  site_url = "https://site";
  mas_billing_client_secret = "s3cret";
  matrix_server_name = "tidework.io";
}

abbrev user : String → Bool → MasUser
user name locked = record {
  id = name;
  username = name;
  created_at = int (pos 0);
  locked_at = locked;
  deactivated_at = false;
  admin = false;
}

abbrev subscription : Subscription
subscription = record {
  id = "sub_1";
  status = active;
  tidework_username = some "dan";
  customer = some "cus_1";
}

abbrev still : {A : Type 0} → A → Unit {0} → A × Unit {0}
still a w = (a, w)

-- Three users on one page, one subscription; cancelling fails unless `works`.
abbrev services : Bool → Services (Unit {0})
services works = record {
  post_token = still (body "tok");
  get_user_by_name = λ tok name. still (body (user name false));
  get_users_page = λ tok after. still (
      body
        (if after == "" then user "bob" false ∷ user "cat" true ∷ user "dan" false ∷ [] else []));
  post_lock = λ tok id lock. still (body tt);
  get_links = λ tok id. still (body ("link" ∷ []));
  delete_link = λ tok id. still (body tt);
  post_deactivate = λ tok id. still (body tt);
  get_userinfo = λ token. still (body (some "@dan:tidework.io"));
  search_active = λ name limit. still (ok (subscription ∷ []));
  search_any = λ name limit. still (ok (subscription ∷ []));
  list_subscriptions = λ after. still (ok (record { page = subscription ∷ []; has_more = false }));
  cancel_subscription = λ id. still (if works then ok tt else err "network");
  create_checkout = λ name. still (ok (some "https://pay"));
  retrieve_checkout =
      λ id. still (ok (record { payment_status = paid; client_reference_id = some "dan" }));
  create_portal = λ customer. still (ok "https://portal");
  construct_event = λ text signature. still (err "bad");
}

abbrev start : World (Unit {0})
start = record { outside = tt; sent = [] }

-- A hundred days after the accounts were made.
abbrev later : Num
later = int (pos 8640000000)

-- What the runs below open.
run : Unit {0}
unfolding sweep read_and_act act_on delete_unpaid lock_overdue deletable_users deletable overdue
    past settings days parse_int trim split mas_admin_token mas_list_users mas_set_lock_by_id
    mas_deactivate_by_id subscription_index
run = tt

reads : Reads (services true) env no_overrides later start
unfolding mas_admin_token mas_list_users subscription_index
reads = record {
  tok = "tok";
  users = user "bob" false ∷ user "cat" true ∷ user "dan" false ∷ [];
  ix = record { paying = "dan" ∷ []; ever_paid = "dan" ∷ []; complete = true };
  w1 = start;
  w2 = start;
  w3 = start;
  token_read = refl;
  users_read = refl;
  index_read = refl;
}

-- The sweep locks bob, deletes cat, and leaves dan, who pays.
sweep_runs :
    (sweep (services true) env no_overrides later start).1.sent
    ≡ set_lock "bob" true ∷ deactivate "cat" ∷ []
unfolding run
sweep_runs = refl

sweep-Outcome_example :
    Outcome []
      (set_lock "bob" true ∷ deactivate "cat" ∷ [])
      (Counted
        (settings env no_overrides)
        3
        (due_users env no_overrides later reads.users)
        (gone_users env no_overrides later reads.users)
        reads.ix)
      (sweep (services true) env no_overrides later start).0
      (sweep (services true) env no_overrides later start).1.sent
unfolding run reads
sweep-Outcome_example = sweep-Outcome (services true) env no_overrides later start reads

sweep-Justified_example :
    (new : List Command) × ((sweep (services true) env no_overrides later start).1.sent ≡ [] ++ new)
    × All (Justified (settings env no_overrides) later reads.users reads.ix) new
sweep-Justified_example = sweep-Justified (services true) env no_overrides later start reads

subscription_index-Complete_example :
    Complete
      (services true)
      (subscription ∷ [])
      empty_index
      (subscription_index (services true) start).0
subscription_index-Complete_example =
    subscription_index-Complete (services true) ((subscription ∷ []) ∷ []) start (λ w. refl)
      (omega arith)

abbrev request : Request
request = record {
  method = "POST";
  pathname = "/__sweep";
  query = [];
  authorization = none;
  stripe_signature = none;
  json = token_body (some "openid") (some "tidework.io");
  text = "";
}

known_caller : (works : Bool) → Known (services works) env request start
unfolding authenticate localpart split_first strip_first
known_caller works = record {
  name = "dan";
  found = subscription ∷ [];
  w0 = start;
  caller_read = refl;
  search_read = refl;
}

abbrev cancelled : World (Unit {0})
cancelled = record { outside = tt; sent = cancel "sub_1" ∷ [] }

dan : Account (services true) "dan" cancelled
unfolding mas_admin_token mas_get_user
dan = record {
  tok = "tok";
  user = user "dan" false;
  links = "link" ∷ [];
  w1 = cancelled;
  w2 = cancelled;
  token_read = refl;
  user_read = refl;
  links_read = refl;
}

delete_account-cancel_first_example :
    (delete_account (services false) env request start
      ≡ (ok (respond 502 (error_body "cancel_failed")), cancelled))
    × ((done : List Command) × (cancelled.sent ≡ [] ++ done) × Begins done (cancel "sub_1" ∷ []))
unfolding known_caller cancel_all remove_all
delete_account-cancel_first_example =
    delete_account-cancel_first (services false) env request start cancelled (known_caller false)
      "network" refl

delete_account-Ends_example :
    Ends
      (services true)
      []
      (cancel "sub_1" ∷ [])
      (unlink "link" ∷ deactivate "dan" ∷ [])
      (delete_account (services true) env request start).0
      (delete_account (services true) env request start).1.sent
unfolding known_caller dan cancel_all remove_all
delete_account-Ends_example =
    delete_account-Ends (services true) env request start cancelled (known_caller true) 1 refl dan

abbrev lapse : StripeEvent
lapse = record { type = subscription_deleted; subscription = subscription }

found_dan : Found (services true) "dan" start
unfolding mas_admin_token mas_get_user
found_dan = record {
  tok = "tok";
  user = user "dan" false;
  w1 = start;
  w2 = start;
  token_read = refl;
  user_read = refl;
}

-- Dan is locked although the search would find an active subscription.
on_event-Outcome_example :
    ((should_lock lapse ≡ true) ↔ IsLapsed lapse)
    × Outcome []
        (set_lock "dan" true ∷ [])
        Any
        (on_event (services true) lapse start).0
        (on_event (services true) lapse start).1.sent
unfolding found_dan should_lock
on_event-Outcome_example =
    on_event-Outcome (services true) lapse "dan" start found_dan refl refl refl

days_left-overdue_example :
    overdue (settings env no_overrides) (int (pos 86400000)) (user "bob" false) ≡ false
unfolding days_left parse_int
days_left-overdue_example =
    days_left-overdue env (int (pos 86400000)) (user "bob" false) 14 12 refl refl

-- A paid checkout of an account that is locked.
abbrev paid_request : Request
paid_request = record request {
  method = "GET";
  pathname = "/success";
  query = ("session_id", "cs_1") ∷ [];
}

abbrev locked_services : Services (Unit {0})
locked_services = record (services true) {
  get_user_by_name = λ tok name. still (body (user name true));
}

fetch-Unlocks_example :
    Unlocked [] (fetch locked_services env later (some paid_request) start).1.sent
fetch-Unlocks_example = fetch-Unlocks locked_services env later paid_request start refl

-- ===== src/Billing/Services.antt =====
-- What the billing worker (billing/src/index.ts) is configured with and what it calls: the admin
-- API of MAS, Stripe, and the homeserver. Each call is a parameter that may answer anything and
-- may change the outside in any way. `sent` records the requests that change accounts or
-- subscriptions, oldest first.
use secure_collab_app.Prelude.{ℕ, Bool, String, Option, List, [], ◌∷◌, ◌++◌}
use secure_collab_app.Prelude.Int.{Num}
use secure_collab_app.Exec.{Result}

pub record Env : Type 0 where
  pub trial_days : Option String
  pub grace_days : Option String
  pub delete_after_days : Option String
  pub delete_mode : Option String
  pub exempt_usernames : String
  pub app_url : String
  pub site_url : String
  pub mas_billing_client_secret : String
  pub matrix_server_name : String

-- `created_at` as `Date.parse` reads it, in milliseconds. Of the dates that may be null only
-- whether they are there.
pub record MasUser : Type 0 where
  pub id : String
  pub username : String
  pub created_at : Num
  pub locked_at : Bool
  pub deactivated_at : Bool
  pub admin : Bool

pub data SubscriptionStatus : Type 0 where
  active trialing canceled incomplete_expired other_status : SubscriptionStatus

pub record Subscription : Type 0 where
  pub id : String
  pub status : SubscriptionStatus
  pub tidework_username : Option String
  pub customer : Option String

pub record SubscriptionPage : Type 0 where
  pub page : List Subscription
  pub has_more : Bool

pub data PaymentStatus : Type 0 where
  paid no_payment_required unpaid : PaymentStatus

pub record CheckoutSession : Type 0 where
  pub payment_status : PaymentStatus
  pub client_reference_id : Option String

pub data EventType : Type 0 where
  subscription_deleted subscription_updated subscription_created other_event : EventType

pub record StripeEvent : Type 0 where
  pub type : EventType
  pub subscription : Subscription

-- The answer to a `fetch`: a response with `ok` and its JSON, another status, or a throw.
pub data Reply (A : Type 0) : Type 0 where
  body : A → Reply A
  refused : ℕ → Reply A
  failed : String → Reply A

pub record Services (W : Type 0) : Type 0 where
  pub post_token : W → Reply String × W
  pub get_user_by_name : String → String → W → Reply MasUser × W
  pub get_users_page : String → String → W → Reply (List MasUser) × W
  pub post_lock : String → String → Bool → W → Reply (Unit {0}) × W
  pub get_links : String → String → W → Reply (List String) × W
  pub delete_link : String → String → W → Reply (Unit {0}) × W
  pub post_deactivate : String → String → W → Reply (Unit {0}) × W
  pub get_userinfo : String → W → Reply (Option String) × W
  pub search_active : String → ℕ → W → Result (List Subscription) × W
  pub search_any : String → ℕ → W → Result (List Subscription) × W
  pub list_subscriptions : Option String → W → Result SubscriptionPage × W
  pub cancel_subscription : String → W → Result (Unit {0}) × W
  pub create_checkout : String → W → Result (Option String) × W
  pub retrieve_checkout : String → W → Result CheckoutSession × W
  pub create_portal : String → W → Result String × W
  pub construct_event : String → String → W → Result StripeEvent × W

pub data Command : Type 0 where
  set_lock : String → Bool → Command
  unlink : String → Command
  deactivate : String → Command
  cancel : String → Command

pub record World (W : Type 0) : Type 0 where
  pub outside : W
  pub sent : List Command

module _ {W : Type 0} where
  -- A request that only reads.
  abbrev pub ask : {R : Type 0} → (W → R × W) → World W → R × World W
  ask f w = let r = f w.outside in (r.0, record { outside = r.1; sent = w.sent })

  -- A request that changes something.
  abbrev pub send : {R : Type 0} → Command → (W → R × W) → World W → R × World W
  send c f w = let r = f w.outside in (r.0, record { outside = r.1; sent = w.sent ++ c ∷ [] })

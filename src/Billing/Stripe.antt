-- ===== src/Billing/Stripe.antt =====
-- Stripe as the billing worker reads it (billing/src/index.ts, lines 172 to 236).
pub mod Index
use secure_collab_app.Prelude.{
  ℕ, zero, suc, Bool, true, false, not, ◌&&◌, ◌||◌, String, Option, none, some, List, [], ◌∷◌,
  if◌then◌else◌, get_last?, is_nil, is_empty, remove_all,
}
use secure_collab_app.Exec.{Result, ok, err, Exec, pure, ◌>>=◌}
use secure_collab_app.Billing.Services.{
  SubscriptionStatus, active, trialing, canceled, incomplete_expired, other_status, Subscription,
  SubscriptionPage, Services, World, ask,
}

pub record SubscriptionIndex : Type 0 where
  pub paying : List String
  pub ever_paid : List String
  pub complete : Bool

-- `sub.status === 'active' || sub.status === 'trialing'`
abbrev pub in_good_standing : SubscriptionStatus → Bool
in_good_standing active = true
in_good_standing trialing = true
in_good_standing canceled = false
in_good_standing incomplete_expired = false
in_good_standing other_status = false

-- The body of the loop over a page: a subscription without a username is passed over. A set is
-- the list of what was added.
index_one : Subscription → SubscriptionIndex → SubscriptionIndex
index_one sub ix = elim sub.tidework_username [
  | none ↦ ix
  | some username ↦ if is_empty username then ix else record ix {
    paying = if in_good_standing sub.status then username ∷ ix.paying else ix.paying;
    ever_paid = username ∷ ix.ever_paid;
  }
]

index_page : List Subscription → SubscriptionIndex → SubscriptionIndex
index_page [] ix = ix
index_page (sub ∷ subs) ix = index_page subs (index_one sub ix)

abbrev last_subscription : List Subscription → Option String
last_subscription subs = elim (get_last? subs) [ none ↦ none | some sub ↦ some sub.id ]

abbrev pub empty_index : SubscriptionIndex
empty_index = record { paying = []; ever_paid = []; complete = false }

module _ {W : Type 0} (svc : Services W) where
  abbrev pub call : {A : Type 0} → (W → Result A × W) → Exec (World W) A
  call f w = ask f w

  -- The query for one username, which drops the apostrophes.
  unfoldable pub active_subscription_for : String → Exec (World W) Bool
  active_subscription_for username = do
    found ← call (svc.search_active (remove_all 39 username) 1)
    pure (not (is_nil found))

  index_from : ℕ → Option String → SubscriptionIndex → Exec (World W) SubscriptionIndex
  index_from zero after ix = pure ix
  index_from (suc pages) after ix = do
    batch ← call (svc.list_subscriptions after)
    let next = index_page batch.page ix
    let done : SubscriptionIndex = record next { complete = true }
    elim (not batch.has_more || is_nil batch.page) [
      | true ↦ pure done
      | false ↦ index_from pages (last_subscription batch.page) next
    ]

  unfoldable pub subscription_index : Exec (World W) SubscriptionIndex
  unfolding index_from index_page index_one
  subscription_index = index_from 100 none empty_index

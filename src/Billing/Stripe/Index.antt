-- ===== src/Billing/Stripe/Index.antt =====
-- The index of who has a subscription (billing/src/index.ts, lines 183 to 236).
use secure_collab_app.Prelude.{
  ℕ, zero, suc, ◌≡◌, refl, Bool, true, false, not, ◌||◌, ◌&&◌, String, Option, none, some, List, [],
  ◌∷◌, ◌==◌, contains, any, length, append-nil, ◌++◌, ◌≤◌, is_empty, is_nil, arith,
}
use secure_collab_app.Exec.{Result, ok, pure}
use secure_collab_app.Billing.Services.{Subscription, SubscriptionPage, Services, World}
use secure_collab_app.Billing.Trace.{Issues, Issues-pure, Issues-bind, Issues-ask}
use secure_collab_app.Billing.Mas.Sends.{Any}
use secure_collab_app.Billing.Stripe.{
  SubscriptionIndex, in_good_standing, index_one, index_page, last_subscription, empty_index, call,
  index_from, subscription_index,
}

module _ {W : Type 0} (svc : Services W) where
  index_from-Issues :
      (pages : ℕ) (after : Option String) (ix : SubscriptionIndex)
      → Issues [] Any (index_from svc pages after ix)
  unfolding index_from
  index_from-Issues zero after ix = Issues-pure ix tt
  index_from-Issues (suc pages) after ix =
      Issues-bind Any [] [] _ (λ batch _. on_batch (index_from-Issues pages) batch _) _
        (Issues-ask (λ r. r) (svc.list_subscriptions after))
    where
      on_batch :
          ((after : Option String) (ix : SubscriptionIndex)
            → Issues [] Any (index_from svc pages after ix))
          → (batch : SubscriptionPage) (b : Bool)
          → Issues [] Any (elim b [
            | true ↦ pure (record (index_page batch.page ix) { complete = true })
            | false ↦ index_from svc pages (last_subscription batch.page) (index_page batch.page ix)
          ])
      on_batch ih batch true = Issues-pure _ tt
      on_batch ih batch false = ih _ _

  pub subscription_index-Issues : Issues [] Any (subscription_index svc)
  unfolding subscription_index
  subscription_index-Issues = index_from-Issues 100 none empty_index

-- Whether a subscription carries `name`, an account name that is not empty.
abbrev pub names : String → Subscription → Bool
names name sub = elim sub.tidework_username [
  | none ↦ false
  | some u ↦ not (is_empty u) && (u == name)
]

abbrev pub pays : String → Subscription → Bool
pays name sub = in_good_standing sub.status && names name sub

index_one-ever_paid :
    (name : String) (sub : Subscription) (ix : SubscriptionIndex)
    → contains (index_one sub ix).ever_paid name ≡ (names name sub || contains ix.ever_paid name)
unfolding index_one
index_one-ever_paid name sub ix = ground arith

index_one-paying :
    (name : String) (sub : Subscription) (ix : SubscriptionIndex)
    → contains (index_one sub ix).paying name ≡ (pays name sub || contains ix.paying name)
unfolding index_one
index_one-paying name sub ix = ground arith

index_page-ever_paid :
    (name : String) (subs : List Subscription) (ix : SubscriptionIndex)
    → contains (index_page subs ix).ever_paid name
      ≡ (any (names name) subs || contains ix.ever_paid name)
unfolding index_page
index_page-ever_paid name [] ix = refl
index_page-ever_paid name (sub ∷ subs) ix =
    ground
      (arith, index_page-ever_paid name subs (index_one sub ix), index_one-ever_paid name sub ix)

index_page-paying :
    (name : String) (subs : List Subscription) (ix : SubscriptionIndex)
    → contains (index_page subs ix).paying name ≡ (any (pays name) subs || contains ix.paying name)
unfolding index_page
index_page-paying name [] ix = refl
index_page-paying name (sub ∷ subs) ix =
    ground (arith, index_page-paying name subs (index_one sub ix), index_one-paying name sub ix)

-- What Stripe's list endpoint is documented to do, on a list of subscriptions that does not change:
-- it answers with the page that follows the cursor, and says whether more follows.
module _ {W : Type 0} (svc : Services W) where
  abbrev Answers : Option String → List Subscription → Bool → Type 0
  Answers after page more =
      (w : W) → (svc.list_subscriptions after w).0 ≡ ok (record { page = page; has_more = more })

  abbrev pub Serves : Option String → List (List Subscription) → Type 0
  Serves after [] = Answers after [] false
  Serves after (p ∷ []) = Answers after p false
  Serves after (p ∷ q ∷ rest) =
      Answers after p true × (is_nil p ≡ false) × Serves (last_subscription p) (q ∷ rest)

  abbrev pub all_of : List (List Subscription) → List Subscription
  all_of [] = []
  all_of (p ∷ ps) = p ++ all_of ps

  -- `ix'` adds to `ix` what the subscriptions `subs` say.
  pub record Extends (subs : List Subscription) (ix ix' : SubscriptionIndex) : Type 0 where
    pub ever_paid :
        (name : String)
        → contains ix'.ever_paid name ≡ (any (names name) subs || contains ix.ever_paid name)
    pub paying :
        (name : String)
        → contains ix'.paying name ≡ (any (pays name) subs || contains ix.paying name)

  any-append :
      (p : Subscription → Bool) (xs ys : List Subscription)
      → any p (xs ++ ys) ≡ (any p xs || any p ys)
  any-append p [] ys = refl
  any-append p (x ∷ xs) ys = ground (arith, any-append p xs ys)

  page-Extends : (p : List Subscription) (ix : SubscriptionIndex) → Extends p ix (index_page p ix)
  page-Extends p ix = record {
    ever_paid = λ name. index_page-ever_paid name p ix;
    paying = λ name. index_page-paying name p ix;
  }

  abbrev finished : List Subscription → SubscriptionIndex → SubscriptionIndex
  finished p ix = record (index_page p ix) { complete = true }

  finished-Extends : (p : List Subscription) (ix : SubscriptionIndex) → Extends p ix (finished p ix)
  finished-Extends p ix = record {
    ever_paid = λ name. index_page-ever_paid name p ix;
    paying = λ name. index_page-paying name p ix;
  }

  Extends-trans :
      (xs ys : List Subscription) (a b c : SubscriptionIndex)
      → Extends xs a b
      → Extends ys b c
      → Extends (xs ++ ys) a c
  Extends-trans xs ys a b c f g = record {
    ever_paid =
        λ name. ground (arith, f.ever_paid name, g.ever_paid name, any-append (names name) xs ys);
    paying = λ name. ground (arith, f.paying name, g.paying name, any-append (pays name) xs ys);
  }

  abbrev pub Complete : List Subscription → SubscriptionIndex → Result SubscriptionIndex → Type 0
  Complete subs ix r =
      (ix' : SubscriptionIndex) × (r ≡ ok ix') × (ix'.complete ≡ true) × Extends subs ix ix'

  index_from-Complete :
      (n : ℕ) (pages : List (List Subscription)) (after : Option String) (ix : SubscriptionIndex)
      (w : World W)
      → Serves after pages
      → length pages ≤ suc n
      → Complete (all_of pages) ix (index_from svc (suc n) after ix w).0
  unfolding index_from
  index_from-Complete n [] after ix w s h =
      (finished [] ix, rw (s w.outside), refl, finished-Extends [] ix)
  index_from-Complete n (p ∷ []) after ix w s h =
      rw append-nil (finished p ix, rw (s w.outside), refl, finished-Extends p ix)
  index_from-Complete zero (p ∷ q ∷ rest) after ix w s h = absurd (omega arith)
  index_from-Complete (suc n) ([] ∷ q ∷ rest) after ix w (answer, full, later) h = cc
  index_from-Complete (suc n) ((x ∷ xs) ∷ q ∷ rest) after ix w (answer, full, later) h =
      let p = x ∷ xs in
      let w' = (call svc (svc.list_subscriptions after) w).1 in
      let (ix', same, complete, ext) =
        index_from-Complete n (q ∷ rest) (last_subscription p) (index_page p ix) w' later
          (omega arith) in
      (
        ix',
        rw (answer w.outside) same,
        complete,
        Extends-trans p (all_of (q ∷ rest)) ix (index_page p ix) ix' (page-Extends p ix) ext,
      )

  -- If Stripe serves at most a hundred pages of subscriptions, the index is read, is marked as
  -- complete, and holds the name of every subscription as one that ever paid, and as paying exactly
  -- if one of its subscriptions is in good standing.
  pub subscription_index-Complete :
      (pages : List (List Subscription)) (w : World W)
      → Serves none pages
      → length pages ≤ 100
      → Complete (all_of pages) empty_index (subscription_index svc w).0
  unfolding subscription_index
  subscription_index-Complete pages w s h =
      index_from-Complete 99 pages none empty_index w s (omega arith)

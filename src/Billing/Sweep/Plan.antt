-- ===== src/Billing/Sweep/Plan.antt =====
-- What the sweep of the billing worker (billing/src/index.ts, lines 573 to 657) sends, in order.
use secure_collab_app.Prelude.{
  ℕ, suc, ◌+◌, ◌≡◌, refl, Bool, true, false, not, ◌&&◌, String, List, [], ◌∷◌, ◌++◌, ◌∙◌, map,
  arith, if◌then◌else◌, filter, is_nil, contains, length, Bool-cases, inl, inr, append-nil,
}
use secure_collab_app.Prelude.Int.{Num}
use secure_collab_app.Exec.{ok, pure, ◌>>=◌}
use secure_collab_app.Billing.Services.{
  Env, MasUser, Services, World, Command, set_lock, deactivate,
}
use secure_collab_app.Billing.Trace.{
  Outcome, Issues, Issues-pure, Issues-bind, Issues-mono, sent-Issues_nil,
}
use secure_collab_app.Billing.Mas.{mas_admin_token, mas_list_users}
use secure_collab_app.Billing.Mas.Sends.{
  mas_admin_token-Issues, mas_list_users-Issues, mas_set_lock_by_id-Issues,
  mas_deactivate_by_id-Issues,
}
use secure_collab_app.Billing.Stripe.{SubscriptionIndex, subscription_index}
use secure_collab_app.Billing.Stripe.Index.{subscription_index-Issues}
use secure_collab_app.Billing.Sweep.{
  SweepOverrides, Settings, settings, overdue, deletable_users, Summary, lock_overdue,
  delete_unpaid, act_on, read_and_act, sweep,
}

abbrev pub lock_user : MasUser → Command
lock_user u = set_lock u.id true

abbrev pub deactivate_user : MasUser → Command
deactivate_user u = deactivate u.id

-- The users whose name is not in the list.
abbrev pub absent : List String → List MasUser → List MasUser
absent xs us = filter (λ u. not (contains xs u.username)) us

-- What `delete_unpaid` sends, and the two counts that it returns.
abbrev pub deletions : Bool → List MasUser → List Command
deletions apply_deletes us = if apply_deletes then map deactivate_user us else []

abbrev Counts : Bool → ℕ → ℕ → ℕ → ℕ × ℕ → Type 0
Counts true n d x r = (r.0 ≡ d + n) × (r.1 ≡ x)
Counts false n d x r = (r.0 ≡ d) × (r.1 ≡ x + n)

-- The plan of a sweep: first the locks, then, unless the index is partial, the deletions.
abbrev pub act_plan : Settings → List MasUser → List MasUser → SubscriptionIndex → List Command
act_plan st due gone ix =
    map lock_user (absent ix.paying due)
    ++ (if not (is_nil gone) && not ix.complete
        then []
        else deletions st.apply_deletes (absent ix.ever_paid gone))

-- The summary counts what was planned.
abbrev pub Counted :
    Settings → ℕ → List MasUser → List MasUser → SubscriptionIndex → Summary → Type 0
Counted st n due gone ix s =
    (s.users ≡ n)
    × (s.locked ≡ length (absent ix.paying due))
    × (s.deleted ≡ (
        if not (is_nil gone) && not ix.complete
        then 0
        else if st.apply_deletes
        then length (absent ix.ever_paid gone)
        else 0))

abbrev pub due_users : Env → SweepOverrides → Num → List MasUser → List MasUser
due_users env o now users = filter (overdue (settings env o) now) users

abbrev pub gone_users : Env → SweepOverrides → Num → List MasUser → List MasUser
gone_users env o now users = deletable_users (settings env o) now users

module _ {W : Type 0} (svc : Services W) where
  lock_overdue-Issues :
      (tok : String) (paying : List String) (us : List MasUser) (n : ℕ)
      → Issues
          (map lock_user (absent paying us))
          (λ k. k ≡ n + length (absent paying us))
          (lock_overdue svc tok paying us n)
  unfolding lock_overdue
  lock_overdue-Issues tok paying [] n = Issues-pure n (omega arith)
  lock_overdue-Issues tok paying (u ∷ us) n = elim (Bool-cases (contains paying u.username)) [
    | inl e ↦ rw (e, lock_overdue) (lock_overdue-Issues tok paying us n)
    | inr e ↦
        rw (e, lock_overdue)
          (Issues-bind (λ k. k ≡ n + suc (length (absent paying us))) (lock_user u ∷ []) _ _
            (λ _ _.
              Issues-mono _ _ (λ k h. omega arith) (lock_overdue-Issues tok paying us (n + 1)))
            _ (mas_set_lock_by_id-Issues svc tok u.id true))
  ]

  delete_unpaid-Issues :
      (tok : String) (apply_deletes : Bool) (ever_paid : List String) (us : List MasUser) (d x : ℕ)
      → Issues
          (deletions apply_deletes (absent ever_paid us))
          (Counts apply_deletes (length (absent ever_paid us)) d x)
          (delete_unpaid svc tok apply_deletes ever_paid us d x)
  unfolding delete_unpaid
  delete_unpaid-Issues tok true ever_paid [] d x = Issues-pure (d, x) (omega arith, refl)
  delete_unpaid-Issues tok false ever_paid [] d x = Issues-pure (d, x) (refl, omega arith)
  delete_unpaid-Issues tok true ever_paid (u ∷ us) d x =
      elim (Bool-cases (contains ever_paid u.username)) [
        | inl e ↦ rw (e, delete_unpaid) (delete_unpaid-Issues tok true ever_paid us d x)
        | inr e ↦
            rw (e, delete_unpaid)
              (Issues-bind (Counts true (suc (length (absent ever_paid us))) d x)
                (deactivate_user u ∷ []) _ _
                (λ _ _.
                  Issues-mono _ _ (λ k h. omega arith)
                    (delete_unpaid-Issues tok true ever_paid us (d + 1) x))
                _ (mas_deactivate_by_id-Issues svc tok u.id))
      ]
  delete_unpaid-Issues tok false ever_paid (u ∷ us) d x =
      elim (Bool-cases (contains ever_paid u.username)) [
        | inl e ↦ rw (e, delete_unpaid) (delete_unpaid-Issues tok false ever_paid us d x)
        | inr e ↦
            rw (e, delete_unpaid)
              (Issues-mono _ _ (λ k h. omega arith)
                (delete_unpaid-Issues tok false ever_paid us d (x + 1)))
      ]

  deletions-Issues :
      (tok : String) (n locked : ℕ) (gone : List MasUser) (ever_paid : List String)
      (partial apply_deletes : Bool)
      → Issues {W = W} {A = Summary}
          (if partial then [] else deletions apply_deletes (absent ever_paid gone))
          (λ s.
            (s.users ≡ n)
            × (s.locked ≡ locked)
            × (s.deleted ≡ (
                if partial
                then 0
                else if apply_deletes
                then length (absent ever_paid gone)
                else 0)))
          (elim partial [
            | true ↦ pure (record { users = n; locked = locked; deleted = 0; would_delete = 0 })
            | false ↦ do
              r ← delete_unpaid svc tok apply_deletes ever_paid gone 0 0
              pure (record { users = n; locked = locked; deleted = r.0; would_delete = r.1 })
          ])
  deletions-Issues tok n locked gone ever_paid true apply_deletes = Issues-pure _ (refl, refl, refl)
  deletions-Issues tok n locked gone ever_paid false true =
      rw (← append-nil (map deactivate_user (absent ever_paid gone))) (
        Issues-bind _ _ [] _ (λ r h. Issues-pure _ (refl, refl, omega arith)) _
          (delete_unpaid-Issues tok true ever_paid gone 0 0))
  deletions-Issues tok n locked gone ever_paid false false =
      Issues-bind _ [] [] _ (λ r h. Issues-pure _ (refl, refl, h.0)) _
        (delete_unpaid-Issues tok false ever_paid gone 0 0)

  act_on-Issues :
      (st : Settings) (tok : String) (users due gone : List MasUser) (ix : SubscriptionIndex)
      → Issues
          (act_plan st due gone ix)
          (Counted st (length users) due gone ix)
          (act_on svc st tok users due gone ix)
  unfolding act_on
  act_on-Issues st tok users due gone ix =
      Issues-bind (Counted st (length users) due gone ix) _ _ _
        (λ k h.
          Issues-mono _ _ (λ (s : Summary) c. (c.0, c.1 ∙ h, c.2))
            (deletions-Issues tok (length users) k gone ix.ever_paid
              (not (is_nil gone) && not ix.complete) st.apply_deletes))
        _ (Issues-mono _ _ (λ k h. omega arith) (lock_overdue-Issues tok ix.paying due 0))

  read_and_act-Outcome :
      (st : Settings) (tok : String) (users due gone : List MasUser) (ix : SubscriptionIndex)
      (w2 w3 : World W)
      → subscription_index svc w2 ≡ (ok ix, w3)
      → Outcome w2.sent
          (act_plan st due gone ix)
          (Counted st (length users) due gone ix)
          (read_and_act svc st tok users due gone w2).0
          (read_and_act svc st tok users due gone w2).1.sent
  unfolding read_and_act
  read_and_act-Outcome st tok users [] [] ix w2 w3 e =
      (ground (arith, append-nil w2.sent), (refl, refl, ground arith))
  read_and_act-Outcome st tok users [] (g ∷ gs) ix w2 w3 e =
      rw (e, ← sent-Issues_nil _ w2 w3 ix (subscription_index-Issues svc) e)
        ((act_on-Issues st tok users [] (g ∷ gs) ix).at w3)
  read_and_act-Outcome st tok users (d ∷ ds) gone ix w2 w3 e =
      rw (e, ← sent-Issues_nil _ w2 w3 ix (subscription_index-Issues svc) e)
        ((act_on-Issues st tok users (d ∷ ds) gone ix).at w3)

  -- The reads that a sweep makes before it acts, and what they returned.
  pub record Reads (env : Env) (o : SweepOverrides) (now : Num) (w : World W) : Type 0 where
    pub tok : String
    pub users : List MasUser
    pub ix : SubscriptionIndex
    pub w1 : World W
    pub w2 : World W
    pub w3 : World W
    pub token_read : mas_admin_token svc w ≡ (ok tok, w1)
    pub users_read : mas_list_users svc tok w1 ≡ (ok users, w2)
    pub index_read : subscription_index svc w2 ≡ (ok ix, w3)

  module _ (env : Env) (o : SweepOverrides) (now : Num) (w : World W) (r : Reads env o now w) where
    open r use {users, ix}

    abbrev pub sweep_plan : List Command
    sweep_plan =
        act_plan (settings env o) (due_users env o now users) (gone_users env o now users) ix

    -- A sweep whose reads succeed sends, in this order, a lock for each listed account that is
    -- overdue and has no subscription in good standing, and, unless the index is partial or
    -- deletion is not applied, a deactivation for each deletable account that never had one. If it
    -- returns, it has sent all of these and its summary counts them; if a request fails, it has
    -- sent an initial part of them and nothing else.
    pub sweep-Outcome :
        Outcome w.sent sweep_plan
          (Counted
            (settings env o)
            (length users)
            (due_users env o now users)
            (gone_users env o now users)
            ix)
          (sweep svc env o now w).0
          (sweep svc env o now w).1.sent
    unfolding sweep
    sweep-Outcome =
        rw
          (
            r.token_read,
            r.users_read,
            ← sent-Issues_nil _ w r.w1 r.tok (mas_admin_token-Issues svc) r.token_read,
            ← sent-Issues_nil _ r.w1 r.w2 users (mas_list_users-Issues svc r.tok) r.users_read,
          )
          (read_and_act-Outcome (settings env o) r.tok users (due_users env o now users)
            (gone_users env o now users) ix r.w2 r.w3 r.index_read)

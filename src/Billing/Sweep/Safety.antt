-- ===== src/Billing/Sweep/Safety.antt =====
-- Who is locked and who is deleted by a sweep of the billing worker (billing/src/index.ts, lines
-- 558 to 657).
use mathlib.Core.List.{Memᴰ}
use secure_collab_app.Prelude.{
  ◌≡◌, refl, ◌⊎◌, Bool, true, false, not, ◌&&◌, List, [], ◌∷◌, ◌++◌, map, arith, if◌then◌else◌,
  filter, is_nil, contains, Bool-cases, inl, inr, All, All-append, All-map, All-Begins, mem-filter,
}
use secure_collab_app.Prelude.Int.{Num, int, pos, lt_num}
use secure_collab_app.Exec.{Result, ok, err}
use secure_collab_app.Billing.Services.{
  Env, MasUser, Services, World, Command, set_lock, deactivate, unlink, cancel,
}
use secure_collab_app.Billing.Trace.{Outcome}
use secure_collab_app.Billing.Stripe.{SubscriptionIndex}
use secure_collab_app.Billing.Sweep.{
  SweepOverrides, Settings, settings, past, overdue, deletable, deletable_users, Summary, sweep,
}
use secure_collab_app.Billing.Sweep.Plan.{
  lock_user, deactivate_user, absent, deletions, act_plan, Reads, sweep_plan, sweep-Outcome,
}

-- An account that a sweep may lock.
pub record MayLock (st : Settings) (now : Num) (users : List MasUser) (ix : SubscriptionIndex)
    (u : MasUser) : Type 0 where
  pub listed : Memᴰ u users
  pub no_admin : u.admin ≡ false
  pub unlocked : u.locked_at ≡ false
  pub not_exempt : contains st.exempt u.username ≡ false
  pub trial_over : past now u st.lock_after_ms ≡ true
  pub not_paying : contains ix.paying u.username ≡ false

-- An account that a sweep may delete, and what else deletion needs.
pub record MayDelete (st : Settings) (now : Num) (users : List MasUser) (ix : SubscriptionIndex)
    (u : MasUser) : Type 0 where
  pub listed : Memᴰ u users
  pub no_admin : u.admin ≡ false
  pub is_locked : u.locked_at ≡ true
  pub still_there : u.deactivated_at ≡ false
  pub not_exempt : contains st.exempt u.username ≡ false
  pub long_over : past now u st.delete_after_ms ≡ true
  pub never_paid : contains ix.ever_paid u.username ≡ false
  pub index_complete : ix.complete ≡ true
  pub deletion_on : lt_num (int (pos 0)) st.delete_after_days ≡ true
  pub deletion_applied : st.apply_deletes ≡ true

-- Every request of a sweep locks or deletes an account that may be locked or deleted.
abbrev pub Justified : Settings → Num → List MasUser → SubscriptionIndex → Command → Type 0
Justified st now users ix (set_lock id lock) =
    (lock ≡ true) × ((u : MasUser) × (u.id ≡ id) × MayLock st now users ix u)
Justified st now users ix (deactivate id) =
    (u : MasUser) × (u.id ≡ id) × MayDelete st now users ix u
Justified st now users ix (unlink id) = ⊥
Justified st now users ix (cancel id) = ⊥

module _ (st : Settings) (now : Num) (users : List MasUser) (ix : SubscriptionIndex) where
  overdue-MayLock :
      (u : MasUser)
      → Memᴰ u (absent ix.paying (filter (overdue st now) users))
      → MayLock st now users ix u
  unfolding overdue
  overdue-MayLock u m =
      let (kept, unpaid) = mem-filter _ (filter (overdue st now) users) m in
      let (listed, due) = mem-filter (overdue st now) users kept in
      record {
        listed = listed;
        no_admin = ground arith;
        unlocked = ground arith;
        not_exempt = ground arith;
        trial_over = ground arith;
        not_paying = ground arith;
      }

  deletable-MayDelete :
      ix.complete ≡ true
      → st.apply_deletes ≡ true
      → lt_num (int (pos 0)) st.delete_after_days ≡ true
      → (u : MasUser) → Memᴰ u (absent ix.ever_paid (filter (deletable st now) users))
      → MayDelete st now users ix u
  unfolding deletable
  deletable-MayDelete complete applied on u m =
      let (kept, unpaid) = mem-filter _ (filter (deletable st now) users) m in
      let (listed, gone) = mem-filter (deletable st now) users kept in
      record {
        listed = listed;
        no_admin = ground arith;
        is_locked = ground arith;
        still_there = ground arith;
        not_exempt = ground arith;
        long_over = ground arith;
        never_paid = ground arith;
        index_complete = complete;
        deletion_on = on;
        deletion_applied = applied;
      }

  locks-Justified :
      All
        (Justified st now users ix)
        (map lock_user (absent ix.paying (filter (overdue st now) users)))
  locks-Justified =
      All-map (Justified st now users ix) lock_user _
        (λ u m. (refl, (u, refl, overdue-MayLock u m)))

  complete_or_nil :
      (gone : List MasUser)
      → (not (is_nil gone) && not ix.complete) ≡ false
      → (ix.complete ≡ true) ⊎ (gone ≡ [])
  complete_or_nil [] h = inr refl
  complete_or_nil (u ∷ us) h = ground arith

  deletions-Justified :
      (gone : List MasUser) (apply_deletes : Bool)
      → (apply_deletes ≡ true
          → (u : MasUser) → Memᴰ u (absent ix.ever_paid gone)
          → (ix.complete ≡ true)
          → MayDelete st now users ix u)
      → All (Justified st now users ix) (
          if not (is_nil gone) && not ix.complete
          then []
          else deletions apply_deletes (absent ix.ever_paid gone))
  deletions-Justified gone false h = elim (Bool-cases (not (is_nil gone) && not ix.complete)) [
    | inl e ↦ rw e tt
    | inr e ↦ rw e tt
  ]
  deletions-Justified gone true h = elim (Bool-cases (not (is_nil gone) && not ix.complete)) [
    | inl e ↦ rw e tt
    | inr e ↦ rw e (elim (complete_or_nil gone e) [
      | inl c ↦
          All-map (Justified st now users ix) deactivate_user _ (λ u m. (u, refl, h refl u m c))
      | inr n ↦ rw n tt
    ])
  ]

  plan-Justified :
      All
        (Justified st now users ix)
        (act_plan st (filter (overdue st now) users) (deletable_users st now users) ix)
  unfolding deletable_users
  plan-Justified =
      All-append (Justified st now users ix) _ _ locks-Justified
        (elim (Bool-cases (lt_num (int (pos 0)) st.delete_after_days)) [
          | inl on ↦ rw on (
              deletions-Justified (filter (deletable st now) users) st.apply_deletes
                (λ applied u m complete. deletable-MayDelete complete applied on u m))
          | inr off ↦
              rw off (deletions-Justified [] st.apply_deletes (λ applied u m complete. elim m [ ]))
        ])

module _ {W : Type 0} (svc : Services W) (env : Env) (o : SweepOverrides) (now : Num) (w : World W)
    (r : Reads svc env o now w) where
  Outcome-Justified :
      (Post : Summary → Type 0) (res : Result Summary) (sent : List Command)
      → Outcome w.sent (sweep_plan svc env o now w r) Post res sent
      → (new : List Command) × (sent ≡ w.sent ++ new)
        × All (Justified (settings env o) now r.users r.ix) new
  Outcome-Justified Post (ok s) sent (same, post) =
      (_, same, plan-Justified (settings env o) now r.users r.ix)
  Outcome-Justified Post (err e) sent (done, same, part) =
      (done, same, All-Begins _ done _ part (plan-Justified (settings env o) now r.users r.ix))

  -- All that a sweep sends, where its reads of MAS and Stripe succeed, is justified by what it read: a
  -- lock is of a listed, unlocked account that is no admin and not exempt, past trial and grace and
  -- with no subscription in good standing; a deletion is of a listed, locked account that is there
  -- still, is no admin and not exempt, is past the deadline and never had a subscription, and then
  -- the index is complete and deletion is on and applied.
  pub sweep-Justified :
      (new : List Command) × ((sweep svc env o now w).1.sent ≡ w.sent ++ new)
      × All (Justified (settings env o) now r.users r.ix) new
  sweep-Justified =
      Outcome-Justified _ (sweep svc env o now w).0 _ (sweep-Outcome svc env o now w r)

-- ===== src/Billing/Sweep.antt =====
-- The sweep of the billing worker (billing/src/index.ts, lines 558 to 657).
pub mod Plan
pub mod Safety
use secure_collab_app.Prelude.{
  ℕ, zero, suc, ◌+◌, ◌≡◌, refl, Bool, true, false, not, ◌&&◌, ◌||◌, String, Option, none, some,
  List, [], ◌∷◌, ◌==◌, if◌then◌else◌, filter, is_nil, is_empty, contains, length, map, trim, split,
}
use secure_collab_app.Prelude.Int.{
  Num, nan, int, pos, add_num, scale_num, le_num, lt_num, parse_int,
}
use secure_collab_app.Exec.{Result, ok, err, Exec, pure, ◌>>=◌, ◌>>◌}
use secure_collab_app.Billing.Services.{Env, MasUser, Services, World}
use secure_collab_app.Billing.Mas.{
  mas_admin_token, mas_list_users, mas_set_lock_by_id, mas_deactivate_by_id,
}
use secure_collab_app.Billing.Stripe.{SubscriptionIndex, subscription_index}

abbrev pub text_or_empty : Option String → String
text_or_empty none = ""
text_or_empty (some s) = s

-- `days`: a finite number that is not negative, or the fallback.
unfoldable pub days : Option String → ℕ → Num
days raw fallback =
    let n = parse_int (text_or_empty raw) in
    if le_num (int (pos 0)) n then n else int (pos fallback)

pub record SweepOverrides : Type 0 where
  pub trial_days : Option Num
  pub grace_days : Option Num
  pub delete_after_days : Option Num
  pub delete_mode : Option String

abbrev pub no_overrides : SweepOverrides
no_overrides = record {
  trial_days = none;
  grace_days = none;
  delete_after_days = none;
  delete_mode = none;
}

-- The operator `??`.
abbrev pub or_else {ℓ} : {A : Type ℓ} → Option A → A → A
or_else none b = b
or_else (some a) b = a

abbrev pub or_some {ℓ} : {A : Type ℓ} → Option A → Option A → Option A
or_some none b = b
or_some (some a) b = some a

-- The constants that `sweep` computes before its first request.
pub record Settings : Type 0 where
  pub exempt : List String
  pub lock_after_ms : Num
  pub delete_after_days : Num
  pub apply_deletes : Bool
  pub delete_after_ms : Num

abbrev pub day_ms : ℕ
day_ms = 86400000

unfoldable pub settings : Env → SweepOverrides → Settings
settings env o =
    let trial = or_else o.trial_days (days env.trial_days 14) in
    let grace = or_else o.grace_days (days env.grace_days 0) in
    let delete_after = or_else o.delete_after_days (days env.delete_after_days 0) in
    record {
      exempt = filter (λ u. not (is_empty u)) (map trim (split b',' env.exempt_usernames));
      lock_after_ms = scale_num day_ms (add_num trial grace);
      delete_after_days = delete_after;
      apply_deletes = text_or_empty (or_some o.delete_mode env.delete_mode) == "apply";
      delete_after_ms = scale_num day_ms (add_num (add_num trial grace) delete_after);
    }

-- `Date.now() - Date.parse(created_at) >= limit`. The runtime's clock stands still between
-- requests, so one sweep reads one `now` in both of its filters.
unfoldable pub past : Num → MasUser → Num → Bool
past now u limit = le_num (add_num u.created_at limit) now

-- The filter for the accounts to lock.
unfoldable pub overdue : Settings → Num → MasUser → Bool
overdue st now u =
    if u.admin || u.locked_at || contains st.exempt u.username
    then false
    else past now u st.lock_after_ms

-- The filter for the accounts that may be deleted.
unfoldable pub deletable : Settings → Num → MasUser → Bool
deletable st now u =
    if u.admin || contains st.exempt u.username
    then false
    else if not u.locked_at || u.deactivated_at
    then false
    else past now u st.delete_after_ms

unfoldable pub deletable_users : Settings → Num → List MasUser → List MasUser
unfolding deletable
deletable_users st now users =
    if lt_num (int (pos 0)) st.delete_after_days then filter (deletable st now) users else []

-- The numbers that the summary line reports.
pub record Summary : Type 0 where
  pub users : ℕ
  pub locked : ℕ
  pub deleted : ℕ
  pub would_delete : ℕ

module _ {W : Type 0} (svc : Services W) where
  unfoldable pub lock_overdue : String → List String → List MasUser → ℕ → Exec (World W) ℕ
  lock_overdue tok paying [] locked = pure locked
  lock_overdue tok paying (u ∷ us) locked = elim (contains paying u.username) [
    | true ↦ lock_overdue tok paying us locked
    | false ↦ do mas_set_lock_by_id svc tok u.id true; lock_overdue tok paying us (locked + 1)
  ]

  unfoldable pub delete_unpaid :
      String → Bool → List String → List MasUser → ℕ → ℕ → Exec (World W) (ℕ × ℕ)
  delete_unpaid tok apply_deletes ever_paid [] deleted would_delete = pure (deleted, would_delete)
  delete_unpaid tok apply_deletes ever_paid (u ∷ us) deleted would_delete =
      elim (contains ever_paid u.username) [
        | true ↦ delete_unpaid tok apply_deletes ever_paid us deleted would_delete
        | false ↦ elim apply_deletes [
          | false ↦ delete_unpaid tok false ever_paid us deleted (would_delete + 1)
          | true ↦ do
            mas_deactivate_by_id svc tok u.id
            delete_unpaid tok true ever_paid us (deleted + 1) would_delete
        ]
      ]

  -- What the sweep does once Stripe has been read.
  unfoldable pub act_on :
      Settings
      → String
      → List MasUser
      → List MasUser
      → List MasUser
      → SubscriptionIndex
      → Exec (World W) Summary
  act_on st tok users due gone ix = do
    locked ← lock_overdue tok ix.paying due 0
    elim (not (is_nil gone) && not ix.complete) [
      | true ↦
          pure (record { users = length users; locked = locked; deleted = 0; would_delete = 0 })
      | false ↦ do
        r ← delete_unpaid tok st.apply_deletes ix.ever_paid gone 0 0
        pure (record { users = length users; locked = locked; deleted = r.0; would_delete = r.1 })
    ]

  -- Stripe is read only where there is something to do.
  unfoldable pub read_and_act :
      Settings → String → List MasUser → List MasUser → List MasUser → Exec (World W) Summary
  read_and_act st tok users due gone = elim (is_nil due && is_nil gone) [
    | true ↦ pure (record { users = length users; locked = 0; deleted = 0; would_delete = 0 })
    | false ↦ do ix ← subscription_index svc; act_on st tok users due gone ix
  ]

  unfoldable pub sweep : Env → SweepOverrides → Num → Exec (World W) Summary
  unfolding read_and_act
  sweep env o now = do
    tok ← mas_admin_token svc
    users ← mas_list_users svc tok
    read_and_act (settings env o) tok users (filter (overdue (settings env o) now) users)
        (deletable_users (settings env o) now users)

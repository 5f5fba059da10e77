-- ===== src/Billing/Standing/Trial.antt =====
-- The trial badge and the sweep (billing/src/index.ts, lines 336 to 361 and 560 to 606) agree on
-- when a trial is over.
use secure_collab_app.Prelude.{ℕ, suc, ◌≡◌, refl, false, String, Option, arith, if◌then◌else◌}
use secure_collab_app.Prelude.Int.{
  Num, nan, int, pos, negsuc, add_num, scale_num, le_num, parse_int,
}
use secure_collab_app.Billing.Services.{Env, MasUser}
use secure_collab_app.Billing.Sweep.{
  days, settings, no_overrides, day_ms, text_or_empty, past, overdue,
}
use secure_collab_app.Billing.Standing.{days_left}

-- A setting of days is never negative, nor NaN.
pub days-pos : (raw : Option String) (fallback : ℕ) → (n : ℕ) × (days raw fallback ≡ int (pos n))
unfolding days
days-pos raw fallback = by_value (parse_int (text_or_empty raw))
  where
    by_value :
        (n : Num)
        → (k : ℕ) × ((if le_num (int (pos 0)) n then n else int (pos fallback)) ≡ int (pos k))
    by_value nan = (fallback, refl)
    by_value (int (pos k)) = (k, ground arith)
    by_value (int (negsuc k)) = (fallback, ground arith)

trial_days-eq :
    (raw : Option String) (fallback t : ℕ)
    → parse_int (text_or_empty raw) ≡ int (pos t)
    → days raw fallback ≡ int (pos t)
unfolding days
trial_days-eq raw fallback t e = rw e (ground arith)

not_past :
    (created now : Num) (t g : ℕ) {k : ℕ}
    → days_left (int (pos t)) created now ≡ int (pos (suc k))
    → le_num (add_num created (scale_num day_ms (add_num (int (pos t)) (int (pos g))))) now ≡ false
unfolding days_left
not_past nan now t g h = refl
not_past (int a) nan t g h = refl
not_past (int (pos a)) (int (pos b)) t g h = ground arith
not_past (int (pos a)) (int (negsuc b)) t g h = ground arith
not_past (int (negsuc a)) (int (pos b)) t g h = ground arith
not_past (int (negsuc a)) (int (negsuc b)) t g h = ground arith

-- If the trial's days are set to a number and `/status` tells a day that is left, the scheduled
-- sweep does not find the account overdue at that time.
pub days_left-overdue :
    (env : Env) (now : Num) (u : MasUser) (t k : ℕ)
    → parse_int (text_or_empty env.trial_days) ≡ int (pos t)
    → days_left (parse_int (text_or_empty env.trial_days)) u.created_at now ≡ int (pos (suc k))
    → overdue (settings env no_overrides) now u ≡ false
unfolding overdue past settings
days_left-overdue env now u t k parsed left =
    let (g, grace) = days-pos env.grace_days 0 in
    let clear = not_past u.created_at now t g (rw parsed at left) in
    rw (grace, trial_days-eq env.trial_days 14 t parsed, clear) (ground arith)

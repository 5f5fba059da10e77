-- ===== src/Billing/Routes/Unlocks.antt =====
-- Methods of the billing worker (billing/src/index.ts) that change no account but by an unlock.
use secure_collab_app.Prelude.{
  ◌≡◌, ◌∙◌, sym, ap, Bool, true, false, String, List, [], ◌++◌, if◌then◌else◌, append-nil,
  append_assoc, All, All-append, All-Begins,
}
use secure_collab_app.Exec.{Result, ok, err, Exec, pure, throw, attempt, recover, continue, ◌>>=◌}
use secure_collab_app.Billing.Services.{
  Services, World, Command, set_lock, unlink, deactivate, cancel,
}
use secure_collab_app.Billing.Trace.{Outcome, Issues}
use secure_collab_app.Billing.Stripe.{call}

-- The command unlocks an account.
abbrev pub IsUnlock : Command → Type 0
IsUnlock (set_lock user lock) = lock ≡ false
IsUnlock (unlink link) = ⊥
IsUnlock (deactivate user) = ⊥
IsUnlock (cancel sub) = ⊥

-- What has been sent since are unlocks.
abbrev pub Unlocked : List Command → List Command → Type 0
Unlocked start sent = (new : List Command) × (sent ≡ start ++ new) × All IsUnlock new

pub Unlocked-refl : (start : List Command) → Unlocked start start
Unlocked-refl start = ([], sym (append-nil start), tt)

Unlocked-trans : (a b c : List Command) → Unlocked a b → Unlocked b c → Unlocked a c
Unlocked-trans a b c (p, ep, hp) (q, eq, hq) =
    (p ++ q, eq ∙ ap (λ l. l ++ q) ep ∙ append_assoc a p q, All-append IsUnlock p q hp hq)

module _ {W : Type 0} where
  -- Whether it returns or throws, the method sends nothing but unlocks.
  pub record Unlocks {A : Type 0} (m : Exec (World W) A) : Type 0 where
    pub at : (w : World W) → Unlocked w.sent (m w).1.sent

  pub Unlocks-pure : {A : Type 0} (a : A) → Unlocks (pure a)
  Unlocks-pure a = record { at = λ w. Unlocked-refl w.sent }

  pub Unlocks-throw : {A : Type 0} (e : String) → Unlocks {A = A} (throw e)
  Unlocks-throw e = record { at = λ w. Unlocked-refl w.sent }

  pub Unlocks-Issues :
      {A : Type 0} {Post : A → Type 0} (plan : List Command) (m : Exec (World W) A)
      → All IsUnlock plan
      → Issues plan Post m
      → Unlocks m
  Unlocks-Issues {A} {Post} plan m h k = record { at = λ w. go w.sent (m w).0 _ (k.at w) }
    where
      go :
          (start : List Command) (r : Result A) (sent : List Command)
          → Outcome start plan Post r sent
          → Unlocked start sent
      go start (ok a) sent (same, post) = (plan, same, h)
      go start (err e) sent (done, same, part) = (done, same, All-Begins IsUnlock done plan part h)

  pub Unlocks-call : {A : Type 0} (svc : Services W) (f : W → Result A × W) → Unlocks (call svc f)
  Unlocks-call svc f = record { at = λ w. Unlocked-refl w.sent }

  pub Unlocks-bind :
      {A B : Type 0} (m : Exec (World W) A) (f : A → Exec (World W) B)
      → Unlocks m
      → ((a : A) → Unlocks (f a))
      → Unlocks (m >>= f)
  Unlocks-bind {A} {B} m f k next = record { at = λ w. go w.sent (m w).0 (m w).1 (k.at w) }
    where
      go :
          (start : List Command) (r : Result A) (w : World W)
          → Unlocked start w.sent
          → Unlocked start (continue r f w).1.sent
      go start (ok a) w h = Unlocked-trans start w.sent (f a w).1.sent h ((next a).at w)
      go start (err e) w h = h

  pub Unlocks-attempt :
      {A : Type 0} (m : Exec (World W) A) (handler : String → Exec (World W) A)
      → Unlocks m
      → ((e : String) → Unlocks (handler e))
      → Unlocks (attempt m handler)
  Unlocks-attempt {A} m handler k next = record { at = λ w. go w.sent (m w).0 (m w).1 (k.at w) }
    where
      go :
          (start : List Command) (r : Result A) (w : World W)
          → Unlocked start w.sent
          → Unlocked start (recover r handler w).1.sent
      go start (ok a) w h = h
      go start (err e) w h = Unlocked-trans start w.sent (handler e w).1.sent h ((next e).at w)

  pub Unlocks-if :
      {A : Type 0} (b : Bool) (m n : Exec (World W) A)
      → Unlocks m
      → Unlocks n
      → Unlocks (if b then m else n)
  Unlocks-if true m n h k = h
  Unlocks-if false m n h k = k

-- ===== src/Client/Promises.antt =====
-- The promises of a tab's requests (ui/src/worker/client.ts, lines 131 to 191): the two tables of the
-- tab against one promise for each id, which minds only what bears its id.
use secure_collab_app.Prelude.{
  ℕ, suc, ◌≡◌, refl, ◌∙◌, Bool, true, false, String, Option, none, some, List, [], ◌∷◌,
  if◌then◌else◌, eqb, arith, Bool-cases, inl, inr, sym,
}
use secure_collab_app.Exec.{Result, err}
use secure_collab_app.Worker.Protocol.{
  Cloneable, Event, log, workspace_change, workspace_state, queue_change, session_sync,
  token_refresh, session_dropped,
}
use secure_collab_app.Client.Tables.{
  Promise, unsent, waits, settle_waiting, expire, sent_as, promise_after, promise_in, promise_of,
  IsSound, settle-promise, settle-IsSound, register-promise, register-waits, register-IsSound,
}
use secure_collab_app.Client.{
  Tab, new_tab, find_id, register, post, send, resolve_for, receive, time_out_for, time_out,
  on_event, Unsent, with_id, TabStep, sends, receives, times_out, hears, tab_step, tab_steps,
}

-- A tab against the promise of one id: what a step does to them.
abbrev step_promise : ℕ → ℕ → TabStep → Promise → Promise
step_promise i next (sends req timer refused) p = if eqb next i then sent_as timer refused else p
step_promise i next (receives id value) p = if eqb id i then settle_waiting value p else p
step_promise i next (times_out id) p = if eqb id i then expire p else p
step_promise i next (hears e) p = p

abbrev next_after : ℕ → TabStep → ℕ
next_after next (sends req timer refused) = suc next
next_after next (receives id value) = next
next_after next (times_out id) = next
next_after next (hears e) = next

record Steps (i : ℕ) (x : TabStep) (t v : Tab) : Type 0 where
  sound : IsSound v
  next : v.next_id ≡ next_after t.next_id x
  promise : promise_of i v ≡ step_promise i t.next_id x (promise_of i t)

post-Steps :
    (i : ℕ) (req : Unsent) (timer : Bool) (refused : Option String) (t : Tab)
    → IsSound t
    → Steps i
        (sends req timer refused)
        t
        (post refused t.next_id (with_id req t.next_id) (register timer t))
post-Steps i req timer none t s = record {
  sound = record {
    apart = (register-IsSound timer t s).apart;
    ahead = (register-IsSound timer t s).ahead;
  };
  next = refl;
  promise = register-promise timer t i s;
}
post-Steps i req timer (some e) t s = record {
  sound =
      settle-IsSound t.next_id (err e) timer (register timer t) (register-IsSound timer t s)
        (register-waits timer t s);
  next = refl;
  promise =
      settle-promise t.next_id (err e) timer (register timer t) i (register-IsSound timer t s)
        (register-waits timer t s)
      ∙ elim (Bool-cases (eqb t.next_id i)) [
        | inl f ↦
            let k : promise_of i (register timer t) ≡ waits timer =
              rw f at (register-promise timer t i s) in
            rw f (rw k refl)
        | inr f ↦ rw f (rw f at (register-promise timer t i s))
      ];
}

settle_waiting-none :
    (value : Result Cloneable) (o : Option (Result Cloneable))
    → settle_waiting value (promise_in none o) ≡ promise_in none o
settle_waiting-none value none = refl
settle_waiting-none value (some first) = refl

expire-none : (o : Option (Result Cloneable)) → expire (promise_in none o) ≡ promise_in none o
expire-none none = refl
expire-none (some first) = refl

-- A promise that a function leaves where it is not waiting.
kept :
    (f : Promise → Promise) (i id : ℕ) (t : Tab)
    → (id ≡ i → f (promise_of i t) ≡ promise_of i t)
    → promise_of i t ≡ (if eqb id i then f (promise_of i t) else promise_of i t)
kept f i id t h = elim (Bool-cases (eqb id i)) [
  | inl e ↦ rw e (sym (h (ground (arith, e))))
  | inr e ↦ rw e refl
]

resolve_for-Steps :
    (i id : ℕ) (value : Result Cloneable) (o : Option Bool) (t : Tab)
    → IsSound t
    → find_id id t.pending ≡ o
    → Steps i (receives id value) t (resolve_for o id value t)
resolve_for-Steps i id value none t s h = record {
  sound = s;
  next = refl;
  promise = kept (settle_waiting value) i id t (λ same.
      let k : find_id i t.pending ≡ none = rw same at h in
      rw k (settle_waiting-none value (find_id i t.settled)));
}
resolve_for-Steps i id value (some timer) t s h = record {
  sound = settle-IsSound id value timer t s h;
  next = refl;
  promise = settle-promise id value timer t i s h;
}

time_out_for-Steps :
    (i id : ℕ) (o : Option Bool) (t : Tab)
    → IsSound t
    → find_id id t.pending ≡ o
    → Steps i (times_out id) t (time_out_for o id t)
time_out_for-Steps i id none t s h = record {
  sound = s;
  next = refl;
  promise = kept expire i id t (λ same.
      let k : find_id i t.pending ≡ none = rw same at h in
      rw k (expire-none (find_id i t.settled)));
}
time_out_for-Steps i id (some false) t s h = record {
  sound = s;
  next = refl;
  promise =
      kept expire i id t
        (λ same. let k : find_id i t.pending ≡ some false = rw same at h in rw k refl);
}
time_out_for-Steps i id (some true) t s h = record {
  sound = settle-IsSound id _ true t s h;
  next = refl;
  promise = settle-promise id _ true t i s h ∙ elim (Bool-cases (eqb id i)) [
    | inl e ↦
        let same : id ≡ i = ground (arith, e) in
        let k : find_id i t.pending ≡ some true = rw same at h in rw e (rw k refl)
    | inr e ↦ rw e refl
  ];
}

on_event-Steps : (i : ℕ) (e : Event) (t : Tab) → IsSound t → Steps i (hears e) t (on_event e t)
unfolding on_event
on_event-Steps i (log level) t s = record {
  sound = record { apart = s.apart; ahead = s.ahead };
  next = refl;
  promise = refl;
}
on_event-Steps i (workspace_change room_id) t s = record {
  sound = record { apart = s.apart; ahead = s.ahead };
  next = refl;
  promise = refl;
}
on_event-Steps i (workspace_state room_id state) t s = record {
  sound = record { apart = s.apart; ahead = s.ahead };
  next = refl;
  promise = refl;
}
on_event-Steps i (queue_change room_id) t s = record {
  sound = record { apart = s.apart; ahead = s.ahead };
  next = refl;
  promise = refl;
}
on_event-Steps i (session_sync user_id) t s = record {
  sound = record { apart = s.apart; ahead = s.ahead };
  next = refl;
  promise = refl;
}
on_event-Steps i (token_refresh user_id blob) t s = record {
  sound = record { apart = s.apart; ahead = s.ahead };
  next = refl;
  promise = refl;
}
on_event-Steps i (session_dropped user_id) t s = record {
  sound = record { apart = s.apart; ahead = s.ahead };
  next = refl;
  promise = refl;
}

tab_step-Steps : (i : ℕ) (x : TabStep) (t : Tab) → IsSound t → Steps i x t (tab_step x t)
unfolding send receive time_out
tab_step-Steps i (sends req timer refused) t s = post-Steps i req timer refused t s
tab_step-Steps i (receives id value) t s =
    resolve_for-Steps i id value (find_id id t.pending) t s refl
tab_step-Steps i (times_out id) t s = time_out_for-Steps i id (find_id id t.pending) t s refl
tab_step-Steps i (hears e) t s = on_event-Steps i e t s

promise_after-step :
    (i next : ℕ) (x : TabStep) (xs : List TabStep) (p : Promise)
    → promise_after i next (x ∷ xs) p
      ≡ promise_after i (next_after next x) xs (step_promise i next x p)
promise_after-step i next (sends req timer refused) xs p = refl
promise_after-step i next (receives id value) xs p = refl
promise_after-step i next (times_out id) xs p = refl
promise_after-step i next (hears e) xs p = refl

tab_steps-promise :
    (i : ℕ) (xs : List TabStep) (t : Tab)
    → IsSound t
    → promise_of i (tab_steps xs t) ≡ promise_after i t.next_id xs (promise_of i t)
tab_steps-promise i [] t s = refl
tab_steps-promise i (x ∷ xs) t s =
    let r = tab_step-Steps i x t s in
    tab_steps-promise i xs (tab_step x t) r.sound
    ∙ rw (r.next, r.promise, promise_after-step i t.next_id x xs (promise_of i t)) refl

-- The two tables of a new tab hold for each id what its promise comes to by itself: it waits from
-- the request that gets the id, and is settled by the first of the answer with this id, its timer
-- and the error of the port, after which nothing changes it.
pub tab_steps-promise_after :
    (i : ℕ) (xs : List TabStep) → promise_of i (tab_steps xs new_tab) ≡ promise_after i 1 xs unsent
tab_steps-promise_after i xs =
    tab_steps-promise i xs new_tab
      (record { apart = λ j timer h. refl; ahead = λ j l. (refl, refl) })

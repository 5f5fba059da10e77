-- ===== src/Billing/Account/Order.antt =====
-- The order of an account's deletion (billing/src/index.ts, lines 444 to 512).
use secure_collab_app.Prelude.{
  ℕ, suc, ◌+◌, ◌≡◌, ◌≢◌, refl, ◌∙◌, Bool, true, false, not, String, some, List, [], ◌∷◌, ◌++◌, map,
  arith, if◌then◌else◌, filter, length, Bool-cases, ◌⊎◌, inl, inr, remove_all, Begins, append_assoc,
}
use secure_collab_app.Exec.{Result, ok, err, pure, recover, continue, ◌>>◌}
use secure_collab_app.Billing.Services.{
  Env, MasUser, Subscription, Services, World, Command, cancel, unlink, deactivate, ask, body,
}
use secure_collab_app.Billing.Trace.{
  Outcome, Issues, Issues-pure, Issues-bind, Issues-mono, Issues-send, continue-Outcome,
  sent-Issues_nil,
}
use secure_collab_app.Billing.Mas.{
  mas_admin_token, mas_get_user, mas_unlink_upstream, mas_deactivate_by_id,
}
use secure_collab_app.Billing.Mas.Sends.{
  mas_admin_token-Issues, mas_get_user-Issues, mas_unlink_upstream-Outcome,
  mas_deactivate_by_id-Issues,
}
use secure_collab_app.Billing.Http.{
  Request, Response, respond, error_body, deactivate_failed, deleted_body, known, authenticate,
}
use secure_collab_app.Billing.Account.{
  over, no_account, erased, Erasure, cancel_each, cancel_all, erase, answer_erasure, after_cancel,
  delete_account,
}

-- The cancellations of the subscriptions that are not over.
abbrev pub cancellations : List Subscription → List Command
cancellations found =
    map (λ (s : Subscription). cancel s.id) (filter (λ s. not (over s.status)) found)

-- What frees and deactivates the account of a user with these links.
abbrev pub erasure_plan : MasUser → List String → List Command
erasure_plan u links = map unlink links ++ (if u.deactivated_at then [] else deactivate u.id ∷ [])

module _ {W : Type 0} (svc : Services W) where
  cancel_each-Issues :
      (found : List Subscription) (n : ℕ)
      → Issues
          (cancellations found)
          (λ k. k ≡ n + length (cancellations found))
          (cancel_each svc found n)
  unfolding cancel_each
  cancel_each-Issues [] n = Issues-pure n (omega arith)
  cancel_each-Issues (s ∷ found) n = elim (Bool-cases (over s.status)) [
    | inl e ↦ rw (e, cancel_each) (cancel_each-Issues found n)
    | inr e ↦
        rw (e, cancel_each)
          (Issues-bind (λ k. k ≡ n + suc (length (cancellations found))) (cancel s.id ∷ []) _ _
            (λ _ _. Issues-mono _ _ (λ k h. omega arith) (cancel_each-Issues found (n + 1))) _
            (Issues-send (cancel s.id) (λ r. r) (svc.cancel_subscription s.id)))
  ]

  cancel_all-Outcome :
      (name : String) (found : List Subscription) (w : World W)
      → (svc.search_any (remove_all 39 name) 100 w.outside).0 ≡ ok found
      → Outcome w.sent
          (cancellations found)
          (λ k. k ≡ length (cancellations found))
          (cancel_all svc name w).0
          (cancel_all svc name w).1.sent
  unfolding cancel_all
  cancel_all-Outcome name found w e = rw e (
      (Issues-mono _ _ (λ k h. omega arith) (cancel_each-Issues found 0)).at
        (ask (svc.search_any (remove_all 39 name) 100) w).1)

  -- The reads of `erase`.
  pub record Account (name : String) (w : World W) : Type 0 where
    pub tok : String
    pub user : MasUser
    pub links : List String
    pub w1 : World W
    pub w2 : World W
    pub token_read : mas_admin_token svc w ≡ (ok tok, w1)
    pub user_read : mas_get_user svc tok name w1 ≡ (ok (some user), w2)
    pub links_read : (svc.get_links tok user.id w2.outside).0 ≡ body links

  deactivate_unless-Issues :
      (tok id : String) (gone : Bool) (n : ℕ)
      → Issues {W = W} {A = Erasure}
          (if gone then [] else deactivate id ∷ [])
          (λ e. e ≢ no_account)
          (if gone then pure (erased n) else do mas_deactivate_by_id svc tok id; pure (erased n))
  deactivate_unless-Issues tok id true n = Issues-pure (erased n) (λ e. cc)
  deactivate_unless-Issues tok id false n =
      Issues-bind _ (deactivate id ∷ []) [] _ (λ _ _. Issues-pure (erased n) (λ e. cc)) _
        (mas_deactivate_by_id-Issues svc tok id)

  erase-Outcome :
      (name : String) (w : World W) (a : Account name w)
      → Outcome w.sent
          (erasure_plan a.user a.links)
          (λ e. e ≢ no_account)
          (erase svc name w).0
          (erase svc name w).1.sent
  unfolding erase
  erase-Outcome name w a =
      rw
        (
          a.token_read,
          a.user_read,
          ← sent-Issues_nil _ w a.w1 a.tok (mas_admin_token-Issues svc) a.token_read,
          ← sent-Issues_nil _ a.w1 a.w2 (some a.user) (mas_get_user-Issues svc a.tok name)
              a.user_read,
        )
        (continue-Outcome _ _ _ _
          (λ n _. deactivate_unless-Issues a.tok a.user.id a.user.deactivated_at n) a.w2.sent
          (mas_unlink_upstream svc a.tok a.user.id a.w2).0
          (mas_unlink_upstream svc a.tok a.user.id a.w2).1
          (mas_unlink_upstream-Outcome svc a.tok a.user.id a.links a.w2 a.links_read))

  -- The caller is known, and Stripe's search has answered.
  pub record Known (env : Env) (req : Request) (w : World W) : Type 0 where
    pub name : String
    pub found : List Subscription
    pub w0 : World W
    pub caller_read : authenticate svc env req w ≡ (ok (known name), w0)
    pub search_read : (svc.search_any (remove_all 39 name) 100 w0.outside).0 ≡ ok found

  cancelled-Outcome :
      {env : Env} {req : Request} {w w1 : World W} (k : Known env req w) (r : Result ℕ)
      → cancel_all svc k.name k.w0 ≡ (r, w1)
      → Outcome k.w0.sent
          (cancellations k.found)
          (λ n. n ≡ length (cancellations k.found))
          r
          w1.sent
  cancelled-Outcome k r e = rw e at (cancel_all-Outcome k.name k.found k.w0 k.search_read)

  -- If the caller is known and one of the cancellations fails, a deletion answers `cancel_failed`
  -- with status 502, and has sent nothing but an initial part of the cancellations of the
  -- subscriptions that Stripe's search found and that are not over.
  pub delete_account-cancel_first :
      (env : Env) (req : Request) (w w1 : World W) (k : Known env req w) (e : String)
      → cancel_all svc k.name k.w0 ≡ (err e, w1)
      → (delete_account svc env req w ≡ (ok (respond 502 (error_body "cancel_failed")), w1))
        × ((done : List Command) × (w1.sent ≡ k.w0.sent ++ done)
            × Begins done (cancellations k.found))
  unfolding delete_account after_cancel
  delete_account-cancel_first env req w w1 k e failed =
      (rw (k.caller_read, failed), cancelled-Outcome k (err e) failed)

  -- How a deletion ends whose subscriptions were cancelled.
  abbrev pub Ends :
      List Command → List Command → List Command → Result Response → List Command → Type 0
  Ends start cancelled plan r sent =
      ((unlinked : ℕ) × (r ≡ ok (respond 200 (deleted_body (length cancelled) unlinked)))
        × (sent ≡ start ++ (cancelled ++ plan)))
      ⊎ ((done : List Command) × (r ≡ ok (respond 502 (deactivate_failed (length cancelled))))
          × (sent ≡ start ++ (cancelled ++ done))
          × Begins done plan)

  recovered-Ends :
      (start plan : List Command) (n : ℕ) (cancelled : List Command) (w1 : World W)
      (r : Result Erasure) (w2 : World W)
      → n ≡ length cancelled
      → w1.sent ≡ start ++ cancelled
      → Outcome w1.sent plan (λ e. e ≢ no_account) r w2.sent
      → Ends start cancelled plan
          (recover
            (continue r (λ e. pure (answer_erasure svc n e)) w2).0
            (λ _. pure (respond 502 (deactivate_failed n)))
            (continue r (λ e. pure (answer_erasure svc n e)) w2).1).0
          (recover
            (continue r (λ e. pure (answer_erasure svc n e)) w2).0
            (λ _. pure (respond 502 (deactivate_failed n)))
            (continue r (λ e. pure (answer_erasure svc n e)) w2).1).1.sent
  recovered-Ends start plan n cancelled w1 (ok no_account) w2 en es (same, found) =
      absurd (found refl)
  recovered-Ends start plan n cancelled w1 (ok (erased u)) w2 en es (same, found) =
      inl (u, rw en, same ∙ rw es (append_assoc start cancelled plan))
  recovered-Ends start plan n cancelled w1 (err e) w2 en es (done, same, part) =
      inr (done, rw en, same ∙ rw es (append_assoc start cancelled done), part)

  -- If the caller is known, the cancellations succeed and the account and its links are read, a
  -- deletion has sent the cancellation of every subscription found that is not over, and then either
  -- has unlinked each upstream identity and deactivated the account, unless it is so already, and
  -- answers 200, or answers 502 and has sent an initial part of these.
  pub delete_account-Ends :
      (env : Env) (req : Request) (w w1 : World W) (k : Known env req w) (n : ℕ)
      → cancel_all svc k.name k.w0 ≡ (ok n, w1)
      → (a : Account k.name w1)
      → Ends k.w0.sent
          (cancellations k.found)
          (erasure_plan a.user a.links)
          (delete_account svc env req w).0
          (delete_account svc env req w).1.sent
  unfolding delete_account after_cancel
  delete_account-Ends env req w w1 k n cancelled a =
      let (sent, counted) = cancelled-Outcome k (ok n) cancelled in
      rw (k.caller_read, cancelled)
        (recovered-Ends k.w0.sent (erasure_plan a.user a.links) n (cancellations k.found) w1
          (erase svc k.name w1).0 (erase svc k.name w1).1 counted sent (erase-Outcome k.name w1 a))

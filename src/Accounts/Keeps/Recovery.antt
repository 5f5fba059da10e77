-- ===== src/Accounts/Keeps/Recovery.antt =====
-- What the bootstrap of recovery, the check after a sign-in and the gate for the recovery key keep.
use secure_collab_app.Prelude.{ℕ, ◌+◌, ◌==◌, String, List, [], ◌∷◌, Option, some, none}
use secure_collab_app.Exec.{Result, ok, err, Exec}
use secure_collab_app.Accounts.State.{
  AccountSession, Session, RecoveryPrompt, save, error_prompt, Items, Runtime, App, truthy,
}
use secure_collab_app.Accounts.Storage.{load_accounts}
use secure_collab_app.Accounts.Sealing.{seal_data_key}
use secure_collab_app.Accounts.Recovery.{
  after_attempt, retry_in, retry_recovery_setup, unwrapped_by, or_secret, unlock_with_passkey,
  bootstrap_from, bootstrap_recovery, check_legacy, by_status, ensure_history_access,
  settled_status, submit_to, submit_recovery_key, recovery_bootstrap_delays, legacy_unsaved,
  account_for,
}
use secure_collab_app.Accounts.Keeps.{
  Holds, holds, held, Keeps, Stable, continue-Holds, choose-Holds, seal_data_key-Keeps,
}

module _ {Key Text : Type 0} (rt : Runtime Key Text)
    (P : List AccountSession → Option String → Items Text → Type 0) (st : Stable rt P) where
  prompt-Holds :
      (s : App Key Text) (p : Option RecoveryPrompt)
      → Holds rt P s
      → Holds rt P (record s { prompt = p })
  prompt-Holds s p h = holds _ (held rt P s h)

  after_attempt-Keeps :
      (r : Result String) (seed : ℕ) (retry : String → Exec (App Key Text) (Unit {0}))
      → ((e : String) → Keeps rt P (retry e))
      → Keeps rt P (after_attempt rt r seed retry)
  after_attempt-Keeps (ok key) seed retry h s p =
      let sealed = seal_data_key rt key seed s in
      let q = seal_data_key-Keeps rt P st key seed s p in
      continue-Holds rt P sealed.0 _ sealed.1 q (λ u. prompt-Holds sealed.1 (some (save key)) q)
  after_attempt-Keeps (err e) seed retry h s p = h e s p

  bootstrap_from-Keeps :
      (ms : Session) (delays : List ℕ) (n : ℕ) (e : String) (seed : ℕ)
      → Keeps rt P (bootstrap_from rt ms delays n e seed)
  unfolding bootstrap_from
  bootstrap_from-Keeps ms [] n e seed s p = prompt-Holds s (some (error_prompt e)) p
  bootstrap_from-Keeps ms (delay ∷ delays) n e seed s p =
      after_attempt-Keeps (ms.enable_recovery n) seed
        (λ e'. bootstrap_from rt ms delays (n + 1) e' seed)
        (λ e'. bootstrap_from-Keeps ms delays (n + 1) e' seed) s p

  pub bootstrap_recovery-Keeps :
      (ms : Session) (seed : ℕ) → Keeps rt P (bootstrap_recovery rt ms seed)
  unfolding bootstrap_recovery
  bootstrap_recovery-Keeps ms seed =
      bootstrap_from-Keeps ms recovery_bootstrap_delays 0 "Unknown error" seed

  retry_in-Keeps : (ms : Option Session) (seed : ℕ) → Keeps rt P (retry_in rt ms seed)
  retry_in-Keeps none seed s p = p
  retry_in-Keeps (some ms) seed s p = bootstrap_recovery-Keeps ms seed _ (prompt-Holds s none p)

  pub retry_recovery_setup-Keeps : (seed : ℕ) → Keeps rt P (retry_recovery_setup rt seed)
  unfolding retry_recovery_setup
  retry_recovery_setup-Keeps seed s p = retry_in-Keeps s.session seed s p

  check_legacy-Keeps : (ms : Session) → Keeps rt P (check_legacy rt ms)
  check_legacy-Keeps ms s p =
      let loaded = load_accounts rt.json s.items in
      let t : App Key Text = record s { items = loaded.1 } in
      let q : Holds rt P t = holds t (st.loads s.accounts s.active s.items (held rt P s p)) in
      choose-Holds rt P (legacy_unsaved rt (account_for rt (truthy ms.user_id) loaded.0)) _ _ t
        (holds _ (held rt P t q)) q

  by_status-Keeps :
      (ms : Session) (seed : ℕ) (status : String) → Keeps rt P (by_status rt ms seed status)
  by_status-Keeps ms seed status s p =
      choose-Holds rt P (status == "needs_bootstrap") _ _ s (bootstrap_recovery-Keeps ms seed s p) (
        choose-Holds rt P (status == "ready") _ _ s (check_legacy-Keeps ms s p)
          (choose-Holds rt P (status == "needs_recovery") _ _ s (holds _ (held rt P s p)) p))

  pub ensure_history_access-Keeps :
      (ms : Session) (seed : ℕ) → Keeps rt P (ensure_history_access rt ms seed)
  unfolding ensure_history_access
  ensure_history_access-Keeps ms seed s p =
      continue-Holds rt P (settled_status rt ms 30 0) _ s p
        (λ status. by_status-Keeps ms seed status s p)

  submit_to-Keeps :
      (ms : Option Session) (key : String) (seed : ℕ) → Keeps rt P (submit_to rt ms key seed)
  submit_to-Keeps none key seed s p = p
  submit_to-Keeps (some ms) key seed s p =
      let sealed = seal_data_key rt key seed s in
      let q = seal_data_key-Keeps rt P st key seed s p in
      continue-Holds rt P (ms.recover_with_key key) _ s p
        λ u. continue-Holds rt P sealed.0 _ sealed.1 q λ v. holds _ (held rt P sealed.1 q)

  pub submit_recovery_key-Keeps :
      (key : String) (seed : ℕ) → Keeps rt P (submit_recovery_key rt key seed)
  unfolding submit_recovery_key
  submit_recovery_key-Keeps key seed s p = submit_to-Keeps s.session key seed s p

  pub unlock_with_passkey-Keeps : (seed : ℕ) → Keeps rt P (unlock_with_passkey rt seed)
  unfolding unlock_with_passkey
  unlock_with_passkey-Keeps seed s p = continue-Holds rt P rt.prf_secret _ s p λ secret.
      continue-Holds rt P (unwrapped_by rt s.session secret) _ s p
        λ unwrapped. submit_recovery_key-Keeps (or_secret secret unwrapped) seed s p

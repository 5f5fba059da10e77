-- ===== src/Accounts/Recovery.antt =====
-- The recovery key: its bootstrap on a first device, the check after a sign-in, and the gate that asks
-- for it. Waits between attempts have no effect on the state.
use secure_collab_app.Prelude.{
  ℕ, zero, suc, ◌+◌, Bool, true, false, not, ◌&&◌, ◌==◌, String, List, [], ◌∷◌, Option, some, none,
  if◌then◌else◌,
}
use secure_collab_app.Exec.{Result, ok, err, Exec, pure, throw, lift, ◌>>=◌, ◌>>◌}
use secure_collab_app.AtRest.Passkeys.{load_wrap_record, has_enrolled_passkey, unwrap_recovery_key}
use secure_collab_app.Accounts.State.{
  Custody, by_passkey, manual, AccountSession, Session, RecoveryPrompt, save, speedup, verify,
  save_legacy_key, error_prompt, Runtime, App, update, get, swallow, truthy,
}
use secure_collab_app.Accounts.Storage.{load_accounts, find_account}
use secure_collab_app.Accounts.Sealing.{seal_data_key}

-- `RECOVERY_BOOTSTRAP_DELAYS_MS`
abbrev pub recovery_bootstrap_delays : List ℕ
recovery_bootstrap_delays = 0 ∷ 2000 ∷ 5000 ∷ []

abbrev is_by_passkey : Option Custody → Bool
is_by_passkey none = false
is_by_passkey (some by_passkey) = true
is_by_passkey (some manual) = false

abbrev is_saved : Option Bool → Bool
is_saved none = false
is_saved (some b) = b

abbrev pub or_secret : String → Option String → String
or_secret secret none = secret
or_secret secret (some recovery_key) = recovery_key

module _ {Key Text : Type 0} (rt : Runtime Key Text) where
  abbrev pub set_prompt : Option RecoveryPrompt → Exec (App Key Text) (Unit {0})
  set_prompt p = update (λ s. record s { prompt = p })

  -- What follows an attempt to enable recovery.
  abbrev pub after_attempt :
      Result String → ℕ → (String → Exec (App Key Text) (Unit {0})) → Exec (App Key Text) (Unit {0})
  after_attempt (ok recovery_key) seed retry = do
    seal_data_key rt recovery_key seed
    set_prompt (some (save recovery_key))
  after_attempt (err e) seed retry = retry e

  -- The loop of `bootstrapWithKey`, after `n` attempts of which the last error is told.
  unfoldable pub bootstrap_from : Session → List ℕ → ℕ → String → ℕ → Exec (App Key Text) (Unit {0})
  bootstrap_from ms [] n last_err seed = set_prompt (some (error_prompt last_err))
  bootstrap_from ms (delay ∷ delays) n last_err seed =
      after_attempt (ms.enable_recovery n) seed (λ e. bootstrap_from ms delays (n + 1) e seed)

  -- `bootstrapWithKey`, `bootstrapRecovery`
  unfoldable pub bootstrap_recovery : Session → ℕ → Exec (App Key Text) (Unit {0})
  unfolding bootstrap_from
  bootstrap_recovery ms seed = bootstrap_from ms recovery_bootstrap_delays 0 "Unknown error" seed

  abbrev pub retry_in : Option Session → ℕ → Exec (App Key Text) (Unit {0})
  retry_in none seed = pure tt
  retry_in (some ms) seed = do set_prompt none; bootstrap_recovery ms seed

  -- `retryRecoverySetup`
  unfoldable pub retry_recovery_setup : ℕ → Exec (App Key Text) (Unit {0})
  unfolding bootstrap_recovery
  retry_recovery_setup seed = do s ← get; retry_in s.session seed

  -- The status once it is no longer unknown, for so many more readings after `n`.
  unfoldable pub settled_status : Session → ℕ → ℕ → Result String
  settled_status ms zero n = ok "unknown"
  settled_status ms (suc k) n = elim (ms.recovery_status n) [
    | err e ↦ err e
    | ok status ↦ elim (status == "unknown") [
      | true ↦ settled_status ms k (n + 1)
      | false ↦ ok status
    ]
  ]

  abbrev pub legacy_unsaved : Option AccountSession → Bool
  legacy_unsaved none = false
  legacy_unsaved (some a) = is_by_passkey a.custody && not (is_saved a.key_saved)

  abbrev pub account_for : Option String → List AccountSession → Option AccountSession
  account_for none accounts = none
  account_for (some uid) accounts = find_account uid accounts

  -- The branch of a device that is ready.
  abbrev pub check_legacy : Session → Exec (App Key Text) (Unit {0})
  check_legacy ms = do
    s ← get
    let loaded = load_accounts rt.json s.items
    update (λ t. record t { items = loaded.1 })
    (if legacy_unsaved (account_for (truthy ms.user_id) loaded.0)
        then set_prompt (some save_legacy_key)
        else pure tt)

  abbrev or_false : Result Bool → Bool
  or_false (ok b) = b
  or_false (err e) = false

  abbrev enrolled : Session → Bool
  enrolled ms =
      if has_enrolled_passkey (load_wrap_record rt.wraps ms.account_data)
      then true
      else or_false ms.uses_passphrase

  abbrev pub by_status : Session → ℕ → String → Exec (App Key Text) (Unit {0})
  by_status ms seed status =
      if status == "needs_bootstrap"
      then bootstrap_recovery ms seed
      else (if status == "ready"
          then check_legacy ms
          else (if status == "needs_recovery"
              then update (λ s. record s { passkey_enrolled = enrolled ms; prompt = some verify })
              else pure tt))

  -- `ensureHistoryAccess`
  unfoldable pub ensure_history_access : Session → ℕ → Exec (App Key Text) (Unit {0})
  unfolding settled_status bootstrap_recovery load_accounts
  ensure_history_access ms seed =
      swallow (do status ← lift (settled_status ms 30 0); by_status ms seed status)

  abbrev pub after_recovery : String → Exec (App Key Text) (Unit {0})
  after_recovery key = update (λ s. record s {
    prompt = if s.passkey_available && not s.passkey_enrolled then some (speedup key) else none;
  })

  abbrev pub submit_to : Option Session → String → ℕ → Exec (App Key Text) (Unit {0})
  submit_to none key seed = throw "Not signed in"
  submit_to (some ms) key seed = do
    lift (ms.recover_with_key key)
    seal_data_key rt key seed
    after_recovery key

  -- `submitRecoveryKey`
  unfoldable pub submit_recovery_key : String → ℕ → Exec (App Key Text) (Unit {0})
  unfolding seal_data_key
  submit_recovery_key key seed = do s ← get; submit_to s.session key seed

  abbrev pub unwrapped_by : Option Session → String → Result (Option String)
  unwrapped_by none secret = ok none
  unwrapped_by (some ms) secret =
      unwrap_recovery_key rt.crypto (load_wrap_record rt.wraps ms.account_data) secret

  -- `unlockWithPasskey`
  unfoldable pub unlock_with_passkey : ℕ → Exec (App Key Text) (Unit {0})
  unfolding submit_recovery_key
  unlock_with_passkey seed = do
    secret ← lift rt.prf_secret
    s ← get
    unwrapped ← lift (unwrapped_by s.session secret)
    submit_recovery_key (or_secret secret unwrapped) seed

  abbrev regenerate_in : Option Session → Exec (App Key Text) String
  regenerate_in none = throw "Not signed in"
  regenerate_in (some ms) = lift ms.reset_recovery

  -- `regenerateRecoveryKey`
  unfoldable pub regenerate_recovery_key : Exec (App Key Text) String
  regenerate_recovery_key = do s ← get; regenerate_in s.session

-- ===== src/Accounts/Restore.antt =====
-- The restore of a stored session: at the start of the app, with the device's key, and by an unlock
-- with the recovery key or a passkey.
use secure_collab_app.Prelude.{
  ℕ, Bool, true, false, ◌&&◌, String, List, [], ◌∷◌, Option, some, none, if◌then◌else◌,
}
use secure_collab_app.Exec.{Result, ok, err, Exec, pure, throw, lift, attempt, ◌>>=◌, ◌>>◌}
use secure_collab_app.AtRest.Keys.{
  AtRestKeys, decrypt_string, unwrap_data_key, derive_at_rest_keys,
  derive_at_rest_keys_from_data_key,
}
use secure_collab_app.AtRest.Passkeys.{parse_wrap_record, unwrap_recovery_key}
use secure_collab_app.AtRest.DeviceKey.{get_device_key}
use secure_collab_app.AuthErrors.{is_session_rejected}
use secure_collab_app.Accounts.State.{
  by_passkey, AccountSession, WorkspaceEntry, Session, unlock, Runtime, App, update, get, swallow,
  on_device, truthy,
}
use secure_collab_app.Accounts.Storage.{
  load_accounts, load_active_account_id, save_accounts, clear_workspaces, load_workspaces,
  find_account, is_text, first_id, without, set_active, set_workspaces, parse_workspace_rooms,
}
use secure_collab_app.Accounts.Recovery.{ensure_history_access, or_secret}

module _ {Key Text : Type 0} (rt : Runtime Key Text) where
  -- `restoreSession`, of an account with this blob
  unfoldable pub restore_session : AccountSession → Option String → Option String → Result Session
  restore_session account blob passphrase = elim (truthy blob) [
    | none ↦ err "restoreSession: missing session blob"
    | some b ↦ elim (rt.restore account.homeserver_url b passphrase) [
      | err e ↦ err e
      | ok ms ↦ elim ms.initial_sync [ err e ↦ err e | ok u ↦ ok ms ]
    ]
  ]

  abbrev pub show_session : Session → Exec (App Key Text) (Unit {0})
  show_session ms = update (λ s. record s { session = some ms })

  abbrev pub set_loading : Bool → Exec (App Key Text) (Unit {0})
  set_loading b = update (λ s. record s { loading = b })

  abbrev pub set_error : Option String → Exec (App Key Text) (Unit {0})
  set_error e = update (λ s. record s { error = e })

  abbrev pub parsed_rooms : Option (List WorkspaceEntry) → Result (List WorkspaceEntry)
  parsed_rooms none = err "JSON.parse"
  parsed_rooms (some entries) = ok entries

  abbrev pub listed_rooms : Session → Exec (App Key Text) (List WorkspaceEntry)
  listed_rooms ms = do
    rooms_json ← lift ms.list_rooms
    lift (parsed_rooms (parse_workspace_rooms rt.json rt.now rooms_json))

  abbrev pub set_listed : String → List WorkspaceEntry → Exec (App Key Text) (Unit {0})
  set_listed id [] = pure tt
  set_listed id (e ∷ es) = set_workspaces rt id (e ∷ es)

  -- The workspaces of the server, kept as they were where it has none to tell of.
  abbrev pub refresh_list : String → Session → Exec (App Key Text) (Unit {0})
  refresh_list id ms = swallow (do entries ← listed_rooms ms; set_listed id entries)

  abbrev pub publish : AtRestKeys Key → Exec (App Key Text) (Unit {0})
  publish keys =
      update (λ s. record s { at_rest_keys = some keys; snapshot_key = some keys.snapshot_key })

  abbrev pub keep_data_key : String → Exec (App Key Text) (Unit {0})
  keep_data_key data_key = update (λ s. record s { data_key = some data_key })

  abbrev pub device_restore_with :
      AccountSession → String → String → Option Key → Exec (App Key Text) Bool
  device_restore_with account wrap secrets none = pure false
  device_restore_with account wrap secrets (some device_key) = do
    data_key ← lift (decrypt_string rt.crypto device_key wrap)
    keys ← lift (derive_at_rest_keys_from_data_key rt.crypto data_key)
    blob ← lift (decrypt_string rt.crypto keys.token_key secrets)
    keep_data_key data_key
    publish keys
    ms ← lift (restore_session account (some blob) (some keys.store_passphrase))
    show_session ms
    set_loading false
    refresh_list account.user_id ms
    pure true

  abbrev pub device_restore :
      AccountSession → Option String → Option String → Exec (App Key Text) Bool
  device_restore account none secrets = pure false
  device_restore account (some wrap) none = pure false
  device_restore account (some wrap) (some secrets) =
      attempt
        (do
          device_key ← on_device get_device_key
          device_restore_with account wrap secrets device_key)
        (λ e. pure false)

  -- `restoreWithDeviceKey`
  unfoldable pub restore_with_device_key : AccountSession → Exec (App Key Text) Bool
  unfolding restore_session set_workspaces
  restore_with_device_key account =
      device_restore account (truthy account.device_key_wrap) (truthy account.secrets)

  -- The keys that a secret gives for an account, with or without an envelope.
  abbrev pub unlocked_keys : String → Option String → Exec (App Key Text) (AtRestKeys Key)
  unlocked_keys secret none = lift (derive_at_rest_keys rt.crypto secret)
  unlocked_keys secret (some wrap) = do
    data_key ← lift (unwrap_data_key rt.crypto secret wrap)
    keep_data_key data_key
    lift (derive_at_rest_keys_from_data_key rt.crypto data_key)

  abbrev pub unlock_account :
      String → AccountSession → Option String → Exec (App Key Text) (Unit {0})
  unlock_account secret account none = throw "No encrypted session awaiting unlock"
  unlock_account secret account (some secrets) = do
    keys ← unlocked_keys secret (truthy account.data_key_wrap)
    blob ← lift (decrypt_string rt.crypto keys.token_key secrets)
    publish keys
    ms ← lift (restore_session account (some blob) (some keys.store_passphrase))
    show_session ms
    lift (ms.recover_with_key secret)
    update (λ s. record s { pending_unlock = none; prompt = none; loading = false })
    refresh_list account.user_id ms

  abbrev pub unlock_pending : String → Option AccountSession → Exec (App Key Text) (Unit {0})
  unlock_pending secret none = throw "No encrypted session awaiting unlock"
  unlock_pending secret (some account) = unlock_account secret account (truthy account.secrets)

  -- `unlockAndRestore`, with one refresh of the workspaces after it
  unfoldable pub unlock_and_restore : String → Exec (App Key Text) (Unit {0})
  unfolding restore_session set_workspaces
  unlock_and_restore secret = do s ← get; unlock_pending secret s.pending_unlock

  abbrev pub local_wrap : Option AccountSession → Option String
  local_wrap none = none
  local_wrap (some a) = a.passkey_wrap

  -- `unlockSessionWithPasskey`
  unfoldable pub unlock_session_with_passkey : Exec (App Key Text) (Unit {0})
  unfolding unlock_and_restore
  unlock_session_with_passkey = do
    update (λ s. record s { custody = by_passkey })
    secret ← lift rt.prf_secret
    s ← get
    unwrapped ← lift (
        unwrap_recovery_key rt.crypto (parse_wrap_record rt.wraps (local_wrap s.pending_unlock))
          secret)
    unlock_and_restore (or_secret secret unwrapped)
    update (λ t. record t { passkey_enrolled = true })

  -- What a rejected restore does: the account and its workspaces go.
  abbrev pub drop_account : String → List AccountSession → Exec (App Key Text) (Unit {0})
  drop_account id accounts = update (λ s.
      let kept = without id accounts in
      let items = clear_workspaces id (save_accounts rt.json kept s.items) in
      record s {
        accounts = kept;
        items = items;
        workspaces = load_workspaces rt.json (first_id kept) items;
        error = some "Session expired. Please sign in again.";
      })

  abbrev pub after_failure :
      AccountSession → List AccountSession → String → Exec (App Key Text) (Unit {0})
  after_failure account accounts e =
      if is_session_rejected rt.errors e
      then (do
        drop_account account.user_id accounts
        set_active (first_id (without account.user_id accounts)))
      else set_error (some "Could not reach the homeserver. Check your connection and reload.")

  -- The restore of a plaintext session.
  abbrev pub plain_restore : AccountSession → ℕ → Exec (App Key Text) (Unit {0})
  plain_restore account seed = do
    ms ← lift (restore_session account account.matrix_session_data none)
    show_session ms
    ensure_history_access rt ms seed
    refresh_list account.user_id ms

  abbrev pub ask_unlock : AccountSession → Exec (App Key Text) (Unit {0})
  ask_unlock account = update (λ s. record s {
    pending_unlock = some account;
    prompt = some (unlock account.custody);
    loading = false;
  })

  abbrev pub unless_done : AccountSession → Bool → Exec (App Key Text) (Unit {0})
  unless_done account true = pure tt
  unless_done account false = ask_unlock account

  abbrev pub restore_account :
      AccountSession → List AccountSession → ℕ → Exec (App Key Text) (Unit {0})
  restore_account account accounts seed =
      if account.v2 && is_text (truthy account.secrets)
      then (do done ← restore_with_device_key account; unless_done account done)
      else (if is_text (truthy account.matrix_session_data)
          then (do
            set_loading true
            attempt (plain_restore account seed) (after_failure account accounts)
            set_loading false)
          else pure tt)

  abbrev pub restore_found :
      Option AccountSession → List AccountSession → ℕ → Exec (App Key Text) (Unit {0})
  restore_found none accounts seed = pure tt
  restore_found (some account) accounts seed = restore_account account accounts seed

  abbrev pub chosen : Option String → List AccountSession → Option AccountSession
  chosen none accounts = none
  chosen (some id) accounts = find_account id accounts

  -- The effect that restores a session once, when the app starts.
  unfoldable pub auto_restore : ℕ → Exec (App Key Text) (Unit {0})
  unfolding load_accounts load_active_account_id restore_with_device_key
  auto_restore seed = do
    s ← get
    let loaded = load_accounts rt.json s.items
    update (λ t. record t { items = loaded.1 })
    restore_found (chosen (load_active_account_id loaded.0 loaded.1) loaded.0) loaded.0 seed

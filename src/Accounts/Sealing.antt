-- ===== src/Accounts/Sealing.antt =====
-- What seals the account's entry: the wraps of the data key, the session blob, and what is known of
-- the recovery key. A number stands for the random bytes, those of a later call for the next one.
use secure_collab_app.Prelude.{ℕ, ◌+◌, true, String, Option, some, none, if◌then◌else◌, is_empty}
use secure_collab_app.Exec.{ok, Exec, pure, lift, ◌>>=◌, ◌>>◌}
use secure_collab_app.AtRest.Keys.{
  AtRestKeys, encrypt_string, wrap_data_key, derive_at_rest_keys_from_data_key,
}
use secure_collab_app.AtRest.DeviceKey.{get_or_create_device_key}
use secure_collab_app.Accounts.State.{
  Custody, by_passkey, AccountSession, Session, speedup, Runtime, App, update, get, swallow,
  on_device, truthy,
}
use secure_collab_app.Accounts.Storage.{set_accounts, patch_account}

-- `matrixSessionRef.current?.userId?.()`, if it is not empty
abbrev pub session_user : Option Session → Option String
session_user none = none
session_user (some ms) = truthy ms.user_id

-- `{ ...a, v: 2, custody, secrets, matrixSessionData: undefined }`
abbrev pub with_secrets : Custody → String → AccountSession → AccountSession
with_secrets custody secrets a = record a {
  v2 = true;
  custody = some custody;
  secrets = some secrets;
  matrix_session_data = none;
}

-- The patch of `sealDataKey`.
abbrev pub with_wraps : Custody → String → String → Option String → AccountSession → AccountSession
with_wraps custody data_key_wrap device_key_wrap none a = record a {
  v2 = true;
  custody = some custody;
  data_key_wrap = some data_key_wrap;
  device_key_wrap = some device_key_wrap;
}
with_wraps custody data_key_wrap device_key_wrap (some secrets) a = record a {
  v2 = true;
  custody = some custody;
  data_key_wrap = some data_key_wrap;
  device_key_wrap = some device_key_wrap;
  secrets = some secrets;
  matrix_session_data = none;
}

module _ {Key Text : Type 0} (rt : Runtime Key Text) where
  abbrev pub publish_keys : AtRestKeys Key → Exec (App Key Text) (Unit {0})
  publish_keys keys =
      update (λ s. record s { at_rest_keys = some keys; snapshot_key = some keys.snapshot_key })

  abbrev pub sealed_blob : AtRestKeys Key → ℕ → Option String → Exec (App Key Text) (Option String)
  sealed_blob keys seed none = pure none
  sealed_blob keys seed (some blob) = do
    secrets ← lift (encrypt_string rt.crypto keys.token_key seed blob)
    pure (some secrets)

  abbrev pub session_blob : Option Session → Option String
  session_blob none = none
  session_blob (some ms) = truthy (some ms.session_data)

  abbrev pub write_wraps :
      AtRestKeys Key → ℕ → String → String → Option String → Exec (App Key Text) (Unit {0})
  write_wraps keys seed data_key_wrap device_key_wrap none = pure tt
  write_wraps keys seed data_key_wrap device_key_wrap (some uid) = do
    s ← get
    secrets ← sealed_blob keys seed (session_blob s.session)
    set_accounts rt (patch_account uid (with_wraps s.custody data_key_wrap device_key_wrap secrets))

  -- The `try` block of `sealDataKey`.
  abbrev pub seal_with : String → ℕ → String → Exec (App Key Text) (Unit {0})
  seal_with master_secret seed data_key = do
    device_key ← on_device (get_or_create_device_key rt.generated_key)
    data_key_wrap ← lift (wrap_data_key rt.crypto master_secret seed data_key)
    device_key_wrap ← lift (encrypt_string rt.crypto device_key (seed + 1) data_key)
    keys ← lift (derive_at_rest_keys_from_data_key rt.crypto data_key)
    publish_keys keys
    s ← get
    write_wraps keys (seed + 2) data_key_wrap device_key_wrap (session_user s.session)

  abbrev pub seal_if : String → ℕ → Option String → Exec (App Key Text) (Unit {0})
  seal_if master_secret seed none = pure tt
  seal_if master_secret seed (some data_key) = swallow (seal_with master_secret seed data_key)

  -- `sealDataKey`
  unfoldable pub seal_data_key : String → ℕ → Exec (App Key Text) (Unit {0})
  unfolding set_accounts patch_account
  seal_data_key master_secret seed s =
      if is_empty master_secret
      then (ok tt, s)
      else seal_if master_secret seed (truthy s.data_key) s

  abbrev pub patch_user :
      (AccountSession → AccountSession) → Option String → Exec (App Key Text) (Unit {0})
  patch_user f none = pure tt
  patch_user f (some uid) = set_accounts rt (patch_account uid f)

  -- `markKeySaved`
  unfoldable pub mark_key_saved : Exec (App Key Text) (Unit {0})
  unfolding set_accounts patch_account
  mark_key_saved = do
    s ← get
    patch_user (λ a. record a { key_saved = some true }) (session_user s.session)

  -- `persistPasskeyWrap`
  unfoldable pub persist_passkey_wrap : String → Exec (App Key Text) (Unit {0})
  unfolding set_accounts patch_account
  persist_passkey_wrap json = do
    s ← get
    patch_user (λ a. record a { passkey_wrap = some json; custody = some by_passkey })
        (session_user s.session)

  -- `offerPasskeySpeedup`
  unfoldable pub offer_passkey_speedup : String → Exec (App Key Text) (Unit {0})
  offer_passkey_speedup recovery_key =
      update (λ s. record s {
        prompt = if s.passkey_available then some (speedup recovery_key) else none;
      })

  -- `confirmKeySaved`
  unfoldable pub confirm_key_saved : String → ℕ → Exec (App Key Text) (Unit {0})
  unfolding mark_key_saved seal_data_key offer_passkey_speedup
  confirm_key_saved recovery_key seed = do
    mark_key_saved
    seal_data_key recovery_key seed
    offer_passkey_speedup recovery_key

  abbrev pub persist_by :
      Option (AtRestKeys Key) → String → String → ℕ → Exec (App Key Text) (Unit {0})
  persist_by none uid blob seed =
      set_accounts rt (patch_account uid (λ a. record a { matrix_session_data = some blob }))
  persist_by (some keys) uid blob seed = swallow (do
    secrets ← lift (encrypt_string rt.crypto keys.token_key seed blob)
    s ← get
    set_accounts rt (patch_account uid (with_secrets s.custody secrets)))

  -- `persistSessionBlob`
  unfoldable pub persist_session_blob : String → String → ℕ → Exec (App Key Text) (Unit {0})
  unfolding set_accounts patch_account
  persist_session_blob uid blob seed s =
      if is_empty blob then (ok tt, s) else persist_by s.at_rest_keys uid blob seed s

  abbrev pub persist_as : Session → ℕ → Option String → Exec (App Key Text) (Unit {0})
  persist_as ms seed none = pure tt
  persist_as ms seed (some uid) = persist_session_blob uid ms.session_data seed

  abbrev pub persist_of : Option Session → ℕ → Exec (App Key Text) (Unit {0})
  persist_of none seed = pure tt
  persist_of (some ms) seed = persist_as ms seed (truthy ms.user_id)

  -- The effect that keeps the stored blob current, after the session has changed.
  unfoldable pub session_effect : ℕ → Exec (App Key Text) (Unit {0})
  unfolding persist_session_blob
  session_effect seed = do s ← get; persist_of s.session seed

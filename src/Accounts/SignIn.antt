-- ===== src/Accounts/SignIn.antt =====
-- Signing in, up and out, switching and removing accounts, and the reset of the app.
use secure_collab_app.Prelude.{
  ℕ, ◌+◌, true, false, ◌==◌, String, [], ◌∷◌, ◌++◌, Option, some, none, if◌then◌else◌, concat, trim,
}
use secure_collab_app.Exec.{Result, Exec, pure, throw, lift, attempt, ◌>>=◌, ◌>>◌}
use secure_collab_app.AtRest.Keys.{
  AtRestKeys, encrypt_string, generate_data_key, derive_store_passphrase_from_data_key,
}
use secure_collab_app.StoreReaper.{retire_store}
use secure_collab_app.Accounts.State.{
  Custody, AccountSession, Session, Runtime, App, update, get, truthy,
}
use secure_collab_app.Accounts.Storage.{
  save_accounts, find_account, without, set_active, set_workspaces,
}
use secure_collab_app.Accounts.Recovery.{ensure_history_access}
use secure_collab_app.Accounts.Restore.{listed_rooms, set_loading, set_error}

abbrev or_previous {ℓ} : {A : Type ℓ} → Option A → Option A → Option A
or_previous (some a) previous = some a
or_previous none previous = previous

-- The entry of a fresh sign-in.
abbrev pub plain_entry : String → String → String → String → Option String → AccountSession
plain_entry homeserver uid username blob store_name = record {
  homeserver_url = homeserver;
  user_id = uid;
  username = username;
  v2 = false;
  device_key_wrap = none;
  data_key_wrap = none;
  custody = none;
  key_saved = none;
  passkey_wrap = none;
  store_name = store_name;
  matrix_session_data = some blob;
  secrets = none;
}

abbrev pub sealed_entry : AccountSession → Custody → String → AccountSession
sealed_entry a custody secrets = record a {
  v2 = true;
  custody = some custody;
  matrix_session_data = none;
  secrets = some secrets;
}

-- What is carried forward from the entry before.
abbrev pub merged : AccountSession → Option AccountSession → AccountSession
merged a none = a
merged a (some previous) = record a {
  key_saved = or_previous a.key_saved previous.key_saved;
  passkey_wrap = or_previous a.passkey_wrap previous.passkey_wrap;
  store_name = or_previous a.store_name previous.store_name;
}

-- The store that an entry replaces.
abbrev replaced_by : Option String → Option String → Option String
replaced_by none new = none
replaced_by (some old) none = none
replaced_by (some old) (some new) = if old == new then none else some old

abbrev pub replaced_store : Option AccountSession → AccountSession → Option String
replaced_store none a = none
replaced_store (some previous) a = replaced_by (truthy previous.store_name) (truthy a.store_name)

module _ {Key Text : Type 0} (rt : Runtime Key Text) where
  abbrev pub retire : Option String → App Key Text → App Key Text
  retire name s = record s { reaper = retire_store rt.reaper name s.reaper }

  -- The updater of `completeSignIn`.
  abbrev pub add_entry : AccountSession → App Key Text → App Key Text
  add_entry a s =
      let previous = find_account a.user_id s.accounts in
      let entry = merged a previous in
      let accounts = without a.user_id s.accounts ++ entry ∷ [] in
      retire (replaced_store previous entry)
        (record s { accounts = accounts; items = save_accounts rt.json accounts s.items })

  abbrev pub entry_for :
      Session
      → String
      → String
      → String
      → Option (AtRestKeys Key)
      → ℕ
      → Exec (App Key Text) AccountSession
  entry_for ms uid homeserver username none seed =
      pure (
        plain_entry homeserver uid username ms.session_data (rt.json.store_name_of ms.session_data))
  entry_for ms uid homeserver username (some keys) seed = do
    secrets ← lift (encrypt_string rt.crypto keys.token_key seed ms.session_data)
    s ← get
    pure (
        sealed_entry
          (plain_entry homeserver uid username ms.session_data
            (rt.json.store_name_of ms.session_data))
          s.custody secrets)

  abbrev pub user_or_hint : Option String → String → String
  user_or_hint none hint = concat "@" (concat hint ":unknown")
  user_or_hint (some uid) hint = uid

  -- `completeSignIn`
  unfoldable pub complete_sign_in : Session → String → String → ℕ → Exec (App Key Text) (Unit {0})
  unfolding set_active set_workspaces
  complete_sign_in ms homeserver hint seed = do
    let uid = user_or_hint ms.user_id hint
    s ← get
    entry ← entry_for ms uid homeserver hint s.at_rest_keys seed
    update (add_entry entry)
    set_active (some uid)
    update (λ t. record t { session = some ms })
    entries ← listed_rooms rt ms
    set_workspaces rt uid entries
    ensure_history_access rt ms (seed + 1)

  -- `setError(msg)` and a new throw, then `setLoading(false)`
  abbrev pub reporting : Exec (App Key Text) (Unit {0}) → Exec (App Key Text) (Unit {0})
  reporting m s =
      let r = attempt m (λ e. set_error rt (some e) >> throw e) s in
      (r.0, record r.1 { loading = false })

  -- With a fresh data key, an encrypted store.
  abbrev pub enter :
      (String → Result Session) → String → String → ℕ → Exec (App Key Text) (Unit {0})
  enter build homeserver user seed = do
    let data_key = generate_data_key rt.crypto seed
    update (λ s. record s { data_key = some data_key })
    passphrase ← lift (derive_store_passphrase_from_data_key rt.crypto data_key)
    ms ← lift (build passphrase)
    lift ms.initial_sync
    complete_sign_in ms homeserver user (seed + 1)

  -- `signIn`
  unfoldable pub sign_in : String → String → String → ℕ → Exec (App Key Text) (Unit {0})
  unfolding complete_sign_in
  sign_in homeserver user password seed = do
    set_loading rt true
    set_error rt none
    reporting (enter (rt.login homeserver user password) homeserver user seed)

  abbrev pub trimmed : Option String → Option String
  trimmed none = none
  trimmed (some token) = truthy (some (trim token))

  -- `signUp`
  unfoldable pub sign_up :
      String → String → String → Option String → ℕ → Exec (App Key Text) (Unit {0})
  unfolding complete_sign_in
  sign_up homeserver user password token seed = do
    set_loading rt true
    set_error rt none
    reporting (
        enter (λ passphrase. rt.register homeserver user password passphrase (trimmed token))
          homeserver user seed)

-- ===== src/Accounts/Tests.antt =====
-- The theorems about the accounts at a browser that keeps its pool and hides nothing.
use secure_collab_app.Prelude.{ℕ, ◌≡◌, ◌⊎◌, refl, true, false, String, List, [], ◌∷◌, none, some}
use secure_collab_app.Exec.{ok, err}
use secure_collab_app.StoreReaper
use secure_collab_app.AuthErrors.{is_session_rejected}
use secure_collab_app.AtRest.Keys.{
  AtRestKeys, hkdf_bits, derive_aes_key, wrap_key_for, derive_at_rest_keys_from_data_key,
}
use secure_collab_app.AtRest.Base64.{b64url_encode}
use secure_collab_app.AtRest.DeviceKey.{get_or_create_device_key}
use secure_collab_app.AtRest.Sample.{
  sample_crypto, sample_crypto-IsWebCrypto, sample_crypto-IsAesKey,
}
use secure_collab_app.Accounts.State.{manual, AccountSession, Session, Items, Json, Runtime, App}
use secure_collab_app.Accounts.Storage.{load_accounts, find_account, without}
use secure_collab_app.Accounts.Sealing.{seal_data_key}
use secure_collab_app.Accounts.Restore.{
  restore_session, restore_with_device_key, unlock_and_restore, auto_restore,
}
use secure_collab_app.Accounts.Recovery.{recovery_bootstrap_delays, bootstrap_recovery}
use secure_collab_app.Accounts.Pool.{KeepsPool}
use secure_collab_app.Accounts.Stored.{IsPool}
use secure_collab_app.Accounts.Steps.{
  AppStep, signs_in, confirms_key, switches, signs_out, app_steps, app_steps-IsPool,
}
use secure_collab_app.Accounts.Unlocked.{Sealable, sealed_account, seal_data_key_account}
use secure_collab_app.Accounts.Unlocked.Restores.{
  Restored, seal_data_key-device, seal_data_key-secret,
}
use secure_collab_app.Accounts.Bootstrap.{EndsFrom, bootstrap_recovery-EndsFrom}
use secure_collab_app.Accounts.Rejected.{user_ids, starting, auto_restore-rejected}

-- The JSON text of a pool is the pool, and no other text is kept.
abbrev sample_json : Json (List AccountSession)
sample_json = record {
  truthy = λ t. true;
  parse_accounts = λ t. some t;
  stringify_accounts = λ accounts. accounts;
  parse_legacy = λ t. none;
  parse_workspaces = λ t. some [];
  stringify_workspaces = λ entries. [];
  parse_rooms = λ t. some [];
  store_name_of = λ blob. some "tw-ann-1";
}

sample_json-KeepsPool : KeepsPool sample_json
sample_json-KeepsPool = record { truthy = λ accounts. refl; parses = λ accounts. refl }

abbrev ann : Session
ann = record {
  user_id = some "@ann:x";
  session_data = "blob";
  initial_sync = ok tt;
  list_rooms = ok "[]";
  recovery_status = λ n. ok "ready";
  enable_recovery = λ n. ok "m";
  recover_with_key = λ key. ok tt;
  reset_recovery = ok "m2";
  uses_passphrase = ok false;
  create_room = λ name. ok "!r:x";
  join_room = λ id. ok tt;
  account_data = record { items = []; readable = true; writable = true };
}

abbrev sample_runtime : Runtime ℕ (List AccountSession)
sample_runtime = record {
  crypto = sample_crypto;
  generated_key = ok 8;
  json = sample_json;
  wraps = record { parse = λ t. none; stringify = λ r. "" };
  reaper = record {
    parse = λ t. some [];
    stringify = λ names. "";
    outcome = λ n name. StoreReaper.succeeds;
  };
  errors = record { lower = λ t. t; names_status = λ t. false };
  now = 0;
  restore = λ url blob passphrase. ok ann;
  login = λ url user password passphrase. ok ann;
  register = λ url user password passphrase token. ok ann;
  prf_secret = ok "p";
}

abbrev no_items : Items (List AccountSession)
no_items = record {
  accounts = none;
  legacy_session = none;
  legacy_workspaces = none;
  workspaces = [];
  active_account = none;
}

abbrev signed_out : App ℕ (List AccountSession)
signed_out = record {
  accounts = [];
  active = none;
  session = none;
  workspaces = [];
  loading = false;
  error = none;
  prompt = none;
  at_rest_keys = none;
  snapshot_key = none;
  pending_unlock = none;
  custody = manual;
  data_key = none;
  passkey_available = false;
  passkey_enrolled = false;
  items = no_items;
  reaper = record { item = none; readable = true; writable = true; attempts = [] };
  device = record { opens = true; reads = true; commits = true; stored = none };
}

abbrev an_evening : List AppStep
an_evening = signs_in "h" "ann" "pw" 1 ∷ confirms_key "m" 2 ∷ switches "@ann:x" 3 ∷ signs_out ∷ []

signed_out-IsPool : IsPool sample_json signed_out.accounts signed_out.active signed_out.items
unfolding load_accounts
signed_out-IsPool = (tt, refl, refl)

app_steps-IsPool_example :
    IsPool sample_json
      (app_steps sample_runtime an_evening signed_out).accounts
      (app_steps sample_runtime an_evening signed_out).active
      (app_steps sample_runtime an_evening signed_out).items
app_steps-IsPool_example =
    app_steps-IsPool sample_runtime sample_json-KeepsPool an_evening signed_out signed_out-IsPool

abbrev ann_entry : AccountSession
ann_entry = record {
  homeserver_url = "h";
  user_id = "@ann:x";
  username = "ann";
  v2 = false;
  device_key_wrap = none;
  data_key_wrap = none;
  custody = none;
  key_saved = none;
  passkey_wrap = none;
  store_name = some "tw-ann-1";
  matrix_session_data = some "blob";
  secrets = none;
}

abbrev signed_in : App ℕ (List AccountSession)
signed_in = record signed_out {
  accounts = ann_entry ∷ [];
  active = some "@ann:x";
  session = some ann;
  data_key = some "k";
}

abbrev ann_keys : AtRestKeys ℕ
ann_keys = record {
  store_passphrase = b64url_encode sample_crypto.base64 (222 ∷ []);
  token_key = 222;
  snapshot_key = 226;
}

ann_sealable : Sealable sample_runtime sample_crypto-IsWebCrypto "m" signed_in
unfolding wrap_key_for derive_aes_key hkdf_bits derive_at_rest_keys_from_data_key
    get_or_create_device_key
ann_sealable = record {
  session = ann;
  uid = "@ann:x";
  data_key = "k";
  device_key = 8;
  keys = ann_keys;
  account = ann_entry;
  master = record { key = 209; derives = refl; aes = sample_crypto-IsAesKey 209 };
  device_aes = sample_crypto-IsAesKey 8;
  token_aes = sample_crypto-IsAesKey 222;
  has_secret = refl;
  in_memory = refl;
  signed_in = refl;
  user = refl;
  in_pool = refl;
  blob = refl;
  on_device = refl;
  derived = refl;
  plain_key = refl;
  plain_blob = refl;
}

abbrev sealed_in : App ℕ (List AccountSession)
sealed_in = (seal_data_key sample_runtime "m" 5 signed_in).1

-- The entry that the sealing leaves.
abbrev ann_sealed : AccountSession
ann_sealed = sealed_account sample_runtime sample_crypto-IsWebCrypto "m" signed_in ann_sealable 5

ann_in_pool : find_account "@ann:x" sealed_in.accounts ≡ some ann_sealed
unfolding ann_sealable
ann_in_pool =
    seal_data_key_account sample_runtime sample_crypto-IsWebCrypto "m" signed_in ann_sealable 5

ann_opens :
    restore_session sample_runtime ann_sealed (some "blob") (some ann_keys.store_passphrase)
    ≡ ok ann
unfolding restore_session
ann_opens = refl

-- The next start of the app, on what is kept of the session before.
abbrev reloaded : App ℕ (List AccountSession)
reloaded = record signed_out { accounts = sealed_in.accounts; device = sealed_in.device }

seal_data_key-device_example :
    ((restore_with_device_key sample_runtime ann_sealed reloaded).0 ≡ ok true)
    × Restored sample_runtime sample_crypto-IsWebCrypto "m" signed_in ann_sealable 5
        (restore_with_device_key sample_runtime ann_sealed reloaded).1
        ann
unfolding ann_sealable
seal_data_key-device_example =
    seal_data_key-device sample_runtime sample_crypto-IsWebCrypto "m" signed_in ann_sealable 5
      ann_sealed reloaded ann ann_in_pool refl ann_opens

abbrev asked : App ℕ (List AccountSession)
asked = record signed_out { pending_unlock = some ann_sealed }

seal_data_key-secret_example :
    ((unlock_and_restore sample_runtime "m" asked).0 ≡ ok tt)
    × Restored sample_runtime sample_crypto-IsWebCrypto "m" signed_in ann_sealable 5
        (unlock_and_restore sample_runtime "m" asked).1
        ann
unfolding ann_sealable
seal_data_key-secret_example =
    seal_data_key-secret sample_runtime sample_crypto-IsWebCrypto "m" signed_in ann_sealable 5
      ann_sealed asked ann ann_in_pool refl ann_opens refl

abbrev started : App ℕ (List AccountSession)
started = record signed_out {
  accounts = ann_entry ∷ [];
  active = some "@ann:x";
  items = record no_items { accounts = some (ann_entry ∷ []) };
}

auto_restore-rejected_example :
    ((user_ids (auto_restore sample_runtime 1 started).1.accounts ≡ user_ids started.accounts)
      × ((auto_restore sample_runtime 1 started).1.active ≡ started.active))
    ⊎ ((account : AccountSession) × (e : String) × (starting sample_runtime started.items
          ≡ some account)
        × ((auto_restore sample_runtime 1 started).1.accounts
            ≡ without account.user_id (load_accounts sample_runtime.json started.items).0)
        × (restore_session sample_runtime account account.matrix_session_data none ≡ err e)
        × (is_session_rejected sample_runtime.errors e ≡ true))
auto_restore-rejected_example = auto_restore-rejected sample_runtime 1 started

bootstrap_recovery-EndsFrom_example :
    EndsFrom sample_runtime ann 5 signed_in 0 recovery_bootstrap_delays "Unknown error"
      (bootstrap_recovery sample_runtime ann 5 signed_in)
bootstrap_recovery-EndsFrom_example = bootstrap_recovery-EndsFrom sample_runtime ann 5 signed_in

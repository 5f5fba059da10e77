-- ===== src/Accounts/State.antt =====
-- What the hook keeps: the pool of accounts, the refs and the React state, the items of the browser's
-- storage, and what it calls.
use secure_collab_app.Prelude.{ℕ, Bool, String, List, Option, some, none, is_empty, if◌then◌else◌}
use secure_collab_app.Exec.{Result, ok, Exec}
use secure_collab_app.AtRest.Keys.{WebCrypto, AtRestKeys}
use secure_collab_app.AtRest.Passkeys.{RecordJson, AccountData}
use secure_collab_app.AtRest.DeviceKey.{KeyDb}
use secure_collab_app.StoreReaper
use secure_collab_app.AuthErrors

pub data Custody : Type 0 where
  by_passkey manual : Custody

-- `v2` is whether the format version is 2.
pub record AccountSession : Type 0 where
  pub homeserver_url : String
  pub user_id : String
  pub username : String
  pub v2 : Bool
  pub device_key_wrap : Option String
  pub data_key_wrap : Option String
  pub custody : Option Custody
  pub key_saved : Option Bool
  pub passkey_wrap : Option String
  pub store_name : Option String
  pub matrix_session_data : Option String
  pub secrets : Option String

-- The item of the format that held a single account.
pub record LegacySession : Type 0 where
  pub homeserver_url : String
  pub user_id : String
  pub username : String
  pub matrix_session_data : Option String

pub record WorkspaceEntry : Type 0 where
  pub id : String
  pub name : String
  pub created_at : ℕ

-- An element of the room list.
pub record Room : Type 0 where
  pub id : String
  pub name : String
  pub is_workspace : Bool

pub data RecoveryPrompt : Type 0 where
  save : String → RecoveryPrompt
  speedup : String → RecoveryPrompt
  verify : RecoveryPrompt
  unlock : Option Custody → RecoveryPrompt
  save_legacy_key : RecoveryPrompt
  error_prompt : String → RecoveryPrompt

-- A Matrix session of the wasm module, by what its methods give. A recovery status or an attempt to
-- enable recovery is told by how many were before it.
pub record Session : Type 0 where
  pub user_id : Option String
  pub session_data : String
  pub initial_sync : Result (Unit {0})
  pub list_rooms : Result String
  pub recovery_status : ℕ → Result String
  pub enable_recovery : ℕ → Result String
  pub recover_with_key : String → Result (Unit {0})
  pub reset_recovery : Result String
  pub uses_passphrase : Result Bool
  pub create_room : String → Result String
  pub join_room : String → Result (Unit {0})
  pub account_data : AccountData

-- The items of `localStorage` and `sessionStorage` that the hook reads and writes; `Text` is what JSON
-- texts are.
pub record Items (Text : Type 0) : Type 0 where
  pub accounts : Option Text
  pub legacy_session : Option Text
  pub legacy_workspaces : Option Text
  pub workspaces : List (String × Text)
  pub active_account : Option String

-- A parse gives none where it throws.
pub record Json (Text : Type 0) : Type 0 where
  pub truthy : Text → Bool
  pub parse_accounts : Text → Option (List AccountSession)
  pub stringify_accounts : List AccountSession → Text
  pub parse_legacy : Text → Option LegacySession
  pub parse_workspaces : Text → Option (List WorkspaceEntry)
  pub stringify_workspaces : List WorkspaceEntry → Text
  pub parse_rooms : String → Option (List Room)
  pub store_name_of : String → Option String

-- What the hook calls: `build` is `buildSession` for a restore, a login or a registration, with a
-- restore's timeout as an error, and `prf_secret` what a passkey gesture gives.
pub record Runtime (Key Text : Type 0) : Type 0 where
  pub crypto : WebCrypto Key
  pub generated_key : Result Key
  pub json : Json Text
  pub wraps : RecordJson
  pub reaper : StoreReaper.Browser
  pub errors : AuthErrors.Runtime
  pub now : ℕ
  pub restore : String → String → Option String → Result Session
  pub login : String → String → String → String → Result Session
  pub register : String → String → String → String → Option String → Result Session
  pub prf_secret : Result String

-- The React state and the refs; the session is that of `matrixSessionRef` and of the state.
pub record App (Key Text : Type 0) : Type 0 where
  pub accounts : List AccountSession
  pub active : Option String
  pub session : Option Session
  pub workspaces : List WorkspaceEntry
  pub loading : Bool
  pub error : Option String
  pub prompt : Option RecoveryPrompt
  pub at_rest_keys : Option (AtRestKeys Key)
  pub snapshot_key : Option Key
  pub pending_unlock : Option AccountSession
  pub custody : Custody
  pub data_key : Option String
  pub passkey_available : Bool
  pub passkey_enrolled : Bool
  pub items : Items Text
  pub reaper : StoreReaper.Store
  pub device : KeyDb Key

abbrev pub update :
    {Key Text : Type 0} → (App Key Text → App Key Text) → Exec (App Key Text) (Unit {0})
update f s = (ok tt, f s)

abbrev pub get : {Key Text : Type 0} → Exec (App Key Text) (App Key Text)
get s = (ok s, s)

-- `console.warn` alone: a thrown error is swallowed.
abbrev pub swallow :
    {Key Text : Type 0} → Exec (App Key Text) (Unit {0}) → Exec (App Key Text) (Unit {0})
swallow m s = (ok tt, (m s).1)

-- The part of a step that acts on the device key's database.
abbrev pub on_device : {Key Text A : Type 0} → Exec (KeyDb Key) A → Exec (App Key Text) A
on_device m s = let r = m s.device in (r.0, record s { device = r.1 })

-- A text that is there and not empty.
abbrev pub truthy : Option String → Option String
truthy none = none
truthy (some s) = if is_empty s then none else some s

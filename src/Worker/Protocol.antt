-- ===== src/Worker/Protocol.antt =====
-- The wire protocol between a tab and the worker, ui/src/worker/protocol.ts: requests, answers,
-- events, and the names that may be called.
use secure_collab_app.Prelude.{concat, ℕ, Bool, String, Option, List, [], ◌∷◌}

-- What survives a structured clone; `bytes` is a Uint8Array.
pub data Cloneable : Type 0 where
  undefined : Cloneable
  text : String → Cloneable
  number : ℕ → Cloneable
  boolean : Bool → Cloneable
  bytes : List ℕ → Cloneable

pub data SessionVia : Type 0 where
  login register restore finish_oauth_login : SessionVia

pub record Arity : Type 0 where
  pub min : ℕ
  pub max : ℕ

abbrev pub session_factory_arity : SessionVia → Arity
session_factory_arity login = record { min = 3; max = 4 }
session_factory_arity register = record { min = 3; max = 5 }
session_factory_arity restore = record { min = 2; max = 3 }
session_factory_arity finish_oauth_login = record { min = 1; max = 1 }

pub record SessionInfo : Type 0 where
  pub user_id : String
  pub session_data : String
  pub joined : Bool

-- What a tab reads from: each text is what the method of the wasm module returns.
pub record WorkspaceState : Type 0 where
  pub tables : String
  pub table_order_keys : String
  pub current_user_id : Option String
  pub is_encrypted : Bool
  pub undecryptable_count : ℕ
  pub connection_health : String
  pub rejected_writes : String
  pub pending_updates : String
  pub schemas : List (String × String)
  pub views_by_table : List (String × String)
  pub views : List (String × String)
  pub rows : List (String × String)
  pub row_order_keys : List (String × String)

pub data LogLevel : Type 0 where
  log_line warn_line : LogLevel

-- A log line is told by its level alone.
pub data Event : Type 0 where
  workspace_change : (room_id : String) → Event
  workspace_state : (room_id : String) (state : WorkspaceState) → Event
  queue_change : (room_id : String) → Event
  session_sync : (user_id : String) → Event
  token_refresh : (user_id session_data : String) → Event
  session_dropped : (user_id : String) → Event
  log : LogLevel → Event

abbrev pub session_methods : List String
session_methods =
    "userId" ∷ "getDisplayName" ∷ "setDisplayName" ∷ "sessionData" ∷ "listRooms"
    ∷ "listInvitedRooms" ∷ "createRoom" ∷ "joinRoom" ∷ "declineInvite" ∷ "knockWithToken"
    ∷ "initialSync" ∷ "recoveryStatus" ∷ "recoveryUsesPassphrase" ∷ "enableRecovery"
    ∷ "enableRecoveryWithPassphrase" ∷ "resetRecovery" ∷ "resetRecoveryWithPassphrase"
    ∷ "recoverWithKey" ∷ "requestOpenIdToken" ∷ "getAccountData" ∷ "setAccountData"
    ∷ "startVerificationListener" ∷ "pendingVerificationFlow" ∷ []

abbrev pub session_static_methods : List String
session_static_methods = "homeserverSupportsOauth" ∷ "startOauthLogin" ∷ []

abbrev pub workspace_methods : List String
workspace_methods =
    "getTableRows" ∷ "getRowOrderKeys" ∷ "getTableSchema" ∷ "getView" ∷ "listTables"
    ∷ "listViewsForTable" ∷ "getTableOrderKeys" ∷ "currentUserId" ∷ "snapshot" ∷ "isEncrypted"
    ∷ "undecryptableCount" ∷ "connectionHealth" ∷ "rejectedWrites" ∷ "keyBackupCaughtUp"
    ∷ "flushKeyBackup" ∷ "retryUndecryptable" ∷ "pendingUpdates" ∷ "exportTableCsv"
    ∷ "exportWorkspaceZip" ∷ "previewCsvImport" ∷ "previewFormula" ∷ "listInviteLinks"
    ∷ "listKnocks" ∷ "createTable" ∷ "renameTable" ∷ "deleteTable" ∷ "setTableOrder" ∷ "createView"
    ∷ "deleteView" ∷ "addColumn" ∷ "updateColumn" ∷ "deleteColumn" ∷ "reorderColumns"
    ∷ "setColumnWidth" ∷ "updateCell" ∷ "deleteRow" ∷ "applyUpdate" ∷ "importCsv"
    ∷ "importWorkspaceZip" ∷ "importWorkspaceArchive" ∷ "restorePendingUpdates" ∷ "createInviteLink"
    ∷ "revokeInviteLink" ∷ "admitKnock" ∷ "inviteUser" ∷ "listMembers" ∷ "myRole" ∷ "setUserRole"
    ∷ "leaveWorkspace" ∷ "getChangeLog" ∷ "rollbackTo" ∷ "checkIntegrity" ∷ []

abbrev pub workspace_write_methods : List String
workspace_write_methods =
    "createTable" ∷ "renameTable" ∷ "deleteTable" ∷ "setTableOrder" ∷ "createView" ∷ "deleteView"
    ∷ "addColumn" ∷ "updateColumn" ∷ "deleteColumn" ∷ "reorderColumns" ∷ "setColumnWidth"
    ∷ "updateCell" ∷ "deleteRow" ∷ "applyUpdate" ∷ "importCsv" ∷ "importWorkspaceZip"
    ∷ "importWorkspaceArchive" ∷ "restorePendingUpdates" ∷ "rollbackTo" ∷ "checkIntegrity"
    ∷ "retryUndecryptable" ∷ []

abbrev pub verification_methods : List String
verification_methods =
    "flowId" ∷ "accept" ∷ "emoji" ∷ "confirm" ∷ "cancel" ∷ "isDone" ∷ "advance" ∷ "state" ∷ []

abbrev pub session_key : String → String
session_key user_id = concat "session:" user_id

abbrev pub room_key : String → String
room_key room_id = concat "room:" room_id

abbrev pub verify_key : String → String
verify_key flow_id = concat "verify:" flow_id

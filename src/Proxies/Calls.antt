-- ===== src/Proxies/Calls.antt =====
-- The calls that a tab's stand-ins send on to the worker (ui/src/worker/workerWorkspace.ts, lines 212 to
-- 276, and ui/src/worker/workerSession.ts, lines 150 to 209).
use secure_collab_app.Prelude.{ℕ, Bool, String, Option, none, some, List, [], ◌∷◌}
use secure_collab_app.Worker.Protocol.{Cloneable, undefined, text, number, boolean, bytes}

abbrev optional_number : Option ℕ → Cloneable
optional_number none = undefined
optional_number (some n) = number n

abbrev optional_text : Option String → Cloneable
optional_text none = undefined
optional_text (some s) = text s

-- On a workspace.
pub data RoomCall : Type 0 where
  create_table : (definition : String) → RoomCall
  create_view : (config : String) → RoomCall
  add_column : (table_id : String) → (column : String) → RoomCall
  reorder_columns : (table_id : String) → (ordered_ids : String) → RoomCall
  update_column : (table_id : String) → (column_id : String) → (patch : String) → RoomCall
  delete_column : (table_id : String) → (column_id : String) → RoomCall
  update_cell :
      (table_id : String) → (row_id : String) → (column_id : String) → (value : String) → RoomCall
  delete_row : (table_id : String) → (row_id : String) → RoomCall
  delete_table : (table_id : String) → RoomCall
  rename_table : (table_id : String) → (name : String) → RoomCall
  set_column_width : (table_id : String) → (column_id : String) → (width : ℕ) → RoomCall
  delete_view : (view_id : String) → RoomCall
  set_table_order : (table_id : String) → (order_key : String) → RoomCall
  import_csv :
      (table_id : String) → (table_name : String) → (csv : String) → (columns : String) → RoomCall
  import_workspace_zip : (file : List ℕ) → RoomCall
  import_workspace_archive : (files : String) → RoomCall
  restore_pending_updates : (json : String) → RoomCall
  apply_update : (update : String) → RoomCall
  export_table_csv : (table_id : String) → RoomCall
  export_workspace_zip : (name : String) → RoomCall
  preview_csv_import :
      (table_id : String) → (csv : String) → (sample : ℕ) → (overrides : String) → RoomCall
  preview_formula : (table_id : String) → (formula : String) → (limit : ℕ) → RoomCall
  create_invite_link :
      (app_base_url : String) → (valid_for_ms : Option ℕ) → (uses_allowed : Option ℕ) → RoomCall
  list_invite_links : RoomCall
  revoke_invite_link : (token_id : String) → RoomCall
  list_knocks : RoomCall
  admit_knock : (user_id : String) → (token : String) → RoomCall
  snapshot : RoomCall
  invite_user : (user_id : String) → RoomCall
  list_members : RoomCall
  my_role : RoomCall
  set_user_role : (user_id : String) → (role : String) → RoomCall
  leave_workspace : (remove_everyone : Bool) → RoomCall
  get_change_log : (table_id : String) → RoomCall
  rollback_to : (table_id : String) → (target_server_ts : ℕ) → (label : Option String) → RoomCall
  check_integrity : RoomCall

abbrev pub room_method : RoomCall → String
room_method (create_table definition) = "createTable"
room_method (create_view config) = "createView"
room_method (add_column table_id column) = "addColumn"
room_method (reorder_columns table_id ordered_ids) = "reorderColumns"
room_method (update_column table_id column_id patch) = "updateColumn"
room_method (delete_column table_id column_id) = "deleteColumn"
room_method (update_cell table_id row_id column_id value) = "updateCell"
room_method (delete_row table_id row_id) = "deleteRow"
room_method (delete_table table_id) = "deleteTable"
room_method (rename_table table_id name) = "renameTable"
room_method (set_column_width table_id column_id width) = "setColumnWidth"
room_method (delete_view view_id) = "deleteView"
room_method (set_table_order table_id order_key) = "setTableOrder"
room_method (import_csv table_id table_name csv columns) = "importCsv"
room_method (import_workspace_zip file) = "importWorkspaceZip"
room_method (import_workspace_archive files) = "importWorkspaceArchive"
room_method (restore_pending_updates json) = "restorePendingUpdates"
room_method (apply_update update) = "applyUpdate"
room_method (export_table_csv table_id) = "exportTableCsv"
room_method (export_workspace_zip name) = "exportWorkspaceZip"
room_method (preview_csv_import table_id csv sample overrides) = "previewCsvImport"
room_method (preview_formula table_id formula limit) = "previewFormula"
room_method (create_invite_link app_base_url valid_for_ms uses_allowed) = "createInviteLink"
room_method list_invite_links = "listInviteLinks"
room_method (revoke_invite_link token_id) = "revokeInviteLink"
room_method list_knocks = "listKnocks"
room_method (admit_knock user_id token) = "admitKnock"
room_method snapshot = "snapshot"
room_method (invite_user user_id) = "inviteUser"
room_method list_members = "listMembers"
room_method my_role = "myRole"
room_method (set_user_role user_id role) = "setUserRole"
room_method (leave_workspace remove_everyone) = "leaveWorkspace"
room_method (get_change_log table_id) = "getChangeLog"
room_method (rollback_to table_id target_server_ts label) = "rollbackTo"
room_method check_integrity = "checkIntegrity"

abbrev pub room_args : RoomCall → List Cloneable
room_args (create_table definition) = text definition ∷ []
room_args (create_view config) = text config ∷ []
room_args (add_column table_id column) = text table_id ∷ text column ∷ []
room_args (reorder_columns table_id ordered_ids) = text table_id ∷ text ordered_ids ∷ []
room_args (update_column table_id column_id patch) =
    text table_id ∷ text column_id ∷ text patch ∷ []
room_args (delete_column table_id column_id) = text table_id ∷ text column_id ∷ []
room_args (update_cell table_id row_id column_id value) =
    text table_id ∷ text row_id ∷ text column_id ∷ text value ∷ []
room_args (delete_row table_id row_id) = text table_id ∷ text row_id ∷ []
room_args (delete_table table_id) = text table_id ∷ []
room_args (rename_table table_id name) = text table_id ∷ text name ∷ []
room_args (set_column_width table_id column_id width) =
    text table_id ∷ text column_id ∷ number width ∷ []
room_args (delete_view view_id) = text view_id ∷ []
room_args (set_table_order table_id order_key) = text table_id ∷ text order_key ∷ []
room_args (import_csv table_id table_name csv columns) =
    text table_id ∷ text table_name ∷ text csv ∷ text columns ∷ []
room_args (import_workspace_zip file) = bytes file ∷ []
room_args (import_workspace_archive files) = text files ∷ []
room_args (restore_pending_updates json) = text json ∷ []
room_args (apply_update update) = text update ∷ []
room_args (export_table_csv table_id) = text table_id ∷ []
room_args (export_workspace_zip name) = text name ∷ []
room_args (preview_csv_import table_id csv sample overrides) =
    text table_id ∷ text csv ∷ number sample ∷ text overrides ∷ []
room_args (preview_formula table_id formula limit) =
    text table_id ∷ text formula ∷ number limit ∷ []
room_args (create_invite_link app_base_url valid_for_ms uses_allowed) =
    text app_base_url ∷ optional_number valid_for_ms ∷ optional_number uses_allowed ∷ []
room_args list_invite_links = []
room_args (revoke_invite_link token_id) = text token_id ∷ []
room_args list_knocks = []
room_args (admit_knock user_id token) = text user_id ∷ text token ∷ []
room_args snapshot = []
room_args (invite_user user_id) = text user_id ∷ []
room_args list_members = []
room_args my_role = []
room_args (set_user_role user_id role) = text user_id ∷ text role ∷ []
room_args (leave_workspace remove_everyone) = boolean remove_everyone ∷ []
room_args (get_change_log table_id) = text table_id ∷ []
room_args (rollback_to table_id target_server_ts label) =
    text table_id ∷ number target_server_ts ∷ optional_text label ∷ []
room_args check_integrity = []

-- On a session, but for `startSessionSync`.
pub data SessionCall : Type 0 where
  initial_sync : SessionCall
  list_rooms : SessionCall
  list_invited_rooms : SessionCall
  create_room : (name : String) → SessionCall
  join_room : (room_id : String) → SessionCall
  knock_with_token : (room_id : String) → (token : String) → SessionCall
  decline_invite : (room_id : String) → SessionCall
  get_display_name : SessionCall
  set_display_name : (name : String) → SessionCall
  recovery_status : SessionCall
  recovery_uses_passphrase : SessionCall
  enable_recovery : SessionCall
  enable_recovery_with_passphrase : (passphrase : String) → SessionCall
  reset_recovery : SessionCall
  reset_recovery_with_passphrase : (passphrase : String) → SessionCall
  recover_with_key : (key : String) → SessionCall
  request_open_id_token : SessionCall
  get_account_data : (event_type : String) → SessionCall
  set_account_data : (event_type : String) → (json : String) → SessionCall
  start_verification_listener : SessionCall
  pending_verification_flow : SessionCall

abbrev pub session_method : SessionCall → String
session_method initial_sync = "initialSync"
session_method list_rooms = "listRooms"
session_method list_invited_rooms = "listInvitedRooms"
session_method (create_room name) = "createRoom"
session_method (join_room room_id) = "joinRoom"
session_method (knock_with_token room_id token) = "knockWithToken"
session_method (decline_invite room_id) = "declineInvite"
session_method get_display_name = "getDisplayName"
session_method (set_display_name name) = "setDisplayName"
session_method recovery_status = "recoveryStatus"
session_method recovery_uses_passphrase = "recoveryUsesPassphrase"
session_method enable_recovery = "enableRecovery"
session_method (enable_recovery_with_passphrase passphrase) = "enableRecoveryWithPassphrase"
session_method reset_recovery = "resetRecovery"
session_method (reset_recovery_with_passphrase passphrase) = "resetRecoveryWithPassphrase"
session_method (recover_with_key key) = "recoverWithKey"
session_method request_open_id_token = "requestOpenIdToken"
session_method (get_account_data event_type) = "getAccountData"
session_method (set_account_data event_type json) = "setAccountData"
session_method start_verification_listener = "startVerificationListener"
session_method pending_verification_flow = "pendingVerificationFlow"

abbrev pub session_args : SessionCall → List Cloneable
session_args initial_sync = []
session_args list_rooms = []
session_args list_invited_rooms = []
session_args (create_room name) = text name ∷ []
session_args (join_room room_id) = text room_id ∷ []
session_args (knock_with_token room_id token) = text room_id ∷ text token ∷ []
session_args (decline_invite room_id) = text room_id ∷ []
session_args get_display_name = []
session_args (set_display_name name) = text name ∷ []
session_args recovery_status = []
session_args recovery_uses_passphrase = []
session_args enable_recovery = []
session_args (enable_recovery_with_passphrase passphrase) = text passphrase ∷ []
session_args reset_recovery = []
session_args (reset_recovery_with_passphrase passphrase) = text passphrase ∷ []
session_args (recover_with_key key) = text key ∷ []
session_args request_open_id_token = []
session_args (get_account_data event_type) = text event_type ∷ []
session_args (set_account_data event_type json) = text event_type ∷ text json ∷ []
session_args start_verification_listener = []
session_args pending_verification_flow = []

-- On a verification flow; none has arguments.
pub data VerificationCall : Type 0 where
  sas_flow_id sas_accept sas_emoji sas_confirm sas_cancel sas_is_done sas_advance sas_state :
      VerificationCall

abbrev pub verification_method : VerificationCall → String
verification_method sas_flow_id = "flowId"
verification_method sas_accept = "accept"
verification_method sas_emoji = "emoji"
verification_method sas_confirm = "confirm"
verification_method sas_cancel = "cancel"
verification_method sas_is_done = "isDone"
verification_method sas_advance = "advance"
verification_method sas_state = "state"

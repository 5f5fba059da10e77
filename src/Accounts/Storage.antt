-- ===== src/Accounts/Storage.antt =====
-- The account pool and the workspaces in the browser's storage, which can be read and written.
use secure_collab_app.Prelude.{
  ℕ, Bool, true, false, not, ◌==◌, String, List, [], ◌∷◌, Option, some, none, if◌then◌else◌,
  is_empty, filter, find, any, map,
}
use secure_collab_app.Assoc.{map_get, map_set, map_delete}
use secure_collab_app.Exec.{Exec}
use secure_collab_app.Accounts.State.{
  AccountSession, LegacySession, WorkspaceEntry, Room, Items, Json, Runtime, App, update, truthy,
}

abbrev pub is_text : Option String → Bool
is_text none = false
is_text (some t) = true

abbrev pub has_user : String → AccountSession → Bool
has_user id a = a.user_id == id

abbrev pub find_account : String → List AccountSession → Option AccountSession
find_account id accounts = find (has_user id) accounts

abbrev pub first_id : List AccountSession → Option String
first_id [] = none
first_id (a ∷ rest) = some a.user_id

-- `prev.map(a => (a.userId === uid ? patch(a) : a))`
unfoldable pub patch_account :
    String → (AccountSession → AccountSession) → List AccountSession → List AccountSession
patch_account id f [] = []
patch_account id f (a ∷ rest) = (if a.user_id == id then f a else a) ∷ patch_account id f rest

-- `prev.filter(a => a.userId !== uid)`
abbrev pub without : String → List AccountSession → List AccountSession
without id accounts = filter (λ a. not (has_user id a)) accounts

abbrev pub account_of : LegacySession → String → AccountSession
account_of l blob = record {
  homeserver_url = l.homeserver_url;
  user_id = l.user_id;
  username = l.username;
  v2 = false;
  device_key_wrap = none;
  data_key_wrap = none;
  custody = none;
  key_saved = none;
  passkey_wrap = none;
  store_name = none;
  matrix_session_data = some blob;
  secrets = none;
}

-- `saveActiveAccountId`
unfoldable pub save_active_account_id : {Text : Type 0} → Option String → Items Text → Items Text
save_active_account_id id items = record items { active_account = truthy id }

-- `clearWorkspaces`
unfoldable pub clear_workspaces : {Text : Type 0} → String → Items Text → Items Text
clear_workspaces id items = record items { workspaces = map_delete id items.workspaces }

abbrev valid_active : Option String → List AccountSession → Option String
valid_active none accounts = first_id accounts
valid_active (some id) accounts = if any (has_user id) accounts then some id else first_id accounts

-- `loadActiveAccountId`
unfoldable pub load_active_account_id :
    {Text : Type 0} → List AccountSession → Items Text → Option String
load_active_account_id accounts items = valid_active (truthy items.active_account) accounts

abbrev entry_of : ℕ → Room → WorkspaceEntry
entry_of now r = record {
  id = r.id;
  name = if is_empty r.name then r.id else r.name;
  created_at = now;
}

abbrev entries_of : ℕ → Option (List Room) → Option (List WorkspaceEntry)
entries_of now none = none
entries_of now (some rooms) = some (map (entry_of now) (filter (λ r. r.is_workspace) rooms))

abbrev or_no_accounts : Option (List AccountSession) → List AccountSession
or_no_accounts none = []
or_no_accounts (some accounts) = accounts

abbrev or_no_workspaces : Option (List WorkspaceEntry) → List WorkspaceEntry
or_no_workspaces none = []
or_no_workspaces (some entries) = entries

module _ {Text : Type 0} (json : Json Text) where
  abbrev pub present : Option Text → Option Text
  present none = none
  present (some t) = elim (json.truthy t) [ true ↦ some t | false ↦ none ]

  -- `saveAccounts`
  unfoldable pub save_accounts : List AccountSession → Items Text → Items Text
  save_accounts accounts items = record items {
    accounts = some (json.stringify_accounts accounts);
    legacy_session = none;
  }

  abbrev pub migrated_to :
      LegacySession → Option String → Items Text → List AccountSession × Items Text
  migrated_to l none items = ([], items)
  migrated_to l (some blob) items =
      (account_of l blob ∷ [], save_accounts (account_of l blob ∷ []) items)

  abbrev pub migrated : Option LegacySession → Items Text → List AccountSession × Items Text
  migrated none items = ([], items)
  migrated (some l) items = migrated_to l (truthy l.matrix_session_data) items

  abbrev pub migrate : Option Text → Items Text → List AccountSession × Items Text
  migrate none items = ([], items)
  migrate (some t) items = migrated (json.parse_legacy t) items

  abbrev pub pool_in : Option Text → Items Text → List AccountSession × Items Text
  pool_in none items = migrate (present items.legacy_session) items
  pool_in (some t) items = (or_no_accounts (json.parse_accounts t), items)

  -- `loadAccounts`
  unfoldable pub load_accounts : Items Text → List AccountSession × Items Text
  unfolding save_accounts
  load_accounts items = pool_in (present items.accounts) items

  abbrev legacy_workspaces : Option Text → List WorkspaceEntry
  legacy_workspaces none = []
  legacy_workspaces (some t) = or_no_workspaces (json.parse_workspaces t)

  abbrev workspaces_in : Option Text → Items Text → List WorkspaceEntry
  workspaces_in none items = legacy_workspaces (present items.legacy_workspaces)
  workspaces_in (some t) items = or_no_workspaces (json.parse_workspaces t)

  abbrev workspaces_of : Option String → Items Text → List WorkspaceEntry
  workspaces_of none items = []
  workspaces_of (some id) items =
      workspaces_in (elim (map_get id items.workspaces) [ none ↦ none | some t ↦ present (some t) ])
        items

  -- `loadWorkspaces`
  unfoldable pub load_workspaces : Option String → Items Text → List WorkspaceEntry
  load_workspaces id items = workspaces_of (truthy id) items

  -- `saveWorkspaces`
  unfoldable pub save_workspaces : String → List WorkspaceEntry → Items Text → Items Text
  save_workspaces id entries items = record items {
    workspaces = map_set id (json.stringify_workspaces entries) items.workspaces;
  }

  -- `parseWorkspaceRooms`
  unfoldable pub parse_workspace_rooms : ℕ → String → Option (List WorkspaceEntry)
  parse_workspace_rooms now rooms_json = entries_of now (json.parse_rooms rooms_json)

-- `setActiveAccountId(id)` and `saveActiveAccountId(id)`
unfoldable pub set_active : {Key Text : Type 0} → Option String → Exec (App Key Text) (Unit {0})
unfolding save_active_account_id
set_active id = update (λ s. record s { active = id; items = save_active_account_id id s.items })

module _ {Key Text : Type 0} (rt : Runtime Key Text) where
  -- `setAccounts(prev => { const updated = f(prev); saveAccounts(updated); return updated })`
  unfoldable pub set_accounts :
      (List AccountSession → List AccountSession) → Exec (App Key Text) (Unit {0})
  unfolding save_accounts
  set_accounts f = update (λ s. record s {
    accounts = f s.accounts;
    items = save_accounts rt.json (f s.accounts) s.items;
  })

  -- `setWorkspaces(entries)` and `saveWorkspaces(id, entries)`
  unfoldable pub set_workspaces : String → List WorkspaceEntry → Exec (App Key Text) (Unit {0})
  unfolding save_workspaces
  set_workspaces id entries =
      update
        (λ s. record s { workspaces = entries; items = save_workspaces rt.json id entries s.items })

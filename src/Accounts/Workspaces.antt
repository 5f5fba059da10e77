-- ===== src/Accounts/Workspaces.antt =====
-- The workspaces of the account that is signed in: making, joining and refreshing them. A session sync
-- that runs spares the sync of a refresh.
use secure_collab_app.Prelude.{
  Bool, true, false, ◌==◌, String, List, [], ◌∷◌, ◌++◌, Option, some, none, if◌then◌else◌, is_empty,
  any, find,
}
use secure_collab_app.Exec.{Result, ok, err, Exec, pure, throw, lift, attempt, ◌>>=◌, ◌>>◌}
use secure_collab_app.Accounts.State.{
  WorkspaceEntry, Room, Session, Runtime, App, update, get, swallow, truthy,
}
use secure_collab_app.Accounts.Storage.{save_workspaces, parse_workspace_rooms}

abbrev pub has_workspace : String → WorkspaceEntry → Bool
has_workspace id w = w.id == id

-- `room?.name || roomId`
abbrev name_or : String → Option Room → String
name_or id none = id
name_or id (some r) = if is_empty r.name then id else r.name

module _ {Key Text : Type 0} (rt : Runtime Key Text) where
  abbrev pub save_for : Option String → List WorkspaceEntry → App Key Text → App Key Text
  save_for none entries s = s
  save_for (some id) entries s = record s { items = save_workspaces rt.json id entries s.items }

  -- `setWorkspaces(entries)` and, with an active account, `saveWorkspaces`
  abbrev pub show_entries : List WorkspaceEntry → App Key Text → App Key Text
  show_entries entries s = save_for (truthy s.active) entries (record s { workspaces = entries })

  abbrev pub append_entry : WorkspaceEntry → App Key Text → App Key Text
  append_entry entry s = show_entries (s.workspaces ++ entry ∷ []) s

  abbrev pub append_new : WorkspaceEntry → App Key Text → App Key Text
  append_new entry s = if any (has_workspace entry.id) s.workspaces then s else append_entry entry s

  abbrev pub create_in : Option Session → String → Exec (App Key Text) WorkspaceEntry
  create_in none name = throw "Not signed in"
  create_in (some ms) name = do
    room_id ← lift (ms.create_room name)
    let entry : WorkspaceEntry = record { id = room_id; name = name; created_at = rt.now }
    update (append_entry entry)
    pure entry

  -- `createWorkspace`
  unfoldable pub create_workspace : String → Exec (App Key Text) WorkspaceEntry
  unfolding save_workspaces
  create_workspace name = do s ← get; create_in s.session name

  abbrev pub parsed {ℓ} : {A : Type ℓ} → Option A → Result A
  parsed none = err "JSON.parse"
  parsed (some a) = ok a

  abbrev entry_named : String → Option Room → WorkspaceEntry
  entry_named id room = record { id = id; name = name_or id room; created_at = rt.now }

  abbrev pub join_in : Option Session → String → Exec (App Key Text) WorkspaceEntry
  join_in none id = throw "Not signed in"
  join_in (some ms) id = do
    lift (ms.join_room id)
    lift ms.initial_sync
    rooms_json ← lift ms.list_rooms
    rooms ← lift (parsed (rt.json.parse_rooms rooms_json))
    let entry = entry_named id (find (λ r. r.id == id) rooms)
    update (append_new entry)
    pure entry

  -- `joinWorkspace`
  unfoldable pub join_workspace : String → Exec (App Key Text) WorkspaceEntry
  unfolding save_workspaces
  join_workspace id = do s ← get; join_in s.session id

  abbrev pub sync_unless : Bool → Session → Exec (App Key Text) (Unit {0})
  sync_unless true ms = pure tt
  sync_unless false ms = lift ms.initial_sync

  abbrev pub refresh_in : Bool → Option Session → Exec (App Key Text) (Unit {0})
  refresh_in syncing none = pure tt
  refresh_in syncing (some ms) = swallow (do
    sync_unless syncing ms
    rooms_json ← lift ms.list_rooms
    entries ← lift (parsed (parse_workspace_rooms rt.json rt.now rooms_json))
    update (show_entries entries))

  -- `refreshWorkspaces`, with whether the session sync is active
  unfoldable pub refresh_workspaces : Bool → Exec (App Key Text) (Unit {0})
  unfolding save_workspaces parse_workspace_rooms
  refresh_workspaces syncing = do s ← get; refresh_in syncing s.session

  -- The room's name, once the list has been read and shown.
  abbrev pub look_up : Session → String → Exec (App Key Text) String
  look_up ms id = do
    rooms_json ← lift ms.list_rooms
    rooms ← lift (parsed (rt.json.parse_rooms rooms_json))
    entries ← lift (parsed (parse_workspace_rooms rt.json rt.now rooms_json))
    update (show_entries entries)
    pure (name_or id (find (λ r. r.id == id) rooms))

  abbrev pub accept_in : Option Session → String → Exec (App Key Text) WorkspaceEntry
  accept_in none id = throw "Not signed in"
  accept_in (some ms) id = do
    lift (ms.join_room id)
    swallow (lift ms.initial_sync)
    name ← attempt (look_up ms id) (λ e. pure id)
    let entry : WorkspaceEntry = record { id = id; name = name; created_at = rt.now }
    update (append_new entry)
    pure entry

  -- `acceptInvite`
  unfoldable pub accept_invite : String → Exec (App Key Text) WorkspaceEntry
  unfolding save_workspaces parse_workspace_rooms
  accept_invite id = do s ← get; accept_in s.session id

-- ===== src/Accounts/Keeps/Workspaces.antt =====
-- What making, joining and refreshing workspaces keep.
use secure_collab_app.Prelude.{
  Bool, true, false, String, List, [], ◌∷◌, ◌++◌, Option, some, none, if◌then◌else◌, any,
}
use secure_collab_app.Exec.{pure, attempt}
use secure_collab_app.Accounts.State.{
  AccountSession, WorkspaceEntry, Session, Items, Runtime, App, truthy,
}
use secure_collab_app.Accounts.Storage.{parse_workspace_rooms}
use secure_collab_app.Accounts.Workspaces.{
  save_for, show_entries, append_entry, append_new, has_workspace, create_in, create_workspace,
  parsed, join_in, join_workspace, sync_unless, refresh_in, refresh_workspaces, look_up, accept_in,
  accept_invite,
}
use secure_collab_app.Accounts.Keeps.{
  Holds, holds, held, Keeps, Stable, continue-Holds, recover-Holds,
}

module _ {Key Text : Type 0} (rt : Runtime Key Text)
    (P : List AccountSession → Option String → Items Text → Type 0) (st : Stable rt P) where
  save_for-Holds :
      (id : Option String) (entries : List WorkspaceEntry) (s : App Key Text)
      → Holds rt P s
      → Holds rt P (save_for rt id entries s)
  save_for-Holds none entries s p = p
  save_for-Holds (some id) entries s p =
      holds _ (st.rooms id entries s.accounts s.active s.items (held rt P s p))

  show_entries-Holds :
      (entries : List WorkspaceEntry) (s : App Key Text)
      → Holds rt P s
      → Holds rt P (show_entries rt entries s)
  show_entries-Holds entries s p =
      save_for-Holds (truthy s.active) entries (record s { workspaces = entries })
        (holds _ (held rt P s p))

  append_new-Holds :
      (entry : WorkspaceEntry) (s : App Key Text)
      → Holds rt P s
      → Holds rt P (append_new rt entry s)
  append_new-Holds entry s p = appended (any (has_workspace entry.id) s.workspaces)
    where
      appended : (b : Bool) → Holds rt P (if b then s else append_entry rt entry s)
      appended true = p
      appended false = show_entries-Holds (s.workspaces ++ entry ∷ []) s p

  create_in-Keeps : (ms : Option Session) (name : String) → Keeps rt P (create_in rt ms name)
  create_in-Keeps none name s p = p
  create_in-Keeps (some ms) name s p =
      continue-Holds rt P (ms.create_room name) _ s p
        (λ id. show_entries-Holds (s.workspaces ++ _ ∷ []) s p)

  pub create_workspace-Keeps : (name : String) → Keeps rt P (create_workspace rt name)
  unfolding create_workspace
  create_workspace-Keeps name s p = create_in-Keeps s.session name s p

  join_in-Keeps : (ms : Option Session) (id : String) → Keeps rt P (join_in rt ms id)
  join_in-Keeps none id s p = p
  join_in-Keeps (some ms) id s p = continue-Holds rt P (ms.join_room id) _ s p λ u.
      continue-Holds rt P ms.initial_sync _ s p λ v. continue-Holds rt P ms.list_rooms _ s p λ json.
        continue-Holds rt P (parsed rt (rt.json.parse_rooms json)) _ s p
          λ rooms. append_new-Holds _ s p

  pub join_workspace-Keeps : (id : String) → Keeps rt P (join_workspace rt id)
  unfolding join_workspace
  join_workspace-Keeps id s p = join_in-Keeps s.session id s p

  sync_unless-Keeps : (syncing : Bool) (ms : Session) → Keeps rt P (sync_unless rt syncing ms)
  sync_unless-Keeps true ms s p = p
  sync_unless-Keeps false ms s p = p

  refresh_in-Keeps : (syncing : Bool) (ms : Option Session) → Keeps rt P (refresh_in rt syncing ms)
  refresh_in-Keeps syncing none s p = p
  refresh_in-Keeps syncing (some ms) s p =
      let r = sync_unless rt syncing ms s in
      let q = sync_unless-Keeps syncing ms s p in
      continue-Holds rt P r.0 _ r.1 q λ u. continue-Holds rt P ms.list_rooms _ r.1 q λ json.
        continue-Holds rt P (parsed rt (parse_workspace_rooms rt.json rt.now json)) _ r.1 q
          λ entries. show_entries-Holds entries r.1 q

  pub refresh_workspaces-Keeps : (syncing : Bool) → Keeps rt P (refresh_workspaces rt syncing)
  unfolding refresh_workspaces
  refresh_workspaces-Keeps syncing s p = refresh_in-Keeps syncing s.session s p

  look_up-Keeps : (ms : Session) (id : String) → Keeps rt P (look_up rt ms id)
  look_up-Keeps ms id s p = continue-Holds rt P ms.list_rooms _ s p λ json.
      continue-Holds rt P (parsed rt (rt.json.parse_rooms json)) _ s p λ rooms.
        continue-Holds rt P (parsed rt (parse_workspace_rooms rt.json rt.now json)) _ s p
          λ entries. show_entries-Holds entries s p

  accept_in-Keeps : (ms : Option Session) (id : String) → Keeps rt P (accept_in rt ms id)
  accept_in-Keeps none id s p = p
  accept_in-Keeps (some ms) id s p =
      let m = attempt (look_up rt ms id) (λ e. pure id) s in
      let k : Holds rt P m.1 =
        recover-Holds rt P (look_up rt ms id s).0 (λ e. pure id) (look_up rt ms id s).1
          (look_up-Keeps ms id s p) (λ e. look_up-Keeps ms id s p) in
      continue-Holds rt P (ms.join_room id) _ s p
        λ u. continue-Holds rt P m.0 _ m.1 k λ name. append_new-Holds _ m.1 k

  pub accept_invite-Keeps : (id : String) → Keeps rt P (accept_invite rt id)
  unfolding accept_invite
  accept_invite-Keeps id s p = accept_in-Keeps s.session id s p

-- ===== src/Accounts/Leaving.antt =====
-- Signing out, switching and removing accounts, and the reset of the app.
use secure_collab_app.Prelude.{
  ℕ, Bool, true, false, ◌&&◌, ◌==◌, String, List, [], ◌∷◌, Option, some, none, if◌then◌else◌,
  concat,
}
use secure_collab_app.Exec.{ok, err, Exec, lift, attempt, ◌>>=◌, ◌>>◌}
use secure_collab_app.AtRest.DeviceKey.{clear_device_key}
use secure_collab_app.StoreReaper.{retire_store}
use secure_collab_app.StoreReaper
use secure_collab_app.Accounts.State.{
  manual, AccountSession, Session, unlock, Items, Runtime, App, update, get, truthy,
}
use secure_collab_app.Accounts.Storage.{
  load_accounts, save_accounts, clear_workspaces, load_workspaces, save_active_account_id,
  find_account, is_text, first_id, without, set_workspaces,
}
use secure_collab_app.Accounts.Recovery.{ensure_history_access}
use secure_collab_app.Accounts.Restore.{restore_session, listed_rooms, set_loading, set_error}

abbrev pub store_of : Option AccountSession → Option String
store_of none = none
store_of (some a) = a.store_name

abbrev pub found_in : Option String → List AccountSession → Option AccountSession
found_in none accounts = none
found_in (some id) accounts = find_account id accounts

abbrev pub left_by : Option String → List AccountSession → List AccountSession
left_by none accounts = []
left_by (some id) accounts = without id accounts

abbrev pub cleared_of : {Text : Type 0} → Option String → Items Text → Items Text
cleared_of none items = items
cleared_of (some id) items = clear_workspaces id items

abbrev pub is_this : String → Option String → Bool
is_this id none = false
is_this id (some active) = id == active

abbrev pub is_open : Option Session → Bool
is_open none = false
is_open (some ms) = true

abbrev store_names : List AccountSession → List String
store_names [] = []
store_names (a ∷ rest) = elim (truthy a.store_name) [
  | none ↦ store_names rest
  | some name ↦ name ∷ store_names rest
]

module _ {Key Text : Type 0} (rt : Runtime Key Text) where
  -- `storeNameFromRef`
  abbrev store_name_from : Option Session → Option String
  store_name_from none = none
  store_name_from (some ms) = rt.json.store_name_of ms.session_data

  abbrev pub store_or : Option String → Option Session → Option String
  store_or none session = store_name_from session
  store_or (some name) session = some name

  -- The updater of `signOut`.
  abbrev pub leave_active : App Key Text → App Key Text
  leave_active s =
      let leaving = found_in s.active s.accounts in
      let updated = left_by s.active s.accounts in
      let saved =
        save_active_account_id (first_id updated) (save_accounts rt.json updated s.items) in
      let items = cleared_of s.active saved in
      record s {
        accounts = updated;
        active = first_id updated;
        items = items;
        reaper = retire_store rt.reaper (store_or (store_of leaving) s.session) s.reaper;
        workspaces = load_workspaces rt.json (first_id updated) items;
      }

  -- `signOut`
  unfoldable pub sign_out : App Key Text → App Key Text
  unfolding save_accounts save_active_account_id clear_workspaces
  sign_out s =
      let t = leave_active s in
      record t {
        session = none;
        error = none;
        at_rest_keys = none;
        custody = manual;
        data_key = none;
        snapshot_key = none;
        device = clear_device_key t.device;
        pending_unlock = none;
        prompt = none;
      }

  abbrev pub shown_for : String → App Key Text → App Key Text
  shown_for id s =
      let items = save_active_account_id (some id) s.items in
      record s {
        loading = true;
        error = none;
        session = none;
        active = some id;
        items = items;
        workspaces = load_workspaces rt.json (some id) items;
      }

  abbrev pub open_account : AccountSession → ℕ → Exec (App Key Text) (Unit {0})
  open_account account seed = do
    ms ← lift (restore_session rt account account.matrix_session_data none)
    update (λ s. record s { session = some ms })
    ensure_history_access rt ms seed
    entries ← listed_rooms rt ms
    set_workspaces rt account.user_id entries

  abbrev pub failed_to_open : AccountSession → String → Exec (App Key Text) (Unit {0})
  failed_to_open account e =
      set_error rt
        (some (concat "Failed to restore session for " (concat account.username (concat ": " e))))

  abbrev pub switch_to : AccountSession → ℕ → Exec (App Key Text) (Unit {0})
  switch_to account seed =
      if account.v2 && is_text (truthy account.secrets)
      then update (λ s. record s {
        pending_unlock = some account;
        prompt = some (unlock account.custody);
        loading = false;
      })
      else (do attempt (open_account account seed) (failed_to_open account); set_loading rt false)

  abbrev pub switch_found : String → ℕ → Option AccountSession → Exec (App Key Text) (Unit {0})
  switch_found id seed none s = (err (concat "Account " (concat id " not found")), s)
  switch_found id seed (some account) s =
      if is_this id s.active && is_open s.session
      then (ok tt, s)
      else switch_to account seed (shown_for id s)

  -- `switchAccount`
  unfoldable pub switch_account : String → ℕ → Exec (App Key Text) (Unit {0})
  unfolding save_active_account_id
  switch_account id seed = do s ← get; switch_found id seed (find_account id s.accounts)

  abbrev pub removed : String → App Key Text → App Key Text
  removed id s =
      let updated = without id s.accounts in
      record s {
        accounts = updated;
        items = clear_workspaces id (save_accounts rt.json updated s.items);
        reaper = retire_store rt.reaper (store_of (find_account id s.accounts)) s.reaper;
      }

  abbrev pub moved_on : App Key Text → App Key Text
  moved_on s =
      let items = save_active_account_id (first_id s.accounts) s.items in
      record s {
        active = first_id s.accounts;
        items = items;
        session = none;
        workspaces = load_workspaces rt.json (first_id s.accounts) items;
      }

  -- `removeAccount`
  unfoldable pub remove_account : String → App Key Text → App Key Text
  unfolding save_accounts save_active_account_id clear_workspaces
  remove_account id s = if is_this id s.active then moved_on (removed id s) else removed id s

  abbrev retire_all : List String → StoreReaper.Store → StoreReaper.Store
  retire_all [] r = r
  retire_all (name ∷ names) r = retire_all names (retire_store rt.reaper (some name) r)

  -- `resetApp`: the keys that begin with `collab:` go, which the reaper's queue is one of, and then the
  -- stores of the pool are retired.
  unfoldable pub reset_app : App Key Text → App Key Text
  unfolding load_accounts
  reset_app s =
      let orphans = store_names (load_accounts rt.json s.items).0 in
      record s {
        items = record {
          accounts = none;
          legacy_session = none;
          legacy_workspaces = none;
          workspaces = [];
          active_account = none;
        };
        reaper = retire_all orphans (record s.reaper { item = none });
      }

-- ===== src/Accounts/Steps.antt =====
-- A history of the accounts: any sequence of what a user does and of what the app does by itself.
use secure_collab_app.Prelude.{ℕ, Bool, String, List, [], ◌∷◌, Option}
use secure_collab_app.Accounts.State.{Runtime, App}
use secure_collab_app.Accounts.Sealing.{
  session_effect, mark_key_saved, persist_passkey_wrap, confirm_key_saved,
}
use secure_collab_app.Accounts.Recovery.{
  retry_recovery_setup, submit_recovery_key, unlock_with_passkey,
}
use secure_collab_app.Accounts.Restore.{
  unlock_and_restore, unlock_session_with_passkey, auto_restore,
}
use secure_collab_app.Accounts.SignIn.{sign_in, sign_up}
use secure_collab_app.Accounts.Leaving.{sign_out, switch_account, remove_account}
use secure_collab_app.Accounts.Workspaces.{
  create_workspace, join_workspace, refresh_workspaces, accept_invite,
}
use secure_collab_app.Accounts.Pool.{KeepsPool}
use secure_collab_app.Accounts.Keeps.{holds, held}
use secure_collab_app.Accounts.Keeps.Recovery.{
  retry_recovery_setup-Keeps, submit_recovery_key-Keeps, unlock_with_passkey-Keeps,
}
use secure_collab_app.Accounts.Keeps.Restore.{
  unlock_and_restore-Keeps, unlock_session_with_passkey-Keeps,
}
use secure_collab_app.Accounts.Keeps.Workspaces.{
  create_workspace-Keeps, join_workspace-Keeps, refresh_workspaces-Keeps, accept_invite-Keeps,
}
use secure_collab_app.Accounts.Stored.{IsPool}
use secure_collab_app.Accounts.Changes.{Pool, sign_in-Keeps, sign_up-Keeps}
use secure_collab_app.Accounts.History.{
  mark_key_saved-Keeps, persist_passkey_wrap-Keeps, confirm_key_saved-Keeps, session_effect-Keeps,
  sign_out-Pool, remove_account-Pool,
}
use secure_collab_app.Accounts.Runs.{stable, switch_account-Keeps, auto_restore-Keeps}

pub data AppStep : Type 0 where
  starts : ℕ → AppStep
  signs_in : String → String → String → ℕ → AppStep
  signs_up : String → String → String → Option String → ℕ → AppStep
  signs_out : AppStep
  switches : String → ℕ → AppStep
  removes : String → AppStep
  unlocks : String → AppStep
  unlocks_by_passkey : AppStep
  submits : String → ℕ → AppStep
  submits_by_passkey : ℕ → AppStep
  retries : ℕ → AppStep
  confirms_key : String → ℕ → AppStep
  marks_key : AppStep
  enrols : String → AppStep
  persists : ℕ → AppStep
  creates : String → AppStep
  joins : String → AppStep
  accepts : String → AppStep
  refreshes : Bool → AppStep

module _ {Key Text : Type 0} (rt : Runtime Key Text) where
  abbrev pub app_step : AppStep → App Key Text → App Key Text
  app_step (starts seed) s = (auto_restore rt seed s).1
  app_step (signs_in homeserver user password seed) s =
      (sign_in rt homeserver user password seed s).1
  app_step (signs_up homeserver user password token seed) s =
      (sign_up rt homeserver user password token seed s).1
  app_step signs_out s = sign_out rt s
  app_step (switches id seed) s = (switch_account rt id seed s).1
  app_step (removes id) s = remove_account rt id s
  app_step (unlocks secret) s = (unlock_and_restore rt secret s).1
  app_step unlocks_by_passkey s = (unlock_session_with_passkey rt s).1
  app_step (submits key seed) s = (submit_recovery_key rt key seed s).1
  app_step (submits_by_passkey seed) s = (unlock_with_passkey rt seed s).1
  app_step (retries seed) s = (retry_recovery_setup rt seed s).1
  app_step (confirms_key key seed) s = (confirm_key_saved rt key seed s).1
  app_step marks_key s = (mark_key_saved rt s).1
  app_step (enrols json) s = (persist_passkey_wrap rt json s).1
  app_step (persists seed) s = (session_effect rt seed s).1
  app_step (creates name) s = (create_workspace rt name s).1
  app_step (joins id) s = (join_workspace rt id s).1
  app_step (accepts id) s = (accept_invite rt id s).1
  app_step (refreshes syncing) s = (refresh_workspaces rt syncing s).1

  abbrev pub app_steps : List AppStep → App Key Text → App Key Text
  app_steps [] s = s
  app_steps (step ∷ steps) s = app_steps steps (app_step step s)

module _ {Key Text : Type 0} (rt : Runtime Key Text) (laws : KeepsPool rt.json) where
  app_step-Pool :
      (step : AppStep) (s : App Key Text) → Pool rt laws s → Pool rt laws (app_step rt step s)
  app_step-Pool (starts seed) s p = auto_restore-Keeps rt laws seed s p
  app_step-Pool (signs_in h u w seed) s p = sign_in-Keeps rt laws h u w seed s p
  app_step-Pool (signs_up h u w token seed) s p = sign_up-Keeps rt laws h u w token seed s p
  app_step-Pool signs_out s p = sign_out-Pool rt laws s p
  app_step-Pool (switches id seed) s p = switch_account-Keeps rt laws id seed s p
  app_step-Pool (removes id) s p = remove_account-Pool rt laws id s p
  app_step-Pool (unlocks secret) s p =
      unlock_and_restore-Keeps rt (IsPool rt.json) (stable rt laws) secret s p
  app_step-Pool unlocks_by_passkey s p =
      unlock_session_with_passkey-Keeps rt (IsPool rt.json) (stable rt laws) s p
  app_step-Pool (submits key seed) s p =
      submit_recovery_key-Keeps rt (IsPool rt.json) (stable rt laws) key seed s p
  app_step-Pool (submits_by_passkey seed) s p =
      unlock_with_passkey-Keeps rt (IsPool rt.json) (stable rt laws) seed s p
  app_step-Pool (retries seed) s p =
      retry_recovery_setup-Keeps rt (IsPool rt.json) (stable rt laws) seed s p
  app_step-Pool (confirms_key key seed) s p = confirm_key_saved-Keeps rt laws key seed s p
  app_step-Pool marks_key s p = mark_key_saved-Keeps rt laws s p
  app_step-Pool (enrols json) s p = persist_passkey_wrap-Keeps rt laws json s p
  app_step-Pool (persists seed) s p = session_effect-Keeps rt laws seed s p
  app_step-Pool (creates name) s p =
      create_workspace-Keeps rt (IsPool rt.json) (stable rt laws) name s p
  app_step-Pool (joins id) s p = join_workspace-Keeps rt (IsPool rt.json) (stable rt laws) id s p
  app_step-Pool (accepts id) s p = accept_invite-Keeps rt (IsPool rt.json) (stable rt laws) id s p
  app_step-Pool (refreshes syncing) s p =
      refresh_workspaces-Keeps rt (IsPool rt.json) (stable rt laws) syncing s p

  app_steps-Pool :
      (steps : List AppStep) (s : App Key Text)
      → Pool rt laws s
      → Pool rt laws (app_steps rt steps s)
  app_steps-Pool [] s p = p
  app_steps-Pool (step ∷ steps) s p =
      app_steps-Pool steps (app_step rt step s) (app_step-Pool step s p)

  -- Over any sequence of operations, from a pool with one entry for each user, which is the one that
  -- a reload would find and has the active account, or no account and none active: so it is at the
  -- end.
  pub app_steps-IsPool :
      (steps : List AppStep) (s : App Key Text)
      → IsPool rt.json s.accounts s.active s.items
      → IsPool rt.json
          (app_steps rt steps s).accounts
          (app_steps rt steps s).active
          (app_steps rt steps s).items
  app_steps-IsPool steps s p =
      held rt (IsPool rt.json) (app_steps rt steps s) (app_steps-Pool steps s (holds s p))

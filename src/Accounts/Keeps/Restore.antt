-- ===== src/Accounts/Keeps/Restore.antt =====
-- What the restores of a session and the unlock of a sealed one keep.
use secure_collab_app.Prelude.{ℕ, false, String, List, [], ◌∷◌, Option, some, none}
use secure_collab_app.Exec.{pure, continue}
use secure_collab_app.AtRest.Keys.{
  decrypt_string, unwrap_data_key, derive_at_rest_keys_from_data_key,
}
use secure_collab_app.AtRest.Passkeys.{parse_wrap_record, unwrap_recovery_key}
use secure_collab_app.AtRest.DeviceKey.{get_device_key}
use secure_collab_app.Accounts.State.{
  by_passkey, AccountSession, WorkspaceEntry, Session, Items, Runtime, App, truthy,
}
use secure_collab_app.Accounts.Storage.{set_workspaces}
use secure_collab_app.Accounts.Recovery.{ensure_history_access, or_secret}
use secure_collab_app.Accounts.Restore.{
  restore_session, listed_rooms, set_listed, refresh_list, device_restore, device_restore_with,
  restore_with_device_key, unlocked_keys, unlock_account, unlock_pending, unlock_and_restore,
  unlock_session_with_passkey, local_wrap, plain_restore,
}
use secure_collab_app.Accounts.Keeps.{
  Holds, holds, held, Keeps, Stable, continue-Holds, recover-Holds,
}
use secure_collab_app.Accounts.Keeps.Recovery.{ensure_history_access-Keeps}

module _ {Key Text : Type 0} (rt : Runtime Key Text)
    (P : List AccountSession → Option String → Items Text → Type 0) (st : Stable rt P) where
  pub set_workspaces-Keeps :
      (id : String) (entries : List WorkspaceEntry) → Keeps rt P (set_workspaces rt id entries)
  unfolding set_workspaces
  set_workspaces-Keeps id entries s p =
      holds _ (st.rooms id entries s.accounts s.active s.items (held rt P s p))

  set_listed-Keeps :
      (id : String) (entries : List WorkspaceEntry) → Keeps rt P (set_listed rt id entries)
  set_listed-Keeps id [] s p = p
  set_listed-Keeps id (e ∷ es) s p = set_workspaces-Keeps id (e ∷ es) s p

  pub listed_rooms-Keeps : (ms : Session) → Keeps rt P (listed_rooms rt ms)
  listed_rooms-Keeps ms s p = continue-Holds rt P ms.list_rooms _ s p (λ rooms. p)

  pub refresh_list-Keeps : (id : String) (ms : Session) → Keeps rt P (refresh_list rt id ms)
  refresh_list-Keeps id ms s p =
      let r = listed_rooms rt ms s in
      let q = listed_rooms-Keeps ms s p in
      continue-Holds rt P r.0 _ r.1 q (λ entries. set_listed-Keeps id entries r.1 q)

  device_restore_with-Keeps :
      (account : AccountSession) (wrap secrets : String) (key : Option Key)
      → Keeps rt P (device_restore_with rt account wrap secrets key)
  device_restore_with-Keeps account wrap secrets none s p = p
  device_restore_with-Keeps account wrap secrets (some key) s p =
      let h = held rt P s p in
      continue-Holds rt P (decrypt_string rt.crypto key wrap) _ s p λ data_key.
        continue-Holds rt P (derive_at_rest_keys_from_data_key rt.crypto data_key) _ s p λ keys.
          continue-Holds rt P (decrypt_string rt.crypto keys.token_key secrets) _ s p λ blob.
            continue-Holds rt P
              (restore_session rt account (some blob) (some keys.store_passphrase)) _ _ (holds _ h)
              λ ms. refresh_list-Keeps account.user_id ms _ (holds _ h)

  device_restore-Keeps :
      (account : AccountSession) (wrap secrets : Option String)
      → Keeps rt P (device_restore rt account wrap secrets)
  device_restore-Keeps account none secrets s p = p
  device_restore-Keeps account (some wrap) none s p = p
  device_restore-Keeps account (some wrap) (some secrets) s p =
      let read = get_device_key s.device in
      let t : App Key Text = record s { device = read.1 } in
      let q : Holds rt P t = holds t (held rt P s p) in
      let m = continue read.0 (device_restore_with rt account wrap secrets) t in
      let kept : Holds rt P m.1 =
        continue-Holds rt P read.0 (device_restore_with rt account wrap secrets) t q
          (λ key. device_restore_with-Keeps account wrap secrets key t q) in
      recover-Holds rt P m.0 (λ e. pure false) m.1 kept (λ e. kept)

  pub restore_with_device_key-Keeps :
      (account : AccountSession) → Keeps rt P (restore_with_device_key rt account)
  unfolding restore_with_device_key
  restore_with_device_key-Keeps account =
      device_restore-Keeps account (truthy account.device_key_wrap) (truthy account.secrets)

  unlocked_keys-Keeps :
      (secret : String) (wrap : Option String) → Keeps rt P (unlocked_keys rt secret wrap)
  unlocked_keys-Keeps secret none s p = p
  unlocked_keys-Keeps secret (some wrap) s p =
      continue-Holds rt P (unwrap_data_key rt.crypto secret wrap) _ s p
        λ data_key. holds _ (held rt P s p)

  unlock_account-Keeps :
      (secret : String) (account : AccountSession) (secrets : Option String)
      → Keeps rt P (unlock_account rt secret account secrets)
  unlock_account-Keeps secret account none s p = p
  unlock_account-Keeps secret account (some secrets) s p =
      let r = unlocked_keys rt secret (truthy account.data_key_wrap) s in
      let q = unlocked_keys-Keeps secret (truthy account.data_key_wrap) s p in
      let h = held rt P r.1 q in
      continue-Holds rt P r.0 _ r.1 q λ keys.
        continue-Holds rt P (decrypt_string rt.crypto keys.token_key secrets) _ r.1 q λ blob.
          continue-Holds rt P (restore_session rt account (some blob) (some keys.store_passphrase))
            _ _ (holds _ h)
            λ ms.
              continue-Holds rt P (ms.recover_with_key secret) _ _ (holds _ h)
                λ u. refresh_list-Keeps account.user_id ms _ (holds _ h)

  unlock_pending-Keeps :
      (secret : String) (account : Option AccountSession)
      → Keeps rt P (unlock_pending rt secret account)
  unlock_pending-Keeps secret none s p = p
  unlock_pending-Keeps secret (some account) s p =
      unlock_account-Keeps secret account (truthy account.secrets) s p

  pub unlock_and_restore-Keeps : (secret : String) → Keeps rt P (unlock_and_restore rt secret)
  unfolding unlock_and_restore
  unlock_and_restore-Keeps secret s p = unlock_pending-Keeps secret s.pending_unlock s p

  pub unlock_session_with_passkey-Keeps : Keeps rt P (unlock_session_with_passkey rt)
  unfolding unlock_session_with_passkey
  unlock_session_with_passkey-Keeps s p =
      let t : App Key Text = record s { custody = by_passkey } in
      let q : Holds rt P t = holds t (held rt P s p) in
      continue-Holds rt P rt.prf_secret _ t q λ secret.
        continue-Holds rt P
          (unwrap_recovery_key rt.crypto
            (parse_wrap_record rt.wraps (local_wrap rt s.pending_unlock)) secret)
          _ t q
          λ unwrapped.
            let r = unlock_and_restore rt (or_secret secret unwrapped) t in
            let k = unlock_and_restore-Keeps (or_secret secret unwrapped) t q in
            continue-Holds rt P r.0 _ r.1 k (λ u. holds _ (held rt P r.1 k))

  pub plain_restore-Keeps :
      (account : AccountSession) (seed : ℕ) → Keeps rt P (plain_restore rt account seed)
  plain_restore-Keeps account seed s p =
      continue-Holds rt P (restore_session rt account account.matrix_session_data none) _ s p λ ms.
        let t : App Key Text = record s { session = some ms } in
        let q : Holds rt P t = holds t (held rt P s p) in
        let r = ensure_history_access rt ms seed t in
        let k = ensure_history_access-Keeps rt P st ms seed t q in
        continue-Holds rt P r.0 _ r.1 k (λ u. refresh_list-Keeps account.user_id ms r.1 k)

-- ===== src/Accounts/Unlocked/Restores.antt =====
-- The two ways back to a sealed session: the device's key and the recovery key.
use secure_collab_app.Prelude.{
  ℕ, ◌+◌, ◌≡◌, refl, sym, ◌∙◌, true, String, List, [], ◌∷◌, Option, some,
}
use mathlib.Core.Path.{subst}
use secure_collab_app.Exec.{Result, ok, err, Exec, continue}
use secure_collab_app.AtRest.Keys.{IsWebCrypto}
use secure_collab_app.AtRest.Keys.Sealed.{blob_of-not_empty}
use secure_collab_app.AtRest.Envelope.{decrypt_string-blob, unwrap_data_key-blob}
use secure_collab_app.AtRest.DeviceKey.{get_device_key, get_device_key-create}
use secure_collab_app.Accounts.State.{AccountSession, WorkspaceEntry, Session, Runtime, App}
use secure_collab_app.Accounts.Storage.{find_account, set_workspaces}
use secure_collab_app.Accounts.Sealing.{seal_data_key}
use secure_collab_app.Accounts.Restore.{
  restore_session, restore_with_device_key, unlock_and_restore, refresh_list, listed_rooms,
  set_listed,
}
use secure_collab_app.Accounts.Unlocked.{
  Sealable, sealed_account, seal_data_key_account, seal_data_key_device,
}

module _ {Key Text : Type 0} (rt : Runtime Key Text) (laws : IsWebCrypto rt.crypto)
    (master_secret : String) (s : App Key Text) (k : Sealable rt laws master_secret s)
    (seed : ℕ) where
  later_device_key :
      (t : App Key Text)
      → t.device ≡ (seal_data_key rt master_secret seed s).1.device
      → (get_device_key t.device).0 ≡ ok (some k.device_key)
  later_device_key t e =
      rw (e, (seal_data_key_device rt laws master_secret s k seed))
        (get_device_key-create rt.generated_key rt.generated_key s.device k.device_key
          k.on_device).1

  -- What a later session is restored with, and what it then keeps.
  pub record Restored (t : App Key Text) (ms : Session) : Type 0 where
    pub session : t.session ≡ some ms
    pub data_key : t.data_key ≡ some k.data_key
    pub keys : t.at_rest_keys ≡ some k.keys

  continue-Restored :
      {A B : Type 0} (r : Result A) (f : A → Exec (App Key Text) B) (t : App Key Text)
      (ms : Session)
      → Restored t ms
      → ((a : A) → Restored (f a t).1 ms)
      → Restored (continue r f t).1 ms
  continue-Restored (ok a) f t ms p h = h a
  continue-Restored (err e) f t ms p h = p

  set_listed-Restored :
      (id : String) (entries : List WorkspaceEntry) (t : App Key Text) (ms : Session)
      → Restored t ms
      → Restored (set_listed rt id entries t).1 ms
  unfolding set_workspaces
  set_listed-Restored id [] t ms p = p
  set_listed-Restored id (e ∷ es) t ms p = record {
    session = p.session;
    data_key = p.data_key;
    keys = p.keys;
  }

  refresh_list-Restored :
      (id : String) (t : App Key Text) (ms : Session)
      → Restored t ms
      → Restored (refresh_list rt id ms t).1 ms
  refresh_list-Restored id t ms p =
      let r = listed_rooms rt ms t in
      let q : Restored r.1 ms = continue-Restored ms.list_rooms _ t ms p (λ rooms. p) in
      continue-Restored r.0 _ r.1 ms q (λ entries. set_listed-Restored id entries r.1 ms q)

  device-Restored :
      (t : App Key Text) (ms : Session)
      → t.device ≡ (seal_data_key rt master_secret seed s).1.device
      → restore_session rt
          (sealed_account rt laws master_secret s k seed)
          (some k.session.session_data)
          (some k.keys.store_passphrase)
        ≡ ok ms
      → ((restore_with_device_key rt (sealed_account rt laws master_secret s k seed) t).0 ≡ ok true)
        × Restored
            (restore_with_device_key rt (sealed_account rt laws master_secret s k seed) t).1
            ms
  unfolding restore_with_device_key
  device-Restored t ms e r =
      rw
        (
          blob_of-not_empty rt.crypto laws k.device_key k.device_aes (seed + 1) k.data_key,
          blob_of-not_empty rt.crypto laws k.keys.token_key k.token_aes (seed + 2)
              k.session.session_data,
          later_device_key t e,
          decrypt_string-blob rt.crypto laws k.device_key k.device_aes (seed + 1) k.data_key
              k.plain_key,
          k.derived,
          decrypt_string-blob rt.crypto laws k.keys.token_key k.token_aes (seed + 2)
              k.session.session_data k.plain_blob,
          r,
        )
        (
          refl,
          refresh_list-Restored (sealed_account rt laws master_secret s k seed).user_id _ ms
              (record { session = refl; data_key = refl; keys = refl }),
        )

  secret-Restored :
      (t : App Key Text) (ms : Session)
      → t.pending_unlock ≡ some (sealed_account rt laws master_secret s k seed)
      → restore_session rt
          (sealed_account rt laws master_secret s k seed)
          (some k.session.session_data)
          (some k.keys.store_passphrase)
        ≡ ok ms
      → ms.recover_with_key master_secret ≡ ok tt
      → ((unlock_and_restore rt master_secret t).0 ≡ ok tt)
        × Restored (unlock_and_restore rt master_secret t).1 ms
  unfolding unlock_and_restore
  secret-Restored t ms e r h =
      rw
        (
          e,
          blob_of-not_empty rt.crypto laws k.keys.token_key k.token_aes (seed + 2)
              k.session.session_data,
          blob_of-not_empty rt.crypto laws k.master.key k.master.aes seed k.data_key,
          unwrap_data_key-blob rt.crypto laws master_secret k.master seed k.data_key k.plain_key,
          k.derived,
          decrypt_string-blob rt.crypto laws k.keys.token_key k.token_aes (seed + 2)
              k.session.session_data k.plain_blob,
          r,
          h,
        )
        (
          refl,
          refresh_list-Restored (sealed_account rt laws master_secret s k seed).user_id _ ms
              (record { session = refl; data_key = refl; keys = refl }),
        )

  found_sealed :
      {account : AccountSession}
      → find_account k.uid (seal_data_key rt master_secret seed s).1.accounts ≡ some account
      → (sealed_account rt laws master_secret s k seed) ≡ account
  found_sealed e = some-injective (sym (seal_data_key_account rt laws master_secret s k seed) ∙ e)
    where
      some-injective :
          {a b : AccountSession} → ◌≡◌ {A = Option AccountSession} (some a) (some b) → a ≡ b
      some-injective e = cc

  -- Where the data key has been sealed, a later session of this browser, with the device's database
  -- as the sealing left it, restores the entry that is in the pool without asking: with the session
  -- blob of then and the store passphrase of the data key, if the session opens with these. It then
  -- holds the data key and its keys.
  pub seal_data_key-device :
      (account : AccountSession) (t : App Key Text) (ms : Session)
      → find_account k.uid (seal_data_key rt master_secret seed s).1.accounts ≡ some account
      → t.device ≡ (seal_data_key rt master_secret seed s).1.device
      → restore_session rt account (some k.session.session_data) (some k.keys.store_passphrase)
        ≡ ok ms
      → ((restore_with_device_key rt account t).0 ≡ ok true)
        × Restored (restore_with_device_key rt account t).1 ms
  seal_data_key-device account t ms e =
      subst
        (λ a.
          t.device ≡ (seal_data_key rt master_secret seed s).1.device
          → restore_session rt a (some k.session.session_data) (some k.keys.store_passphrase)
            ≡ ok ms
          → ((restore_with_device_key rt a t).0 ≡ ok true)
            × Restored (restore_with_device_key rt a t).1 ms)
        (found_sealed e) (device-Restored t ms)

  -- Where the data key has been sealed under a recovery key, the recovery key alone unlocks the entry
  -- that is in the pool: the session is opened with the blob of then and the store passphrase of the
  -- data key, if it opens with these and the server takes the recovery key.
  pub seal_data_key-secret :
      (account : AccountSession) (t : App Key Text) (ms : Session)
      → find_account k.uid (seal_data_key rt master_secret seed s).1.accounts ≡ some account
      → t.pending_unlock ≡ some account
      → restore_session rt account (some k.session.session_data) (some k.keys.store_passphrase)
        ≡ ok ms
      → ms.recover_with_key master_secret ≡ ok tt
      → ((unlock_and_restore rt master_secret t).0 ≡ ok tt)
        × Restored (unlock_and_restore rt master_secret t).1 ms
  seal_data_key-secret account t ms e =
      subst
        (λ a.
          t.pending_unlock ≡ some a
          → restore_session rt a (some k.session.session_data) (some k.keys.store_passphrase)
            ≡ ok ms
          → ms.recover_with_key master_secret ≡ ok tt
          → ((unlock_and_restore rt master_secret t).0 ≡ ok tt)
            × Restored (unlock_and_restore rt master_secret t).1 ms)
        (found_sealed e) (secret-Restored t ms)

-- ===== src/Accounts/Unlocked.antt =====
-- What the sealing of the data key leaves on the disk, and the two ways back from it: the device's key
-- and the recovery key.
pub mod Restores
use secure_collab_app.Prelude.{
  ℕ, ◌+◌, ◌≡◌, refl, sym, ap, ◌∙◌, Bool, true, false, ◌==◌, String, List, [], ◌∷◌, Option, some,
  none, if◌then◌else◌, find, is_empty, Bool-cases, inl, inr,
}
use mathlib.Core.Path.{subst}
use secure_collab_app.Exec.{Result, ok, err, Exec, continue, ◌>>=◌, ◌>>◌}
use secure_collab_app.AtRest.Keys.{
  IsWebCrypto, IsAesKey, AtRestKeys, begins_with_bom, derive_at_rest_keys_from_data_key,
}
use secure_collab_app.AtRest.Keys.Sealed.{blob_of, encrypt_string_blob, blob_of-not_empty}
use secure_collab_app.AtRest.Envelope.{
  Derives, decrypt_string-blob, wrap_data_key_blob, unwrap_data_key-blob,
}
use secure_collab_app.AtRest.DeviceKey.{
  get_or_create_device_key, get_device_key, get_device_key-create,
}
use secure_collab_app.Accounts.State.{AccountSession, WorkspaceEntry, Session, Runtime, App, truthy}
use secure_collab_app.Accounts.Storage.{
  has_user, find_account, patch_account, set_accounts, set_workspaces,
}
use secure_collab_app.Accounts.Sealing.{
  with_wraps, seal_with, seal_data_key, session_user, session_blob, write_wraps,
}
use secure_collab_app.Accounts.Restore.{
  restore_session, restore_with_device_key, unlock_and_restore, refresh_list, listed_rooms,
  set_listed,
}
use secure_collab_app.Accounts.Stored.{with_wraps-user}

pub find_account-patch :
    (uid : String) (f : AccountSession → AccountSession) (accounts : List AccountSession)
    {a : AccountSession}
    → ((a : AccountSession) → (f a).user_id ≡ a.user_id)
    → find_account uid accounts ≡ some a
    → find_account uid (patch_account uid f accounts) ≡ some (f a)
unfolding patch_account
find_account-patch uid f [] h e = cc
find_account-patch uid f (b ∷ rest) {a} h e = elim (Bool-cases (b.user_id == uid)) [
  | inl t ↦
      let still : has_user uid (f b) ≡ true = ap (λ u. u == uid) (h b) ∙ t in
      rw (t, still) (patched (rw t at e))
  | inr t ↦ rw (t, t) (find_account-patch uid f rest h (rw t at e))
]
  where
    patched : some b ≡ some a → ◌≡◌ {A = Option AccountSession} (some (f b)) (some (f a))
    patched q = cc

-- A text that is not empty.
pub truthy-some : (s : String) → is_empty s ≡ false → truthy (some s) ≡ some s
truthy-some s h = rw (h, truthy) refl

-- A signed-in account with a data key in memory, and keys that AES-GCM can use.
module _ {Key Text : Type 0} (rt : Runtime Key Text) (laws : IsWebCrypto rt.crypto) where
  pub record Sealable (master_secret : String) (s : App Key Text) : Type 0 where
    pub session : Session
    pub uid : String
    pub data_key : String
    pub device_key : Key
    pub keys : AtRestKeys Key
    pub account : AccountSession
    pub master : Derives rt.crypto laws master_secret
    pub device_aes : IsAesKey rt.crypto device_key
    pub token_aes : IsAesKey rt.crypto keys.token_key
    pub has_secret : is_empty master_secret ≡ false
    pub in_memory : truthy s.data_key ≡ some data_key
    pub signed_in : s.session ≡ some session
    pub user : truthy session.user_id ≡ some uid
    pub in_pool : find_account uid s.accounts ≡ some account
    pub blob : is_empty session.session_data ≡ false
    pub on_device : (get_or_create_device_key rt.generated_key s.device).0 ≡ ok device_key
    pub derived : derive_at_rest_keys_from_data_key rt.crypto data_key ≡ ok keys
    pub plain_key : begins_with_bom data_key ≡ false
    pub plain_blob : begins_with_bom session.session_data ≡ false

  module _ (master_secret : String) (s : App Key Text) (k : Sealable master_secret s)
      (seed : ℕ) where
    -- The entry that the sealing writes.
    abbrev pub sealed_account : AccountSession
    sealed_account =
        with_wraps s.custody (blob_of rt.crypto laws k.master.key k.master.aes seed k.data_key)
          (blob_of rt.crypto laws k.device_key k.device_aes (seed + 1) k.data_key)
          (some
            (blob_of rt.crypto laws k.keys.token_key k.token_aes (seed + 2) k.session.session_data))
          k.account

    pub seal_data_key_account :
        find_account k.uid (seal_data_key rt master_secret seed s).1.accounts ≡ some sealed_account
    unfolding seal_data_key set_accounts
    seal_data_key_account =
        rw
          (
            k.has_secret,
            k.in_memory,
            k.on_device,
            wrap_data_key_blob rt.crypto laws master_secret k.master seed k.data_key,
            encrypt_string_blob rt.crypto laws k.device_key k.device_aes (seed + 1) k.data_key,
            k.derived,
            k.signed_in,
            k.user,
            k.blob,
            encrypt_string_blob rt.crypto laws k.keys.token_key k.token_aes (seed + 2)
                k.session.session_data,
          )
          (find_account-patch k.uid _ s.accounts (λ a. refl) k.in_pool)

    pub seal_data_key_device :
        (seal_data_key rt master_secret seed s).1.device
        ≡ (get_or_create_device_key rt.generated_key s.device).1
    unfolding seal_data_key set_accounts
    seal_data_key_device =
        rw
          (
            k.has_secret,
            k.in_memory,
            k.on_device,
            wrap_data_key_blob rt.crypto laws master_secret k.master seed k.data_key,
            encrypt_string_blob rt.crypto laws k.device_key k.device_aes (seed + 1) k.data_key,
            k.derived,
            k.signed_in,
            k.user,
            k.blob,
            encrypt_string_blob rt.crypto laws k.keys.token_key k.token_aes (seed + 2)
                k.session.session_data,
          )
          refl

-- ===== src/AtRest/Envelope.antt =====
-- The data key in its envelope, ui/src/lib/atRestCrypto.ts, and a snapshot that is sealed by what is
-- derived from it, ui/src/lib/snapshotStore.ts.
use secure_collab_app.Prelude.{ℕ, ◌≡◌, refl, false, String, some, if◌then◌else◌, is_empty}
use secure_collab_app.Exec.{ok}
use secure_collab_app.Stores.{
  Db, Works, CanKeep, keyed, load_record, save_snapshot, load_record-save,
}
use secure_collab_app.AtRest.Keys.{
  WebCrypto, IsWebCrypto, IsAesKey, AtRestKeys, ◌>>=◌, begins_with_bom, encrypt_string,
  decrypt_string, wrap_key_for, wrap_data_key, unwrap_data_key, web_cipher,
  derive_at_rest_keys_from_data_key,
}
use secure_collab_app.AtRest.Keys.Sealed.{blob_of, encrypt_string_blob, decrypt_string-encrypt}

module _ {Key : Type 0} (w : WebCrypto Key) (laws : IsWebCrypto w) where
  -- A secret gives a key that AES-GCM can use.
  pub record Derives (master_secret : String) : Type 0 where
    pub key : Key
    pub derives : wrap_key_for w master_secret ≡ ok key
    pub aes : IsAesKey w key

  pub decrypt_string-blob :
      (key : Key) (aes : IsAesKey w key) (seed : ℕ) (s : String)
      → begins_with_bom s ≡ false
      → decrypt_string w key (blob_of w laws key aes seed s) ≡ ok s
  decrypt_string-blob key aes seed s h =
      let e : (encrypt_string w key seed s >>= decrypt_string w key) ≡ ok s =
        decrypt_string-encrypt w laws key aes seed s h in
      rw (encrypt_string_blob w laws key aes seed s) at e

  pub wrap_data_key_blob :
      (master_secret : String) (d : Derives master_secret) (seed : ℕ) (data_key : String)
      → wrap_data_key w master_secret seed data_key ≡ ok (blob_of w laws d.key d.aes seed data_key)
  unfolding wrap_data_key
  wrap_data_key_blob master_secret d seed data_key =
      rw d.derives (encrypt_string_blob w laws d.key d.aes seed data_key)

  pub unwrap_data_key-blob :
      (master_secret : String) (d : Derives master_secret) (seed : ℕ) (data_key : String)
      → begins_with_bom data_key ≡ false
      → unwrap_data_key w master_secret (blob_of w laws d.key d.aes seed data_key) ≡ ok data_key
  unfolding unwrap_data_key
  unwrap_data_key-blob master_secret d seed data_key h =
      rw d.derives (decrypt_string-blob d.key d.aes seed data_key h)

  -- Each text that no byte order mark begins is kept by a store under an AES key.
  pub web_cipher-CanKeep :
      (key : Key) (aes : IsAesKey w key) (s : String)
      → begins_with_bom s ≡ false
      → CanKeep (web_cipher w) (some key) s
  web_cipher-CanKeep key aes s h = keyed record {
    blob = λ seed. blob_of w laws key aes seed s;
    seals = λ seed. encrypt_string_blob w laws key aes seed s;
    unseals = λ seed. decrypt_string-blob key aes seed s h;
  }

  -- Where two secrets give AES keys, a data key that is wrapped under one, unwrapped, wrapped under the
  -- other and unwrapped again is the same data key.
  pub wrap_data_key_rotate :
      (old new : String) (d : Derives old) (d' : Derives new) (seed seed' : ℕ) (data_key : String)
      → begins_with_bom data_key ≡ false
      → (do
        wrapped ← wrap_data_key w old seed data_key
        opened ← unwrap_data_key w old wrapped
        rewrapped ← wrap_data_key w new seed' opened
        unwrap_data_key w new rewrapped)
        ≡ ok data_key
  wrap_data_key_rotate old new d d' seed seed' data_key h =
      rw
        (
          wrap_data_key_blob old d seed data_key,
          unwrap_data_key-blob old d seed data_key h,
          wrap_data_key_blob new d' seed' data_key,
        )
        (unwrap_data_key-blob new d' seed' data_key h)

  -- A snapshot that one session saves under the snapshot key derived from a data key is what a later
  -- session loads that knows the secret alone: it unwraps the data key, derives the keys and opens the
  -- record. The snapshot is not empty and no byte order mark begins it or the data key.
  pub load_record-unwrap :
      (master_secret data_key id snapshot : String) (d : Derives master_secret)
      (keys : AtRestKeys Key) (seed seed' : ℕ) (db : Db)
      → derive_at_rest_keys_from_data_key w data_key ≡ ok keys
      → IsAesKey w keys.snapshot_key
      → Works db
      → begins_with_bom data_key ≡ false
      → begins_with_bom snapshot ≡ false
      → is_empty snapshot ≡ false
      → (do
        wrapped ← wrap_data_key w master_secret seed data_key
        opened ← unwrap_data_key w master_secret wrapped
        later ← derive_at_rest_keys_from_data_key w opened
        ok (
            load_record
              (web_cipher w)
              id
              (some later.snapshot_key)
              (save_snapshot (web_cipher w) id snapshot (some keys.snapshot_key) seed' db)))
        ≡ ok (some snapshot)
  load_record-unwrap master_secret data_key id snapshot d keys seed seed' db e aes works h h' f =
      let saved : load_record (web_cipher w) id (some keys.snapshot_key)
            (save_snapshot (web_cipher w) id snapshot (some keys.snapshot_key) seed' db)
          ≡ (if is_empty snapshot
              then load_record (web_cipher w) id (some keys.snapshot_key) db
              else some snapshot) =
        (load_record-save (web_cipher w) id snapshot (some keys.snapshot_key) seed' db works
          (web_cipher-CanKeep keys.snapshot_key aes snapshot h')).1 in
      rw
        (
          wrap_data_key_blob master_secret d seed data_key,
          unwrap_data_key-blob master_secret d seed data_key h,
          e,
          saved,
          f,
        )
        refl

-- ===== src/AtRest/Keys.antt =====
-- The keys and the sealed texts of ui/src/lib/atRestCrypto.ts. A number stands for the random bytes
-- of one call of `getRandomValues`.
pub mod Sealed
use secure_collab_app.Prelude.{
  ℕ, zero, suc, ◌+◌, ◌*◌, ◌≤◌, ◌≡◌, refl, ap, inl, inr, Bool-cases, Bool, true, false, String, List,
  [], ◌∷◌, ◌++◌, if◌then◌else◌, Option, some, none, ltb, eqb, is_empty, take, drop, length,
  length-append, arith,
}
use Prim.Native.Char.{code}
use secure_collab_app.Exec.{Result, ok, err}
use secure_collab_app.Stores.{Cipher}
use secure_collab_app.AtRest.Base64.{Base64, IsBase64, b64url_encode, b64url_decode}

-- `import_key` is `importKey('raw', ...)` for an algorithm, and `derive_bits` takes the salt, the
-- info and the number of bits of HKDF.
pub record WebCrypto (Key : Type 0) : Type 0 where
  pub available : Bool
  pub encode : String → List ℕ
  pub decode : List ℕ → String
  pub random : ℕ → ℕ → List ℕ
  pub import_key : String → List ℕ → Result Key
  pub derive_bits : Key → List ℕ → List ℕ → ℕ → Result (List ℕ)
  pub encrypt : Key → List ℕ → List ℕ → Result (List ℕ)
  pub decrypt : Key → List ℕ → List ℕ → Result (List ℕ)
  pub base64 : Base64

infixl 5 ◌>>=◌
abbrev pub ◌>>=◌ {ℓ κ} : {A : Type ℓ} {B : Type κ} → Result A → (A → Result B) → Result B
ok a >>= f = f a
err e >>= f = err e

pub record AtRestKeys (Key : Type 0) : Type 0 where
  pub store_passphrase : String
  pub token_key : Key
  pub snapshot_key : Key

abbrev hkdf_salt : String
hkdf_salt = "io.tidework.atrest.v1"

abbrev dk_salt : String
dk_salt = "io.tidework.atrest.datakey.v1"

abbrev wrap_salt : String
wrap_salt = "io.tidework.atrest.wrap.v1"

-- A blob with more bytes than the iv is opened.
abbrev pub decrypt_bytes : {Key : Type 0} → WebCrypto Key → Key → List ℕ → Result String
decrypt_bytes w key bytes =
    if ltb (length bytes) 13
    then err "decryptString: blob too short"
    else (if w.available
        then (do pt ← w.decrypt key (take 12 bytes) (drop 12 bytes); ok (w.decode pt))
        else err "WebCrypto (crypto.subtle) unavailable")

module _ {Key : Type 0} (w : WebCrypto Key) where
  -- `subtle()`, and what is called on it
  abbrev pub subtle {ℓ} : {A : Type ℓ} → Result A → Result A
  subtle call = if w.available then call else err "WebCrypto (crypto.subtle) unavailable"

  unfoldable pub hkdf_bits : String → String → String → ℕ → Result (List ℕ)
  hkdf_bits ikm_string salt info bytes = do
    ikm ← subtle (w.import_key "HKDF" (w.encode ikm_string))
    subtle (w.derive_bits ikm (w.encode salt) (w.encode info) (bytes * 8))

  unfoldable pub derive_aes_key : String → String → String → Result Key
  unfolding hkdf_bits
  derive_aes_key ikm_string salt info = do
    bits ← hkdf_bits ikm_string salt info 32
    subtle (w.import_key "AES-GCM" bits)

  -- `deriveAtRestKeys`
  unfoldable pub derive_at_rest_keys : String → Result (AtRestKeys Key)
  unfolding hkdf_bits derive_aes_key
  derive_at_rest_keys master_secret =
      if is_empty master_secret then err "deriveAtRestKeys: empty master secret" else do
        pass_bits ← hkdf_bits master_secret hkdf_salt "sdk-store-passphrase" 32
        token_key ← derive_aes_key master_secret hkdf_salt "session-token-key"
        snapshot_key ← derive_aes_key master_secret hkdf_salt "workspace-snapshot-key"
        ok record {
          store_passphrase = b64url_encode w.base64 pass_bits;
          token_key = token_key;
          snapshot_key = snapshot_key;
        }

  -- `deriveStorePassphrase`
  unfoldable pub derive_store_passphrase : String → Result String
  unfolding hkdf_bits
  derive_store_passphrase master_secret = do
    bits ← hkdf_bits master_secret hkdf_salt "sdk-store-passphrase" 32
    ok (b64url_encode w.base64 bits)

  -- `encryptString`
  unfoldable pub encrypt_string : Key → ℕ → String → Result String
  encrypt_string key seed plaintext = do
    let iv = w.random 12 seed
    ct ← subtle (w.encrypt key iv (w.encode plaintext))
    ok (b64url_encode w.base64 (iv ++ ct))

  -- `decryptString`
  unfoldable pub decrypt_string : Key → String → Result String
  decrypt_string key blob = do bytes ← b64url_decode w.base64 blob; decrypt_bytes w key bytes

  -- `generateDataKey`
  unfoldable pub generate_data_key : ℕ → String
  generate_data_key seed = b64url_encode w.base64 (w.random 32 seed)

  -- `deriveAtRestKeysFromDataKey`
  unfoldable pub derive_at_rest_keys_from_data_key : String → Result (AtRestKeys Key)
  unfolding hkdf_bits
  derive_at_rest_keys_from_data_key data_key =
      if is_empty data_key then err "deriveAtRestKeysFromDataKey: empty data key" else do
        pass_bits ← hkdf_bits data_key dk_salt "sdk-store-passphrase" 32
        token_bits ← hkdf_bits data_key dk_salt "session-token-key" 32
        snapshot_bits ← hkdf_bits data_key dk_salt "workspace-snapshot-key" 32
        token_key ← subtle (w.import_key "AES-GCM" token_bits)
        snapshot_key ← subtle (w.import_key "AES-GCM" snapshot_bits)
        ok record {
          store_passphrase = b64url_encode w.base64 pass_bits;
          token_key = token_key;
          snapshot_key = snapshot_key;
        }

  -- `deriveStorePassphraseFromDataKey`
  unfoldable pub derive_store_passphrase_from_data_key : String → Result String
  unfolding hkdf_bits
  derive_store_passphrase_from_data_key data_key = do
    bits ← hkdf_bits data_key dk_salt "sdk-store-passphrase" 32
    ok (b64url_encode w.base64 bits)

  -- `wrapKeyFor`
  unfoldable pub wrap_key_for : String → Result Key
  unfolding derive_aes_key
  wrap_key_for master_secret =
      if is_empty master_secret
      then err "data-key wrap: empty master secret"
      else derive_aes_key master_secret wrap_salt "data-key-wrap"

  -- `wrapDataKey`
  unfoldable pub wrap_data_key : String → ℕ → String → Result String
  wrap_data_key master_secret seed data_key = do
    key ← wrap_key_for master_secret
    encrypt_string key seed data_key

  -- `unwrapDataKey`
  unfoldable pub unwrap_data_key : String → String → Result String
  unwrap_data_key master_secret wrapped = do
    key ← wrap_key_for master_secret
    decrypt_string key wrapped

  -- The sealing that the stores of snapshots and of unsent writes use.
  abbrev pub web_cipher : Cipher Key
  web_cipher = record { seal = encrypt_string; unseal = decrypt_string }

abbrev pub begins_with_bom : String → Bool
begins_with_bom String.[] = false
begins_with_bom (String.◌∷◌ c s) = eqb (code c) 65279

-- What the browser documents: random bytes of the length asked for, base64, and UTF-8, whose decoder
-- drops a byte order mark at the start.
pub record IsWebCrypto {Key : Type 0} (w : WebCrypto Key) : Type 0 where
  pub available : w.available ≡ true
  pub random_length : (n seed : ℕ) → length (w.random n seed) ≡ n
  pub base64 : IsBase64 w.base64
  pub decode-encode : (s : String) → begins_with_bom s ≡ false → w.decode (w.encode s) ≡ s

-- What AES-GCM gives for a key and an iv of twelve bytes: a text with a tag, which the key opens.
pub record IsAesKey {Key : Type 0} (w : WebCrypto Key) (key : Key) : Type 0 where
  pub sealed : List ℕ → List ℕ → List ℕ
  pub encrypts :
      (iv bytes : List ℕ) → length iv ≡ 12 → w.encrypt key iv bytes ≡ ok (sealed iv bytes)
  pub tagged : (iv bytes : List ℕ) → length iv ≡ 12 → 16 ≤ length (sealed iv bytes)
  pub decrypts :
      (iv bytes : List ℕ) → length iv ≡ 12 → w.decrypt key iv (sealed iv bytes) ≡ ok bytes

-- ===== src/AtRest/Tests.antt =====
-- The theorems about what is kept sealed at a WebCrypto that keeps its laws.
use secure_collab_app.Prelude.{ℕ, ◌≡◌, refl, inr, true, none, some, [], ◌∷◌}
use secure_collab_app.Exec.{Result, ok, err}
use secure_collab_app.Stores.{Db, load_record, save_snapshot}
use secure_collab_app.AtRest.Base64.{b64url_encode, b64url_decode}
use secure_collab_app.AtRest.Keys.{
  ◌>>=◌, AtRestKeys, encrypt_string, decrypt_string, hkdf_bits, derive_aes_key, wrap_key_for,
  wrap_data_key, unwrap_data_key, derive_at_rest_keys_from_data_key, web_cipher,
}
use secure_collab_app.AtRest.Keys.Sealed.{decrypt_string-encrypt}
use secure_collab_app.AtRest.Envelope.{Derives, load_record-unwrap}
use secure_collab_app.AtRest.Passkeys.{
  PasskeyWrapRecord, Entry, add_passkey_wrap, unwrap_recovery_key, derive_wrap_key,
}
use secure_collab_app.AtRest.Passkeys.Unlock.{DerivesWrap, unwrap_recovery_key-add}
use secure_collab_app.AtRest.DeviceKey.{KeyDb}
use secure_collab_app.AtRest.Sample.{
  sample_crypto, sample_crypto-IsWebCrypto, sample_crypto-IsAesKey,
}

decrypt_string-encrypt_example :
    (encrypt_string sample_crypto 7 3 "secret" >>= decrypt_string sample_crypto 7) ≡ ok "secret"
decrypt_string-encrypt_example =
    decrypt_string-encrypt sample_crypto sample_crypto-IsWebCrypto 7 (sample_crypto-IsAesKey 7) 3
      "secret" refl

m-Derives : Derives sample_crypto sample_crypto-IsWebCrypto "m"
unfolding wrap_key_for derive_aes_key hkdf_bits
m-Derives = record { key = 209; derives = refl; aes = sample_crypto-IsAesKey 209 }

abbrev sample_keys : AtRestKeys ℕ
sample_keys = record {
  store_passphrase = b64url_encode sample_crypto.base64 (222 ∷ []);
  token_key = 222;
  snapshot_key = 226;
}

sample_keys_derived : derive_at_rest_keys_from_data_key sample_crypto "k" ≡ ok sample_keys
unfolding derive_at_rest_keys_from_data_key hkdf_bits
sample_keys_derived = refl

abbrev empty_db : Db
empty_db = record { opens = true; commits = true; records = [] }

load_record-unwrap_example :
    (do
      wrapped ← wrap_data_key sample_crypto "m" 1 "k"
      opened ← unwrap_data_key sample_crypto "m" wrapped
      later ← derive_at_rest_keys_from_data_key sample_crypto opened
      ok (
          load_record
            (web_cipher sample_crypto)
            "!r:x"
            (some later.snapshot_key)
            (save_snapshot (web_cipher sample_crypto) "!r:x" "rows" (some 226) 2 empty_db)))
    ≡ ok (some "rows")
load_record-unwrap_example =
    load_record-unwrap sample_crypto sample_crypto-IsWebCrypto "m" "k" "!r:x" "rows" m-Derives
      sample_keys 1 2 empty_db sample_keys_derived (sample_crypto-IsAesKey 226)
      (record { opens = refl; commits = refl }) refl refl refl

p-DerivesWrap : DerivesWrap sample_crypto sample_crypto-IsWebCrypto "p"
unfolding derive_wrap_key derive_aes_key hkdf_bits
p-DerivesWrap = record { key = 226; derives = refl; aes = sample_crypto-IsAesKey 226 }

-- A record with a wrap of another passkey, which this one's key does not open.
abbrev laptop_wrap : PasskeyWrapRecord
laptop_wrap = record {
  wraps = record { credential_id = "laptop"; wrap = "0"; label = none; added_at = none } ∷ [];
}

laptop_wrap_shut : decrypt_string sample_crypto 226 "0" ≡ err "decryptString: blob too short"
unfolding decrypt_string b64url_decode
laptop_wrap_shut = refl

abbrev phone : Entry
phone = record { credential_id = "phone"; prf_secret = "p"; recovery_key = "EsT1"; label = none }

unwrap_recovery_key-add_example :
    (do
      enrolled ← add_passkey_wrap sample_crypto laptop_wrap phone 1 5
      unwrap_recovery_key sample_crypto enrolled "p")
    ≡ ok (some "EsT1")
unfolding p-DerivesWrap
unwrap_recovery_key-add_example =
    unwrap_recovery_key-add sample_crypto sample_crypto-IsWebCrypto laptop_wrap phone p-DerivesWrap
      1 5 refl refl refl (inr ("decryptString: blob too short", laptop_wrap_shut), tt)

abbrev no_key_yet : KeyDb ℕ
no_key_yet = record { opens = true; reads = true; commits = true; stored = none }

abbrev first_key : Result ℕ
first_key = ok 8

abbrev later_key : Result ℕ
later_key = ok 9

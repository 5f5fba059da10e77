-- ===== src/AtRest/Passkeys.antt =====
-- The wraps of the recovery key, ui/src/lib/passkeyWrap.ts. JSON and the account data of the session
-- are parameters; the clock is an argument.
pub mod Unlock
use secure_collab_app.Prelude.{
  ℕ, ◌≡◌, ◌⊎◌, inl, inr, refl, sym, ◌∙◌, Bool, true, false, not, ◌&&◌, ◌==◌, String, List, [], ◌∷◌,
  ◌++◌, if◌then◌else◌, Option, some, none, is_empty, is_nil, filter, map, All, Bool-cases, eq_iff,
  eq_refl, eqb, arith,
}
use secure_collab_app.Assoc.{map_get, map_set, map_get-set}
use secure_collab_app.Exec.{Result, ok, err}
use secure_collab_app.AtRest.Keys.{
  WebCrypto, IsWebCrypto, IsAesKey, ◌>>=◌, begins_with_bom, encrypt_string, decrypt_string,
  derive_aes_key,
}

pub record PasskeyWrap : Type 0 where
  pub credential_id : String
  pub wrap : String
  pub label : Option String
  pub added_at : Option ℕ

-- A record is of version 1.
pub record PasskeyWrapRecord : Type 0 where
  pub wraps : List PasskeyWrap

-- An element of `wraps` in a stored record: its fields that are of the right type.
pub record ParsedWrap : Type 0 where
  pub credential_id : Option String
  pub wrap : Option String
  pub label : Option String
  pub added_at : Option ℕ

-- A stored record: its version if it has one, and its elements if they are an array.
pub record ParsedRecord : Type 0 where
  pub v : Option ℕ
  pub wraps : Option (List ParsedWrap)

-- `parse` gives none where the text is no JSON.
pub record RecordJson : Type 0 where
  pub parse : String → Option ParsedRecord
  pub stringify : PasskeyWrapRecord → String

-- What a session keeps as account data, and whether the homeserver answers.
pub record AccountData : Type 0 where
  pub items : List (String × String)
  pub readable : Bool
  pub writable : Bool

pub record Entry : Type 0 where
  pub credential_id : String
  pub prf_secret : String
  pub recovery_key : String
  pub label : Option String

abbrev passkey_wrap_event_type : String
passkey_wrap_event_type = "io.tidework.passkey_wrap"

abbrev pub empty_wrap_record : PasskeyWrapRecord
empty_wrap_record = record { wraps = [] }

abbrev kept_wraps_if :
    Option String → Option String → ParsedWrap → List PasskeyWrap → List PasskeyWrap
kept_wraps_if none wrap p rest = rest
kept_wraps_if (some id) none p rest = rest
kept_wraps_if (some id) (some wrap) p rest =
    record { credential_id = id; wrap = wrap; label = p.label; added_at = p.added_at } ∷ rest

unfoldable pub kept_wraps : List ParsedWrap → List PasskeyWrap
kept_wraps [] = []
kept_wraps (p ∷ ps) = kept_wraps_if p.credential_id p.wrap p (kept_wraps ps)

abbrev is_version_1 : Option ℕ → Bool
is_version_1 none = false
is_version_1 (some v) = eqb v 1

abbrev wraps_of : Option (List ParsedWrap) → PasskeyWrapRecord
wraps_of none = empty_wrap_record
wraps_of (some ps) = record { wraps = kept_wraps ps }

abbrev record_of : Option ParsedRecord → PasskeyWrapRecord
record_of none = empty_wrap_record
record_of (some p) = if not (is_version_1 p.v) then empty_wrap_record else wraps_of p.wraps

-- `parseWrapRecord`
unfoldable pub parse_wrap_record : RecordJson → Option String → PasskeyWrapRecord
unfolding kept_wraps
parse_wrap_record j none = empty_wrap_record
parse_wrap_record j (some json) =
    if is_empty json then empty_wrap_record else record_of (j.parse json)

abbrev pub has_id : String → PasskeyWrap → Bool
has_id id p = p.credential_id == id

-- `removePasskeyWrap`
unfoldable pub remove_passkey_wrap : PasskeyWrapRecord → String → PasskeyWrapRecord
remove_passkey_wrap r id = record { wraps = filter (λ p. not (has_id id p)) r.wraps }

-- `hasEnrolledPasskey`
unfoldable pub has_enrolled_passkey : PasskeyWrapRecord → Bool
has_enrolled_passkey r = not (is_nil r.wraps)

-- `loadWrapRecord`
unfoldable pub load_wrap_record : RecordJson → AccountData → PasskeyWrapRecord
unfolding parse_wrap_record
load_wrap_record j s =
    if s.readable
    then parse_wrap_record j (map_get passkey_wrap_event_type s.items)
    else empty_wrap_record

-- `saveWrapRecord`
unfoldable pub save_wrap_record : RecordJson → AccountData → PasskeyWrapRecord → Result AccountData
save_wrap_record j s r =
    if s.writable
    then ok (record s { items = map_set passkey_wrap_event_type (j.stringify r) s.items })
    else err "setAccountData"

module _ {Key : Type 0} (w : WebCrypto Key) where
  -- `deriveWrapKey`
  unfoldable pub derive_wrap_key : String → Result Key
  derive_wrap_key prf_secret =
      if is_empty prf_secret
      then err "deriveWrapKey: empty PRF secret"
      else derive_aes_key w prf_secret "io.tidework.passkey-wrap.v1" "recovery-key-wrap"

  abbrev pub new_wrap : Entry → ℕ → String → PasskeyWrap
  new_wrap entry now wrap = record {
    credential_id = entry.credential_id;
    wrap = wrap;
    label = entry.label;
    added_at = some now;
  }

  -- `addPasskeyWrap`
  unfoldable pub add_passkey_wrap : PasskeyWrapRecord → Entry → ℕ → ℕ → Result PasskeyWrapRecord
  add_passkey_wrap r entry seed now =
      if is_empty entry.recovery_key
      then err "addPasskeyWrap: empty recovery key"
      else (if is_empty entry.credential_id then err "addPasskeyWrap: empty credential id" else do
        key ← derive_wrap_key entry.prf_secret
        wrap ← encrypt_string w key seed entry.recovery_key
        ok record {
          wraps =
              filter (λ p. not (has_id entry.credential_id p)) r.wraps
              ++ new_wrap entry now wrap ∷ [];
        })

  -- The attempt at one wrap, and what the attempts at the wraps after it give.
  abbrev first_opened : Result String → Option String → Option String
  first_opened (err e) rest = rest
  first_opened (ok recovery_key) rest = if is_empty recovery_key then rest else some recovery_key

  unfoldable pub scan_wraps : Key → List PasskeyWrap → Option String
  scan_wraps key [] = none
  scan_wraps key (p ∷ ps) = first_opened (decrypt_string w key p.wrap) (scan_wraps key ps)

  -- `unwrapRecoveryKey`
  unfoldable pub unwrap_recovery_key : PasskeyWrapRecord → String → Result (Option String)
  unfolding scan_wraps
  unwrap_recovery_key r prf_secret =
      if is_nil r.wraps
      then ok none
      else do key ← derive_wrap_key prf_secret; ok (scan_wraps key r.wraps)

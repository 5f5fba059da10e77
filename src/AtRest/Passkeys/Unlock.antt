-- ===== src/AtRest/Passkeys/Unlock.antt =====
-- Unlocking with an enrolled passkey, ui/src/lib/passkeyWrap.ts.
use secure_collab_app.Prelude.{
  ℕ, ◌≡◌, ◌⊎◌, inl, inr, refl, Bool, true, false, not, ◌==◌, String, List, [], ◌∷◌, ◌++◌,
  if◌then◌else◌, some, is_empty, is_nil, filter, map, All, All-filter, Bool-cases, eq_iff, arith,
  append-nil,
}
use secure_collab_app.Assoc.{map_get-set}
use secure_collab_app.Exec.{ok, err}
use secure_collab_app.AtRest.Keys.{
  WebCrypto, IsWebCrypto, IsAesKey, ◌>>=◌, begins_with_bom, decrypt_string,
}
use secure_collab_app.AtRest.Keys.Sealed.{encrypt_string_blob, blob_of}
use secure_collab_app.AtRest.Envelope.{decrypt_string-blob}
use secure_collab_app.AtRest.Passkeys.{
  PasskeyWrap, PasskeyWrapRecord, ParsedWrap, RecordJson, AccountData, Entry, kept_wraps,
  parse_wrap_record, load_wrap_record, save_wrap_record, has_id, remove_passkey_wrap, new_wrap,
  add_passkey_wrap, derive_wrap_key, scan_wraps, unwrap_recovery_key,
}

filter_other :
    (i j : String) (ps : List PasskeyWrap)
    → filter (has_id j) (filter (λ p. not (has_id i p)) ps)
      ≡ (if i == j then [] else filter (has_id j) ps)
filter_other i j [] = ground arith
filter_other i j (p ∷ ps) =
    ground
      (arith, eq_iff p.credential_id i, eq_iff p.credential_id j, eq_iff i j, filter_other i j ps)

filter-append :
    (f : PasskeyWrap → Bool) (ps qs : List PasskeyWrap)
    → filter f (ps ++ qs) ≡ filter f ps ++ filter f qs
filter-append f [] qs = refl
filter-append f (p ∷ ps) qs = ground (arith, filter-append f ps qs)

abbrev pub parsed : PasskeyWrap → ParsedWrap
parsed p = record {
  credential_id = some p.credential_id;
  wrap = some p.wrap;
  label = p.label;
  added_at = p.added_at;
}

kept_wraps-parsed : (ps : List PasskeyWrap) → kept_wraps (map parsed ps) ≡ ps
unfolding kept_wraps
kept_wraps-parsed [] = refl
kept_wraps-parsed (p ∷ ps) = λ i. p ∷ kept_wraps-parsed ps i

-- A record that is saved as account data, whose text JSON reads back, is loaded as it was.
pub load_wrap_record-save :
    (j : RecordJson) (s : AccountData) (r : PasskeyWrapRecord)
    → s.readable ≡ true
    → s.writable ≡ true
    → is_empty (j.stringify r) ≡ false
    → j.parse (j.stringify r) ≡ some (record { v = some 1; wraps = some (map parsed r.wraps) })
    → (do t ← save_wrap_record j s r; ok (load_wrap_record j t)) ≡ ok r
unfolding load_wrap_record save_wrap_record parse_wrap_record
load_wrap_record-save j s r readable writable e p =
    rw
      (
        writable,
        readable,
        map_get-set "io.tidework.passkey_wrap" "io.tidework.passkey_wrap" (j.stringify r) s.items,
        e,
        p,
        kept_wraps-parsed r.wraps,
      )
      refl

-- The wraps of one passkey after an enrolment or a removal of a passkey: those of another passkey
-- are as they were.
pub has_id-remove :
    (r : PasskeyWrapRecord) (i j : String)
    → filter (has_id j) (remove_passkey_wrap r i).wraps
      ≡ (if i == j then [] else filter (has_id j) r.wraps)
unfolding remove_passkey_wrap
has_id-remove r i j = filter_other i j r.wraps

module _ {Key : Type 0} (w : WebCrypto Key) (laws : IsWebCrypto w) where
  -- The secret of a passkey gives a key that AES-GCM can use.
  pub record DerivesWrap (prf_secret : String) : Type 0 where
    pub key : Key
    pub derives : derive_wrap_key w prf_secret ≡ ok key
    pub aes : IsAesKey w key

  abbrev added : PasskeyWrapRecord → Entry → String → ℕ → PasskeyWrapRecord
  added r entry wrap now = record {
    wraps =
        filter (λ p. not (has_id entry.credential_id p)) r.wraps ++ new_wrap w entry now wrap ∷ [];
  }

  add_passkey_wrap_record :
      (r : PasskeyWrapRecord) (entry : Entry) (d : DerivesWrap entry.prf_secret) (seed now : ℕ)
      → is_empty entry.recovery_key ≡ false
      → is_empty entry.credential_id ≡ false
      → add_passkey_wrap w r entry seed now
        ≡ ok (added r entry (blob_of w laws d.key d.aes seed entry.recovery_key) now)
  unfolding add_passkey_wrap
  add_passkey_wrap_record r entry d seed now h k =
      rw (h, k, d.derives, encrypt_string_blob w laws d.key d.aes seed entry.recovery_key) refl

  -- The wrap is opened to the recovery key, or not at all.
  abbrev pub Opens : Key → String → PasskeyWrap → Type 0
  Opens key recovery_key p =
      (decrypt_string w key p.wrap ≡ ok recovery_key)
      ⊎ ((e : String) × (decrypt_string w key p.wrap ≡ err e))

  scan_wraps-append :
      (key : Key) (ps : List PasskeyWrap) (p : PasskeyWrap) (recovery_key : String)
      → is_empty recovery_key ≡ false
      → All (Opens key recovery_key) ps
      → decrypt_string w key p.wrap ≡ ok recovery_key
      → scan_wraps w key (ps ++ p ∷ []) ≡ some recovery_key
  unfolding scan_wraps
  scan_wraps-append key [] p rk h a e = rw (e, h) refl
  scan_wraps-append key (q ∷ ps) p rk h a e = elim a.0 [
    | inl f ↦ rw (f, h) refl
    | inr f ↦ rw f.1 (scan_wraps-append key ps p rk h a.1 e)
  ]

  All-not_id :
      (key : Key) (rk : String) (id : String) (ps : List PasskeyWrap)
      → All (Opens key rk) ps
      → All (Opens key rk) (filter (λ p. not (has_id id p)) ps)
  All-not_id key rk id ps a =
      All-filter (Opens key rk) (Opens key rk) (λ p. not (has_id id p)) ps (λ p o e. o) a

  is_nil-append : (ps : List PasskeyWrap) (p : PasskeyWrap) → is_nil (ps ++ p ∷ []) ≡ false
  is_nil-append [] p = refl
  is_nil-append (q ∷ ps) p = refl

  -- After a passkey is enrolled for a recovery key, its secret unlocks that recovery key, if it opens
  -- none of the wraps before to another one. The recovery key and the credential id are not empty, and
  -- no byte order mark begins the recovery key.
  pub unwrap_recovery_key-add :
      (r : PasskeyWrapRecord) (entry : Entry) (d : DerivesWrap entry.prf_secret) (seed now : ℕ)
      → is_empty entry.recovery_key ≡ false
      → is_empty entry.credential_id ≡ false
      → begins_with_bom entry.recovery_key ≡ false
      → All (Opens d.key entry.recovery_key) r.wraps
      → (do
        enrolled ← add_passkey_wrap w r entry seed now
        unwrap_recovery_key w enrolled entry.prf_secret)
        ≡ ok (some entry.recovery_key)
  unfolding unwrap_recovery_key
  unwrap_recovery_key-add r entry d seed now h k b a =
      let wrap : String = blob_of w laws d.key d.aes seed entry.recovery_key in
      let others : List PasskeyWrap = filter (λ p. not (has_id entry.credential_id p)) r.wraps in
      rw
        (
          add_passkey_wrap_record r entry d seed now h k,
          is_nil-append others (new_wrap w entry now wrap),
          d.derives,
          scan_wraps-append d.key others (new_wrap w entry now wrap) entry.recovery_key h
              (All-not_id d.key entry.recovery_key entry.credential_id r.wraps a)
              (decrypt_string-blob w laws d.key d.aes seed entry.recovery_key b),
        )
        refl

  filter-added :
      (r : PasskeyWrapRecord) (entry : Entry) (wrap : String) (now : ℕ) (j : String)
      → filter (has_id j) (added r entry wrap now).wraps ≡ (
          if entry.credential_id == j
          then new_wrap w entry now wrap ∷ []
          else filter (has_id j) r.wraps)
  filter-added r entry wrap now j =
      let others : List PasskeyWrap = filter (λ p. not (has_id entry.credential_id p)) r.wraps in
      rw
        (
          filter-append (has_id j) others (new_wrap w entry now wrap ∷ []),
          filter_other entry.credential_id j r.wraps,
        )
        (elim (Bool-cases (entry.credential_id == j)) [
          | inl e ↦ rw e refl
          | inr e ↦ rw e (append-nil (filter (has_id j) r.wraps))
        ])

  -- Enrolling a passkey leaves exactly one wrap of it, the new one, and those of another passkey as
  -- they were; removing one leaves none of it, and those of another as they were.
  pub has_id-add-remove :
      (r : PasskeyWrapRecord) (entry : Entry) (d : DerivesWrap entry.prf_secret) (seed now : ℕ)
      (j : String)
      → is_empty entry.recovery_key ≡ false
      → is_empty entry.credential_id ≡ false
      → ((do enrolled ← add_passkey_wrap w r entry seed now; ok (filter (has_id j) enrolled.wraps))
          ≡ ok (
              if entry.credential_id == j
              then new_wrap w entry now (blob_of w laws d.key d.aes seed entry.recovery_key) ∷ []
              else filter (has_id j) r.wraps))
        × (filter (has_id j) (remove_passkey_wrap r entry.credential_id).wraps
            ≡ (if entry.credential_id == j then [] else filter (has_id j) r.wraps))
  has_id-add-remove r entry d seed now j h k = (
    rw
        (
          add_passkey_wrap_record r entry d seed now h k,
          filter-added r entry (blob_of w laws d.key d.aes seed entry.recovery_key) now j,
        )
        refl,
    has_id-remove r entry.credential_id j,
  )

-- ===== src/Stores.antt =====
-- The stores of unsent writes and of snapshots in IndexedDB, ui/src/lib/outboxStore.ts and
-- ui/src/lib/snapshotStore.ts. Both keep one text for each workspace, sealed by a key if there is
-- one, and swallow every error. Encryption and its key are those of a `Cipher`.
mod Tests
use secure_collab_app.Prelude.{
  ℕ, ◌≡◌, ◌≢◌, refl, Bool, true, false, ◌&&◌, ◌||◌, ◌==◌, String, Option, none, some, List,
  if◌then◌else◌, is_empty, concat, starts_with, slice_after, Bool-cases, inl, inr, arith, eq_iff,
  eq_refl,
}
use secure_collab_app.Exec.{Result, ok, err}
use secure_collab_app.Assoc.{map_get, map_set, map_delete, map_get-set, map_get-delete}

-- `encryptString` and `decryptString`; the number stands for the random bytes of a sealing.
pub record Cipher (Key : Type 0) : Type 0 where
  pub seal : Key → ℕ → String → Result String
  pub unseal : Key → String → Result String

-- The database: whether it can be opened, whether a transaction on it commits, and its records.
pub record Db : Type 0 where
  pub opens : Bool
  pub commits : Bool
  pub records : List (String × String)

abbrev pub enc_prefix : String
enc_prefix = "twenc:1:"

abbrev pub or_none : Result String → Option String
or_none (ok s) = some s
or_none (err e) = none

abbrev put_record : String → String → Db → Db
put_record id stored db =
    if db.opens && db.commits then record db { records = map_set id stored db.records } else db

abbrev put_sealed : String → Result String → Db → Db
put_sealed id (err e) db = db
put_sealed id (ok s) db = put_record id s db

-- `clearOutbox`, `clearSnapshot`
unfoldable pub clear_record : String → Db → Db
clear_record id db =
    if db.opens && db.commits then record db { records = map_delete id db.records } else db

-- The database can be opened and its transactions commit.
pub record Works (db : Db) : Type 0 where
  pub opens : db.opens ≡ true
  pub commits : db.commits ≡ true

pub clear_record-Works : (id : String) (db : Db) → Works db → Works (clear_record id db)
unfolding clear_record
clear_record-Works id db h = elim (Bool-cases (db.opens && db.commits)) [
  | inl e ↦ rw e (record { opens = h.opens; commits = h.commits })
  | inr e ↦ rw e h
]

put_sealed-Works :
    (id : String) (r : Result String) (db : Db) → Works db → Works (put_sealed id r db)
put_sealed-Works id (err e) db h = h
put_sealed-Works id (ok s) db h = elim (Bool-cases (db.opens && db.commits)) [
  | inl e ↦ rw (e, put_sealed) (record { opens = h.opens; commits = h.commits })
  | inr e ↦ rw (e, put_sealed) h
]

module _ {Key : Type 0} (cipher : Cipher Key) where
  abbrev sealed : Option Key → ℕ → String → Result String
  sealed none iv s = ok s
  sealed (some key) iv s = elim (cipher.seal key iv s) [
    | err e ↦ err e
    | ok blob ↦ ok (concat enc_prefix blob)
  ]

  abbrev unsealed : Option Key → String → Option String
  unsealed none raw = none
  unsealed (some key) raw = or_none (cipher.unseal key (slice_after enc_prefix raw))

  abbrev read_raw : Option Key → Option String → Option String
  read_raw key none = none
  read_raw key (some raw) = if starts_with enc_prefix raw then unsealed key raw else some raw

  -- `loadOutbox`, `loadSnapshot`
  unfoldable pub load_record : String → Option Key → Db → Option String
  load_record id key db = if db.opens then read_raw key (map_get id db.records) else none

  unfoldable pub save_outbox : String → String → Option Key → ℕ → Db → Db
  unfolding clear_record
  save_outbox id json key iv db =
      if is_empty json || (json == "[]")
      then clear_record id db
      else put_sealed id (sealed key iv json) db

  unfoldable pub save_snapshot : String → String → Option Key → ℕ → Db → Db
  save_snapshot id snapshot key iv db =
      if is_empty snapshot then db else put_sealed id (sealed key iv snapshot) db

  pub save_outbox-Works :
      (id s : String) (key : Option Key) (iv : ℕ) (db : Db)
      → Works db
      → Works (save_outbox id s key iv db)
  unfolding save_outbox
  save_outbox-Works id s key iv db h = elim (Bool-cases (is_empty s || (s == "[]"))) [
    | inl e ↦ rw e (clear_record-Works id db h)
    | inr e ↦ rw e (put_sealed-Works id (sealed key iv s) db h)
  ]

  -- Each sealing of the text under the key succeeds and is opened by it.
  pub record IsOpenedBy (key : Key) (s : String) : Type 0 where
    pub blob : ℕ → String
    pub seals : (iv : ℕ) → cipher.seal key iv s ≡ ok (blob iv)
    pub unseals : (iv : ℕ) → cipher.unseal key (blob iv) ≡ ok s

  -- A text can be told from a sealed one, or there is a key that opens what it seals.
  pub data CanKeep : Option Key → String → Type 0 where
    plain : {s : String} → starts_with enc_prefix s ≡ false → CanKeep none s
    keyed : {s : String} {key : Key} → IsOpenedBy key s → CanKeep (some key) s

  sealed-keyed :
      (key : Key) (s : String) (k : IsOpenedBy key s) (iv : ℕ)
      → sealed (some key) iv s ≡ ok (concat enc_prefix (k.blob iv))
  sealed-keyed key s k iv = rw (k.seals iv, sealed) refl

  unsealed-keyed :
      (key : Key) (s : String) (k : IsOpenedBy key s) (iv : ℕ)
      → unsealed (some key) (concat enc_prefix (k.blob iv)) ≡ some s
  unsealed-keyed key s k iv = rw (k.unseals iv, unsealed) refl

  put_sealed-read :
      (id : String) (key : Option Key) (iv : ℕ) (s : String) (db : Db)
      → Works db
      → CanKeep key s
      → load_record id key (put_sealed id (sealed key iv s) db) ≡ some s
  unfolding load_record
  put_sealed-read id none iv s db w (plain h) =
      rw (w.opens, w.commits, map_get-set id id s db.records, eq_refl id, h) refl
  put_sealed-read id (some key) iv s db w (keyed k) =
      rw
        (
          sealed-keyed key s k iv,
          w.opens,
          w.commits,
          map_get-set id id (concat enc_prefix (k.blob iv)) db.records,
          eq_refl id,
        )
        (unsealed-keyed key s k iv)

  pub clear_record-read :
      (id : String) (key : Option Key) (db : Db)
      → Works db
      → load_record id key (clear_record id db) ≡ none
  unfolding load_record clear_record
  clear_record-read id key db h =
      rw (h.opens, h.commits, map_get-delete id id db.records, eq_refl id) refl

  -- In a database that works, what is saved as a workspace's outbox or snapshot is what is loaded
  -- later under the same key, for a text that is not taken for a sealed one or a key that opens what
  -- it seals. An empty queue is loaded as none, and an empty snapshot leaves the one before.
  pub load_record-save :
      (id s : String) (key : Option Key) (iv : ℕ) (db : Db)
      → Works db
      → CanKeep key s
      → (load_record id key (save_outbox id s key iv db)
          ≡ (if is_empty s || (s == "[]") then none else some s))
        × (load_record id key (save_snapshot id s key iv db)
            ≡ (if is_empty s then load_record id key db else some s))
  unfolding save_outbox save_snapshot
  load_record-save id s key iv db w k = (
    elim (Bool-cases (is_empty s || (s == "[]"))) [
      | inl e ↦ rw e (clear_record-read id key db w)
      | inr e ↦ rw e (put_sealed-read id key iv s db w k)
    ],
    elim (Bool-cases (is_empty s)) [
      | inl e ↦ rw e refl
      | inr e ↦ rw e (put_sealed-read id key iv s db w k)
    ],
  )

  -- A sealed record is not read without its key, or where the key does not open it.
  pub load_record-sealed :
      (id raw : String) (key : Option Key) (db : Db)
      → map_get id db.records ≡ some raw
      → starts_with enc_prefix raw ≡ true
      → unsealed key raw ≡ none
      → load_record id key db ≡ none
  unfolding load_record
  load_record-sealed id raw key db m p u = elim (Bool-cases db.opens) [
    | inl e ↦ rw (e, m, p) u
    | inr e ↦ rw e refl
  ]

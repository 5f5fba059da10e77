-- ===== src/AtRest/DeviceKey.antt =====
-- The key of the browser profile, ui/src/lib/deviceKey.ts: one record in an IndexedDB database that
-- may refuse to open, to read or to commit.
use secure_collab_app.Prelude.{◌≡◌, Bool, ◌&&◌, Option, some, none, if◌then◌else◌, arith}
use secure_collab_app.Exec.{Result, ok, err, Exec, pure, attempt, ◌>>=◌, ◌>>◌}

-- A stored value, which need not be a `CryptoKey`.
pub data Stored (Key : Type 0) : Type 0 where
  crypto_key : Key → Stored Key
  other : Stored Key

pub record KeyDb (Key : Type 0) : Type 0 where
  pub opens : Bool
  pub reads : Bool
  pub commits : Bool
  pub stored : Option (Stored Key)

module _ {Key : Type 0} where
  -- `read`
  unfoldable pub read : Exec (KeyDb Key) (Option (Stored Key))
  read db = if db.opens && db.reads then (ok db.stored, db) else (err "indexedDB", db)

  -- `write`
  unfoldable pub write : Key → Exec (KeyDb Key) (Unit {0})
  write key db =
      if db.opens && db.commits
      then (ok tt, record db { stored = some (crypto_key key) })
      else (err "indexedDB", db)

  abbrev created : Result Key → Exec (KeyDb Key) Key
  created (err e) db = (err e, db)
  created (ok key) db = (write key >> pure key) db

  abbrev existing_or : Result Key → Option (Stored Key) → Exec (KeyDb Key) Key
  existing_or generated (some (crypto_key key)) db = (ok key, db)
  existing_or generated (some other) db = created generated db
  existing_or generated none db = created generated db

  -- `getOrCreateDeviceKey`, with what `subtle().generateKey` gives
  unfoldable pub get_or_create_device_key : Result Key → Exec (KeyDb Key) Key
  unfolding read write
  get_or_create_device_key generated = do existing ← read; existing_or generated existing

  abbrev key_of : Option (Stored Key) → Option Key
  key_of (some (crypto_key key)) = some key
  key_of (some other) = none
  key_of none = none

  -- `getDeviceKey`
  unfoldable pub get_device_key : Exec (KeyDb Key) (Option Key)
  unfolding read
  get_device_key = attempt (do existing ← read; pure (key_of existing)) (λ e. pure none)

  -- `clearDeviceKey`
  unfoldable pub clear_device_key : KeyDb Key → KeyDb Key
  clear_device_key db = if db.opens && db.commits then record db { stored = none } else db

  -- The key that is got or created is the one that each later call gets, whatever a new key would
  -- have been, until it is cleared; where the database does not commit, clearing changes nothing.
  pub get_device_key-create :
      (generated generated' : Result Key) (db : KeyDb Key) (key : Key)
      → (get_or_create_device_key generated db).0 ≡ ok key
      → (get_or_create_device_key generated' (get_or_create_device_key generated db).1
          ≡ (ok key, (get_or_create_device_key generated db).1))
        × ((get_device_key (get_or_create_device_key generated db).1).0 ≡ ok (some key))
        × ((get_device_key (clear_device_key (get_or_create_device_key generated db).1)).0
            ≡ ok (if db.commits then none else some key))
  unfolding get_or_create_device_key get_device_key clear_device_key
  get_device_key-create (err e) generated' db key h = ground arith
  get_device_key-create (ok k) generated' db key h = ground arith

-- ===== src/Stores/Tests.antt =====
-- The theorem about the stores at a working database and a cipher that hides nothing.
use secure_collab_app.Prelude.{
  ◌≡◌, refl, ◌||◌, ◌==◌, true, none, some, [], if◌then◌else◌, is_empty, ℕ,
}
use secure_collab_app.Exec.{ok}
use secure_collab_app.Stores.{
  Cipher, Db, Works, IsOpenedBy, keyed, load_record, save_outbox, save_snapshot, load_record-save,
}

abbrev open_cipher : Cipher ℕ
open_cipher = record { seal = λ key iv s. ok s; unseal = λ key s. ok s }

abbrev empty_db : Db
empty_db = record { opens = true; commits = true; records = [] }

empty_db-Works : Works empty_db
empty_db-Works = record { opens = refl; commits = refl }

open_cipher-IsOpenedBy : IsOpenedBy open_cipher 5 "[1]"
open_cipher-IsOpenedBy = record { blob = λ iv. "[1]"; seals = λ iv. refl; unseals = λ iv. refl }

load_record-save_example :
    (load_record open_cipher "!r:x"
        (some 5)
        (save_outbox open_cipher "!r:x" "[1]" (some 5) 0 empty_db)
      ≡ (if is_empty "[1]" || ("[1]" == "[]") then none else some "[1]"))
    × (load_record open_cipher "!r:x"
          (some 5)
          (save_snapshot open_cipher "!r:x" "[1]" (some 5) 0 empty_db)
        ≡ (if is_empty "[1]" then load_record open_cipher "!r:x" (some 5) empty_db else some "[1]"))
load_record-save_example =
    load_record-save open_cipher "!r:x" "[1]" (some 5) 0 empty_db empty_db-Works
      (keyed open_cipher-IsOpenedBy)

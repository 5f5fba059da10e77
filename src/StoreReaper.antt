-- ===== src/StoreReaper.antt =====
-- The queue of stores to be deleted, ui/src/lib/storeReaper.ts. `localStorage` and JSON are
-- parameters; a deletion is told by what comes first of it. A sign-out and a start of the app run
-- one after the other.
pub mod Queue
mod Tests
use secure_collab_app.Prelude.{
  ℕ, ◌≡◌, Bool, true, false, not, ◌==◌, ◌||◌, String, Option, none, some, List, [], ◌∷◌, ◌++◌,
  if◌then◌else◌, length, filter, contains, map, is_empty, is_nil,
}

-- What comes first of `indexedDB.deleteDatabase`.
pub data First : Type 0 where
  throws succeeds fails blocks times_out : First

-- `parse` gives the texts among the elements, or none where the text is no JSON or no list.
-- `outcome n name` is what comes of the attempt after `n` others.
pub record Browser : Type 0 where
  pub parse : String → Option (List (Option String))
  pub stringify : List String → String
  pub outcome : ℕ → String → First

-- The item of `localStorage`, whether it can be read and written, and the names that a deletion
-- has been attempted of.
pub record Store : Type 0 where
  pub item : Option String
  pub readable : Bool
  pub writable : Bool
  pub attempts : List String

abbrev pub protected : String → Bool
protected name =
    contains ("tw-workspace-snapshots" ∷ "tw-workspace-outbox" ∷ "collab-device-key" ∷ []) name

abbrev pub texts_in : List (Option String) → List String
texts_in [] = []
texts_in (none ∷ xs) = texts_in xs
texts_in (some x ∷ xs) = x ∷ texts_in xs

abbrev pub is_success : First → Bool
is_success succeeds = true
is_success other = false

module _ (b : Browser) where
  abbrev pub parse_item : Option String → List String
  parse_item none = []
  parse_item (some raw) =
      if is_empty raw then [] else elim (b.parse raw) [ none ↦ [] | some xs ↦ texts_in xs ]

  abbrev pub read_pending : Store → List String
  read_pending s = if s.readable then parse_item s.item else []

  abbrev item_of : List String → Option String
  item_of [] = none
  item_of (n ∷ ns) = some (b.stringify (n ∷ ns))

  abbrev pub write_pending : List String → Store → Store
  write_pending names s = if s.writable then record s { item = item_of names } else s

  abbrev pub delete_database : String → Store → Bool × Store
  delete_database name s = (
    is_success (b.outcome (length s.attempts) name),
    record s { attempts = s.attempts ++ name ∷ [] },
  )

  abbrev pub queued : String → Store → Store
  queued name s =
      if contains (read_pending s) name then s else write_pending (read_pending s ++ name ∷ []) s

  abbrev pub unqueued : Bool → String → Store → Store
  unqueued true name s = write_pending (filter (λ n. not (n == name)) (read_pending s)) s
  unqueued false name s = s

  unfoldable pub retire_store : Option String → Store → Store
  retire_store none s = s
  retire_store (some name) s =
      if is_empty name || protected name
      then s
      else let r = delete_database name (queued name s) in unqueued r.0 name r.1

  pub record Reaped : Type 0 where
    pub deleted : List String
    pub stuck : List String
    pub store : Store

  abbrev pub sorted : Bool → String → Reaped → Reaped
  sorted true name r = record r { deleted = name ∷ r.deleted }
  sorted false name r = record r { stuck = name ∷ r.stuck }

  unfoldable pub reap_each : List String → Store → Reaped
  reap_each [] s = record { deleted = []; stuck = []; store = s }
  reap_each (name ∷ names) s =
      let r = delete_database name s in
      let attempted = reap_each names r.1 in
      let passed_over = reap_each names s in
      if protected name then passed_over else sorted r.0 name attempted

  abbrev pub reap_from : List String → Store → List String × Store
  reap_from [] s = ([], s)
  reap_from (name ∷ names) s =
      let r = reap_each (name ∷ names) s in (r.deleted, write_pending r.stuck r.store)

  unfoldable pub reap_stores : Store → List String × Store
  unfolding reap_each
  reap_stores s = reap_from (read_pending s) s

pub data ReaperStep : Type 0 where
  signs_out : Option String → ReaperStep
  starts : ReaperStep

abbrev pub run_steps : Browser → List ReaperStep → Store → Store
run_steps b [] s = s
run_steps b (signs_out name ∷ steps) s = run_steps b steps (retire_store b name s)
run_steps b (starts ∷ steps) s = run_steps b steps (reap_stores b s).1

-- ===== src/Proxies/Subscribed.antt =====
-- Which tables a tab asks the worker for (ui/src/worker/workerWorkspace.ts, lines 147 to 197).
use secure_collab_app.Prelude.{
  ◌≡◌, refl, Bool, true, false, not, ◌&&◌, ◌||◌, String, some, List, [], ◌∷◌, ◌++◌, ◌==◌, contains,
  get_last?, Bool-cases, inl, inr, arith, eq_iff,
}
use secure_collab_app.Worker.Protocol.{
  WorkspaceState, Event, workspace_change, workspace_state, queue_change, session_sync,
  token_refresh, session_dropped, log,
}
use secure_collab_app.Proxies.Workspace.{
  StandIn, new_stand_in, on_event, note_table, microtask, microtask_if, Use, hears, reads_rows,
  reads_order, runs_microtask, listens, listens_to_queue, closes, use_once, use_all, start_sync,
  on_queue_changed, close, pushed,
}

abbrev read_by : Use → List String
read_by (hears e) = []
read_by (reads_rows table_id) = table_id ∷ []
read_by (reads_order table_id) = table_id ∷ []
read_by runs_microtask = []
read_by (listens l) = []
read_by (listens_to_queue l) = []
read_by closes = []

-- The tables whose rows or order a tab has read.
abbrev pub tables_read : List Use → List String
tables_read [] = []
tables_read (u ∷ us) = read_by u ++ tables_read us

get_last?-append : {A : Type 0} (xs : List A) (x : A) → get_last? (xs ++ x ∷ []) ≡ some x
get_last?-append [] x = refl
get_last?-append (y ∷ []) x = refl
get_last?-append (y ∷ z ∷ zs) x = get_last?-append (z ∷ zs) x

contains-append :
    (xs ys : List String) (t : String) → contains (xs ++ ys) t ≡ (contains xs t || contains ys t)
contains-append [] ys t = refl
contains-append (x ∷ xs) ys t = ground (arith, contains-append xs ys t)

-- What was posted last is what the tab wants, or a microtask is to post it.
IsCurrent : StandIn → Type 0
IsCurrent p = p.pending_resubscribe ≡ false → get_last? p.subscribed ≡ some p.table_ids

-- A use that only wants more tables.
record Wants (p q : StandIn) (ts : List String) : Type 0 where
  current : IsCurrent q
  tables : (t : String) → contains q.table_ids t ≡ (contains p.table_ids t || contains ts t)

or_false : (b : Bool) → b ≡ (b || false)
or_false true = refl
or_false false = refl

Wants-refl : (p : StandIn) → IsCurrent p → Wants p p []
Wants-refl p h = record { current = h; tables = λ t. or_false (contains p.table_ids t) }

known :
    (t : String) (ids : List String)
    → contains ids t ≡ true
    → (s : String) → contains ids s ≡ (contains ids s || contains (t ∷ []) s)
known t ids e s = elim (Bool-cases (t == s)) [
  | inl f ↦
      let same : t ≡ s = ground (arith, eq_iff t s, f) in
      let k : contains ids s ≡ true = rw same at e in rw k refl
  | inr f ↦ rw f (or_false (contains ids s))
]

note_table-Wants : (t : String) (p : StandIn) → IsCurrent p → Wants p (note_table t p) (t ∷ [])
unfolding IsCurrent
note_table-Wants t p h = elim (Bool-cases (contains p.table_ids t)) [
  | inl e ↦ rw e (record { current = h; tables = known t p.table_ids e })
  | inr e ↦
      rw e (record { current = λ f. cc; tables = λ s. contains-append p.table_ids (t ∷ []) s })
]

microtask_if-Wants :
    (b : Bool) (p : StandIn)
    → p.pending_resubscribe ≡ b
    → IsCurrent p
    → Wants p (microtask_if b p) []
unfolding IsCurrent
microtask_if-Wants true p e h = record {
  current = λ f. get_last?-append p.subscribed p.table_ids;
  tables = λ s. or_false (contains p.table_ids s);
}
microtask_if-Wants false p e h = Wants-refl p h

-- Nothing that the subscription rests on changes.
record SameTables (p q : StandIn) : Type 0 where
  pending : q.pending_resubscribe ≡ p.pending_resubscribe
  subscribed : q.subscribed ≡ p.subscribed
  table_ids : q.table_ids ≡ p.table_ids

SameTables-Wants : (p q : StandIn) → SameTables p q → IsCurrent p → Wants p q []
unfolding IsCurrent
SameTables-Wants p q s h = record {
  current = rw (s.pending, s.subscribed, s.table_ids) h;
  tables = λ t. rw s.table_ids (or_false (contains p.table_ids t));
}

pushed-SameTables : (state : WorkspaceState) (p : StandIn) → SameTables p (pushed state p)
pushed-SameTables state p = elim (Bool-cases (state.pending_updates == p.current.pending_updates)) [
  | inl e ↦ rw e (record { pending = refl; subscribed = refl; table_ids = refl })
  | inr e ↦ rw e (record { pending = refl; subscribed = refl; table_ids = refl })
]

event-SameTables : (e : Event) (p : StandIn) → SameTables p (on_event e p)
event-SameTables (workspace_state room_id state) p =
    elim (Bool-cases (not p.is_closed && (room_id == p.room_id))) [
      | inl e ↦ rw e (pushed-SameTables state p)
      | inr e ↦ rw e (record { pending = refl; subscribed = refl; table_ids = refl })
    ]
event-SameTables (queue_change room_id) p =
    elim (Bool-cases (not p.is_closed && (room_id == p.room_id))) [
      | inl e ↦ rw e (record { pending = refl; subscribed = refl; table_ids = refl })
      | inr e ↦ rw e (record { pending = refl; subscribed = refl; table_ids = refl })
    ]
event-SameTables (workspace_change room_id) p = record {
  pending = refl;
  subscribed = refl;
  table_ids = refl;
}
event-SameTables (session_sync user_id) p = record {
  pending = refl;
  subscribed = refl;
  table_ids = refl;
}
event-SameTables (token_refresh user_id blob) p = record {
  pending = refl;
  subscribed = refl;
  table_ids = refl;
}
event-SameTables (session_dropped user_id) p = record {
  pending = refl;
  subscribed = refl;
  table_ids = refl;
}
event-SameTables (log level) p = record { pending = refl; subscribed = refl; table_ids = refl }

use_once-Wants : (u : Use) (p : StandIn) → IsCurrent p → Wants p (use_once u p) (read_by u)
use_once-Wants (hears e) p h = SameTables-Wants p (on_event e p) (event-SameTables e p) h
use_once-Wants (reads_rows t) p h = note_table-Wants t p h
use_once-Wants (reads_order t) p h = note_table-Wants t p h
use_once-Wants runs_microtask p h = microtask_if-Wants p.pending_resubscribe p refl h
use_once-Wants (listens l) p h =
    SameTables-Wants p (start_sync l p)
      (record { pending = refl; subscribed = refl; table_ids = refl }) h
use_once-Wants (listens_to_queue l) p h =
    SameTables-Wants p (on_queue_changed l p)
      (record { pending = refl; subscribed = refl; table_ids = refl }) h
use_once-Wants closes p h =
    SameTables-Wants p (close p) (record { pending = refl; subscribed = refl; table_ids = refl }) h

use_all-Wants :
    (us : List Use) (p : StandIn) → IsCurrent p → Wants p (use_all us p) (tables_read us)
use_all-Wants [] p h = Wants-refl p h
use_all-Wants (u ∷ us) p h =
    let one = use_once-Wants u p h in
    let rest = use_all-Wants us (use_once u p) one.current in
    record {
      current = rest.current;
      tables = λ t.
          rw (contains-append (read_by u) (tables_read us) t)
            (ground (arith, rest.tables t, one.tables t));
    }

microtask_if-posted :
    (b : Bool) (p : StandIn)
    → p.pending_resubscribe ≡ b
    → IsCurrent p
    → get_last? (microtask_if b p).subscribed ≡ some p.table_ids
unfolding IsCurrent
microtask_if-posted true p e h = get_last?-append p.subscribed p.table_ids
microtask_if-posted false p e h = h e

new_stand_in-IsCurrent : (room_id : String) → IsCurrent (new_stand_in room_id)
unfolding IsCurrent
new_stand_in-IsCurrent room_id e = refl

-- However a tab uses its stand-in for a workspace, once the microtasks have run, the last
-- subscription that it has posted is for just the tables whose rows or order it has read.
pub microtask-subscribed :
    (us : List Use) (room_id : String) (t : String)
    → let p = use_all us (new_stand_in room_id) in
      (get_last? (microtask p).subscribed ≡ some p.table_ids)
      × (contains p.table_ids t ≡ contains (tables_read us) t)
microtask-subscribed us room_id t =
    let p = use_all us (new_stand_in room_id) in
    let r = use_all-Wants us (new_stand_in room_id) (new_stand_in-IsCurrent room_id) in
    (microtask_if-posted p.pending_resubscribe p refl r.current, r.tables t)

-- ===== src/Worker/Push.antt =====
-- Materialized state for the tabs (ui/src/worker/dispatch.ts, lines 162 to 265). What the methods of
-- a workspace return is a parameter, and so are `JSON.parse` of a list of ids and the order of
-- texts that `sort` uses.
pub mod Keys
pub mod Groups
pub mod Delivery
pub mod Kept
use secure_collab_app.Prelude.{
  ℕ, zero, suc, ◌+◌, Bool, true, false, not, String, Option, none, some, List, [], ◌∷◌, ◌++◌, ◌==◌,
  if◌then◌else◌, eqb, filter, concat, split, is_empty,
}
use secure_collab_app.Assoc.{map_get, map_set}
use secure_collab_app.Worker.Protocol.{WorkspaceState, Event, workspace_state, warn_line}
use secure_collab_app.Worker.State.{Worker, log_at, find_workspace}

-- What becomes of a call of a method: the binding has none of that name, it throws, or it returns.
pub data Reading (A : Type 0) : Type 0 where
  missing : Reading A
  throws : Reading A
  returns : A → Reading A

-- The read methods of a workspace.
pub record Reads : Type 0 where
  pub list_tables : Reading String
  pub table_order_keys : Reading String
  pub current_user_id : Reading (Option String)
  pub is_encrypted : Reading Bool
  pub undecryptable_count : Reading ℕ
  pub connection_health : Reading String
  pub rejected_writes : Reading String
  pub pending_updates : Reading String
  pub table_schema : String → Reading String
  pub views_for_table : String → Reading String
  pub view : String → Reading String
  pub table_rows : String → Reading String
  pub row_order_keys : String → Reading String

-- What `JSON.parse` makes of a text: it throws, or gives a list, whose texts are told from the rest,
-- or something else.
pub data Parsed : Type 0 where
  malformed : Parsed
  no_list : Parsed
  list_of : List (Option String) → Parsed

abbrev pub texts_in : List (Option String) → List String
texts_in [] = []
texts_in (none ∷ rest) = texts_in rest
texts_in (some s ∷ rest) = s ∷ texts_in rest

abbrev pub ids_in : Parsed → List String
ids_in malformed = []
ids_in no_list = []
ids_in (list_of items) = texts_in items

-- What is read, and how many lines the worker logs for it.
abbrev pub read : {A : Type 0} → Reading A → A → A × ℕ
read missing fallback = (fallback, 0)
read throws fallback = (fallback, 1)
read (returns a) fallback = (a, 0)

abbrev pub warn_times : ℕ → Worker → Worker
warn_times zero w = w
warn_times (suc n) w = warn_times n (log_at warn_line w)

-- `[...new Set(ids)]`
abbrev pub unique : List String → List String
unique [] = []
unique (x ∷ xs) = x ∷ filter (λ y. not (y == x)) (unique xs)

-- `ids.join(' ')`
abbrev pub join_ids : List String → String
join_ids [] = ""
join_ids (x ∷ []) = x
join_ids (x ∷ y ∷ ys) = concat x (concat " " (join_ids (y ∷ ys)))

unfoldable pub ids_of : String → List String
ids_of key = if is_empty key then [] else split b' ' key

-- `sort`
module _ (precedes : String → String → Bool) where
  abbrev pub put_in : String → List String → List String
  put_in x [] = x ∷ []
  put_in x (y ∷ ys) = if precedes y x then y ∷ put_in x ys else x ∷ y ∷ ys

  abbrev pub sort : List String → List String
  sort [] = []
  sort (x ∷ xs) = put_in x (sort xs)

  abbrev pub key_of : List String → String
  key_of table_ids = join_ids (sort (unique table_ids))

-- One method read for each of several ids.
abbrev pub read_each :
    (String → Reading String)
    → String
    → List String
    → List (String × String)
    → List (String × String) × ℕ
read_each method fallback [] acc = (acc, 0)
read_each method fallback (id ∷ ids) acc =
    let r = read (method id) fallback in
    let rest = read_each method fallback ids (map_set id r.0 acc) in (rest.0, r.1 + rest.1)

-- What is read for each table of the workspace.
pub record Metadata : Type 0 where
  pub schemas : List (String × String)
  pub views_by_table : List (String × String)
  pub views : List (String × String)

module _ (reads : Reads) (parse : String → Parsed) where
  abbrev pub read_tables : List String → Metadata → Metadata × ℕ
  read_tables [] acc = (acc, 0)
  read_tables (id ∷ ids) acc =
      let schema = read (reads.table_schema id) "" in
      let listed = read (reads.views_for_table id) "[]" in
      let seen = read_each reads.view "" (ids_in (parse listed.0)) acc.views in
      let rest = read_tables ids (record {
        schemas = map_set id schema.0 acc.schemas;
        views_by_table = map_set id listed.0 acc.views_by_table;
        views = seen.0;
      }) in
      (rest.0, schema.1 + listed.1 + seen.1 + rest.1)

  -- The bundle, and how many lines the worker logs for it.
  unfoldable pub materialize : List String → WorkspaceState × ℕ
  materialize table_ids =
      let tables = read reads.list_tables "[]" in
      let meta =
        read_tables (ids_in (parse tables.0))
          (record { schemas = []; views_by_table = []; views = [] }) in
      let rows = read_each reads.table_rows "[]" (unique table_ids) [] in
      let keys = read_each reads.row_order_keys "{}" (unique table_ids) [] in
      let order = read reads.table_order_keys "{}" in
      let user = read reads.current_user_id none in
      let encrypted = read reads.is_encrypted false in
      let undecryptable = read reads.undecryptable_count 0 in
      let health = read reads.connection_health "{}" in
      let rejected = read reads.rejected_writes "{}" in
      let pending = read reads.pending_updates "[]" in
      (
        record {
          tables = tables.0;
          table_order_keys = order.0;
          current_user_id = user.0;
          is_encrypted = encrypted.0;
          undecryptable_count = undecryptable.0;
          connection_health = health.0;
          rejected_writes = rejected.0;
          pending_updates = pending.0;
          schemas = meta.0.schemas;
          views_by_table = meta.0.views_by_table;
          views = meta.0.views;
          rows = rows.0;
          row_order_keys = keys.0;
        },
        tables.1 + meta.1 + rows.1 + keys.1 + order.1 + user.1 + encrypted.1 + undecryptable.1
            + health.1 + rejected.1 + pending.1,
      )

-- The tabs, by the key of the tables they look at.
abbrev pub add_client : String → ℕ → List (String × List ℕ) → List (String × List ℕ)
add_client key client [] = (key, client ∷ []) ∷ []
add_client key client ((k, cs) ∷ rest) =
    if k == key then (k, cs ++ client ∷ []) ∷ rest else (k, cs) ∷ add_client key client rest

abbrev Subscriptions : Type 0
Subscriptions = List (ℕ × List (String × List String))

module _ (precedes : String → String → Bool) (room_id : String) where
  abbrev group_one : Option (List String) → ℕ → List (String × List ℕ) → List (String × List ℕ)
  group_one none client m = m
  group_one (some table_ids) client m = add_client (key_of precedes table_ids) client m

  abbrev pub by_table_set : Subscriptions → List (String × List ℕ) → List (String × List ℕ)
  by_table_set [] m = m
  by_table_set ((client, rooms) ∷ rest) m =
      by_table_set rest (group_one (map_get room_id rooms) client m)

abbrev pub without_client : ℕ → Subscriptions → Subscriptions
without_client client subs =
    filter (λ (s : ℕ × List (String × List String)). not (eqb s.0 client)) subs

abbrev pub send_if : Bool → Event → ℕ → Worker → Worker
send_if true e client w = record w { sent = w.sent ++ (client, e) ∷ [] }
send_if false e client w = record w { subscriptions = without_client client w.subscriptions }

-- `client.send`, which says whether the tab is still there.
module _ (reachable : ℕ → Bool) where
  abbrev pub send_to : Event → ℕ → Worker → Worker
  send_to e client w = send_if (reachable client) e client w

  abbrev pub send_all : Event → List ℕ → Worker → Worker
  send_all e [] w = w
  send_all e (c ∷ cs) w = send_all e cs (send_to e c w)

  module _ (reads : ℕ → Reads) (parse : String → Parsed) (precedes : String → String → Bool) where
    abbrev pub push_groups : ℕ → String → List (String × List ℕ) → Worker → Worker
    push_groups ws room_id [] w = w
    push_groups ws room_id ((key, clients) ∷ rest) w =
        let m = materialize (reads ws) parse (ids_of key) in
        push_groups ws room_id rest
          (send_all (workspace_state room_id m.0) clients (warn_times m.1 w))

    abbrev pub push_for : Option ℕ → String → Worker → Worker
    push_for none room_id w = w
    push_for (some ws) room_id w =
        push_groups ws room_id (by_table_set precedes room_id w.subscriptions []) w

    unfoldable pub push_state : String → Worker → Worker
    push_state room_id w = push_for (find_workspace w room_id) room_id w

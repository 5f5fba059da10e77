-- ===== src/FractionalIndex/Placed.antt =====
-- A move of one row among rows that all have keys, `computeReorderWrites` in
-- ui/src/fractionalIndex.ts, lines 96 to 111.
use secure_collab_app.Prelude.{
  ℕ, ◌≡◌, ◌∙◌, sym, refl, ap, true, false, String, Option, none, some, List, [], ◌∷◌, ◌++◌, ◌==◌,
  ◌+◌, All, append_assoc, length-append, length, all, arith, eqb, get_elem?, eq_refl, ltb, suc,
}
use mathlib.Core.Path.{subst}
use secure_collab_app.FractionalIndex.{
  ◌>>=◌, Key, OrderRow, remove_at, insert_at, array_move, find_index, has_key, previous_key,
  next_key, key_at, generate_key_between, writes_for, compute_reorder_writes,
}
use secure_collab_app.FractionalIndex.Order.{IsKey, lt_key_irrefl}
use secure_collab_app.FractionalIndex.Between.{InOrder, IsBetween, generate_key_between-Finds}
use secure_collab_app.FractionalIndex.Reorder.{compute-eq-writes_for}

generate_key_between_self : (k : Key) → generate_key_between (some k) (some k) ≡ none
unfolding generate_key_between
generate_key_between_self k = rw (lt_key_irrefl k)

-- No row of the list has the id.
abbrev pub Absent : String → List OrderRow → Type 0
Absent id rows = All (λ (r : OrderRow). (r.id == id) ≡ false) rows

find_index-first :
    (id : String) (pre : List OrderRow) (row : OrderRow) (post : List OrderRow)
    → Absent id pre
    → (row.id == id) ≡ true
    → find_index (λ r. r.id == id) (pre ++ row ∷ post) ≡ some (length pre)
find_index-first id [] row post h e = rw e refl
find_index-first id (r ∷ pre) row post h e = rw (h.0, find_index-first id pre row post h.1 e) refl

get_elem-length :
    (pre : List OrderRow) (row : OrderRow) (post : List OrderRow)
    → get_elem? (pre ++ row ∷ post) (length pre) ≡ some row
get_elem-length [] row post = refl
get_elem-length (r ∷ pre) row post = get_elem-length pre row post

remove_at-length :
    (pre : List OrderRow) (row : OrderRow) (post : List OrderRow)
    → remove_at (length pre) (pre ++ row ∷ post) ≡ pre ++ post
remove_at-length [] row post = refl
remove_at-length (r ∷ pre) row post = ap (λ l. r ∷ l) (remove_at-length pre row post)

insert_at-length :
    (pre : List OrderRow) (row : OrderRow) (post : List OrderRow)
    → insert_at (length pre) row (pre ++ post) ≡ pre ++ row ∷ post
insert_at-length [] row post = refl
insert_at-length (r ∷ pre) row post = ap (λ l. r ∷ l) (insert_at-length pre row post)

-- The rows stand as the user sees them; the row is dropped on `over`, and comes to stand between `a`
-- and `b`: further down it takes the place behind `over`, further up the one before it.
pub data LandsBetween (rows : List OrderRow) (row a b : OrderRow) (over : String) : Type 0 where
  down :
      (pre mid post : List OrderRow)
      → rows ≡ pre ++ row ∷ (mid ++ a ∷ b ∷ post)
      → over ≡ a.id
      → Absent row.id ((pre ++ mid) ++ a ∷ [])
      → Absent a.id (pre ++ row ∷ mid)
      → LandsBetween rows row a b over
  up :
      (pre mid post : List OrderRow)
      → rows ≡ pre ++ a ∷ b ∷ (mid ++ row ∷ post)
      → over ≡ b.id
      → Absent row.id (pre ++ a ∷ b ∷ mid)
      → Absent b.id (pre ++ a ∷ [])
      → LandsBetween rows row a b over

-- The row is taken out behind `p` and put back behind `l`.
array_move-split :
    (p q l r : List OrderRow) (row : OrderRow)
    → p ++ q ≡ l ++ r
    → array_move (p ++ row ∷ q) (length p) (length l) ≡ l ++ row ∷ r
array_move-split p q l r row e =
    rw (array_move, get_elem-length p row q, remove_at-length p row q, e) (insert_at-length l row r)

key_before :
    (left : List OrderRow) (a : OrderRow) (rest : List OrderRow)
    → key_at ((left ++ a ∷ []) ++ rest) (length left) ≡ a.key
key_before [] a rest = refl
key_before (r ∷ left) a rest = key_before left a rest

key_after :
    (left : List OrderRow) (row b : OrderRow) (post : List OrderRow)
    → key_at (left ++ row ∷ b ∷ post) (length left + 1) ≡ b.key
key_after [] row b post = refl
key_after (r ∷ left) row b post =
    let next : suc (length left) + 1 ≡ suc (length left + 1) = omega arith in
    ap (key_at (r ∷ (left ++ row ∷ b ∷ post))) next ∙ key_after left row b post

not_last :
    (left : List OrderRow) (row b : OrderRow) (post : List OrderRow)
    → ltb (length left + 1) (length (left ++ row ∷ b ∷ post)) ≡ true
not_last [] row b post = ground arith
not_last (r ∷ left) row b post = ground (arith, not_last left row b post)

-- The keys beside a row that stands between two others.
neighbours :
    (left : List OrderRow) (a row b : OrderRow) (post : List OrderRow)
    → let rows = (left ++ a ∷ []) ++ row ∷ b ∷ post in
      let i = length (left ++ a ∷ []) in (previous_key rows i ≡ a.key) × (next_key rows i ≡ b.key)
neighbours left a row b post =
    let one_more : length (left ++ a ∷ []) ≡ suc (length left) =
      omega (arith, length-append left (a ∷ [])) in
    (
      ap (previous_key ((left ++ a ∷ []) ++ row ∷ b ∷ post)) one_more
          ∙ key_before left a (row ∷ b ∷ post),
      rw (next_key, not_last (left ++ a ∷ []) row b post) (key_after (left ++ a ∷ []) row b post),
    )

writes_for-neighbours :
    (left : List OrderRow) (a row b : OrderRow) (post : List OrderRow)
    → Absent row.id (left ++ a ∷ [])
    → writes_for ((left ++ a ∷ []) ++ row ∷ b ∷ post) true row.id
      ≡ (do k ← generate_key_between a.key b.key; some ((row.id, k) ∷ []))
unfolding writes_for
writes_for-neighbours left a row b post h =
    let (before, after) = neighbours left a row b post in
    rw (find_index-first row.id (left ++ a ∷ []) row (b ∷ post) h (eq_refl row.id), writes_for)
      (rw (before, after) refl)

All-before : (id : String) (xs ys : List OrderRow) → Absent id (xs ++ ys) → Absent id xs
All-before id [] ys h = tt
All-before id (x ∷ xs) ys h = (h.0, All-before id xs ys h.1)

found_at :
    (rows l : List OrderRow) (x : OrderRow) (r : List OrderRow) (id : String) (n : ℕ)
    → rows ≡ l ++ x ∷ r
    → id ≡ x.id
    → Absent x.id l
    → n ≡ length l
    → find_index (λ y. y.id == id) rows ≡ some n
found_at rows l x r id n shape same absent count =
    rw (shape, same, count) (find_index-first x.id l x r absent (eq_refl x.id))

module _ (rows : List OrderRow) (row a b : OrderRow) (over : String) where
  -- The key that the code makes for the row that is moved.
  abbrev keyed_between : Option (List (String × Key))
  keyed_between = do k ← generate_key_between a.key b.key; some ((row.id, k) ∷ [])

  -- From where the row is to where it comes.
  moved :
      (p q l r : List OrderRow)
      → rows ≡ p ++ row ∷ q
      → find_index (λ x. x.id == row.id) rows ≡ some (length p)
      → find_index (λ x. x.id == over) rows ≡ some (length (l ++ a ∷ []))
      → eqb (length p) (length (l ++ a ∷ [])) ≡ false
      → p ++ q ≡ (l ++ a ∷ []) ++ b ∷ r
      → Absent row.id (l ++ a ∷ [])
      → all has_key rows ≡ true
      → compute_reorder_writes rows row.id over ≡ keyed_between
  moved p q l r shape from_found to_found apart same absent keyed =
      let there : array_move rows (length p) (length (l ++ a ∷ [])) ≡ (l ++ a ∷ []) ++ row ∷ b ∷ r =
        rw shape (array_move-split p q (l ++ a ∷ []) (b ∷ r) row same) in
      compute-eq-writes_for rows row.id over (record {
        from = length p;
        to = length (l ++ a ∷ []);
        from_found = from_found;
        to_found = to_found;
        apart = apart;
      })
      ∙ rw (there, keyed) (writes_for-neighbours l a row b r absent)

  -- The move writes just the key that is generated between those of the two neighbours.
  compute-single :
      LandsBetween rows row a b over
      → all has_key rows ≡ true
      → compute_reorder_writes rows row.id over ≡ keyed_between
  compute-single (down pre mid post shape on row_once a_once) keyed =
      let all_before = append_assoc pre mid (a ∷ b ∷ post) in
      let row_later = append_assoc pre (row ∷ mid) (a ∷ b ∷ post) in
      let count : length ((pre ++ mid) ++ a ∷ []) ≡ length (pre ++ row ∷ mid) = omega (
        arith,
        length-append (pre ++ mid) (a ∷ []),
        length-append pre mid,
        length-append pre (row ∷ mid),
      ) in
      let further : length (pre ++ row ∷ mid) ≡ length pre + (length mid + 1) =
        omega (arith, length-append pre (row ∷ mid)) in
      moved pre (mid ++ a ∷ b ∷ post) (pre ++ mid) post shape
        (found_at rows pre row (mid ++ a ∷ b ∷ post) row.id (length pre) shape refl
          (All-before row.id pre mid (All-before row.id (pre ++ mid) (a ∷ []) row_once)) refl)
        (found_at rows (pre ++ row ∷ mid) a (b ∷ post) over (length ((pre ++ mid) ++ a ∷ []))
          (shape ∙ sym row_later) on a_once count)
        (ground (arith, count, further))
        (sym all_before ∙ sym (append_assoc (pre ++ mid) (a ∷ []) (b ∷ post))) row_once keyed
  compute-single (up pre mid post shape on row_once b_once) keyed =
      let row_last = append_assoc pre (a ∷ b ∷ mid) (row ∷ post) in
      let a_first = append_assoc pre (a ∷ []) (b ∷ (mid ++ row ∷ post)) in
      let split = append_assoc pre (a ∷ []) (b ∷ mid) in
      let further : length (pre ++ a ∷ b ∷ mid) ≡ length (pre ++ a ∷ []) + (length mid + 1) =
        omega (arith, length-append pre (a ∷ b ∷ mid), length-append pre (a ∷ [])) in
      moved (pre ++ a ∷ b ∷ mid) post pre (mid ++ post) (shape ∙ sym row_last)
        (found_at rows (pre ++ a ∷ b ∷ mid) row post row.id (length (pre ++ a ∷ b ∷ mid))
          (shape ∙ sym row_last) refl row_once refl)
        (found_at rows (pre ++ a ∷ []) b (mid ++ row ∷ post) over (length (pre ++ a ∷ []))
          (shape ∙ sym a_first) on b_once refl)
        (ground (arith, further))
        (append_assoc pre (a ∷ b ∷ mid) post ∙ sym (append_assoc pre (a ∷ []) (b ∷ (mid ++ post))))
        (All-before row.id (pre ++ a ∷ []) (b ∷ mid) (subst (Absent row.id) (sym split) row_once))
        keyed

  -- Where all rows have keys and a row is moved, down or up, to between two rows whose keys are well
  -- formed and ascend, one row is written: the moved one, with a well-formed key strictly between.
  pub compute_reorder_writes-IsBetween :
      (x y : Key)
      → LandsBetween rows row a b over
      → all has_key rows ≡ true
      → a.key ≡ some x
      → b.key ≡ some y
      → IsKey x
      → IsKey y
      → InOrder (some x) (some y)
      → (k : Key) × (compute_reorder_writes rows row.id over ≡ some ((row.id, k) ∷ []))
        × IsBetween x (some y) k
  compute_reorder_writes-IsBetween x y place keyed before after kx ky order =
      let (k, found, between) = generate_key_between-Finds (some x) (some y) kx ky order in
      (k, compute-single place keyed ∙ rw (before, after) (rw found refl), between)

  -- Where all rows have keys and a row is moved, down or up, to between two rows of one key, no writes
  -- are computed: the code throws.
  pub compute_reorder_writes-equal_keys :
      (k : Key)
      → LandsBetween rows row a b over
      → all has_key rows ≡ true
      → a.key ≡ some k
      → b.key ≡ some k
      → compute_reorder_writes rows row.id over ≡ none
  compute_reorder_writes-equal_keys k place keyed before after =
      compute-single place keyed ∙ rw (before, after) (rw (generate_key_between_self k) refl)

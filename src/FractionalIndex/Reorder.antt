-- ===== src/FractionalIndex/Reorder.antt =====
-- `computeReorderWrites` (ui/src/fractionalIndex.ts, lines 79 to 117): a backfill gives every row
-- a key in the new order.
use secure_collab_app.Prelude.{
  ℕ, ◌≡◌, refl, ap, false, String, none, some, List, [], ◌∷◌, ◌==◌, length, all, map, arith, eqb,
}
use secure_collab_app.FractionalIndex.{
  Key, OrderRow, find_index, array_move, has_key, pair_up, writes_for, compute_reorder_writes,
}
use secure_collab_app.FractionalIndex.Series.{IsChain, generate_n_keys_between-Yields}

-- Both rows are found, at different places.
pub record Moves (rows : List OrderRow) (active over : String) : Type 0 where
  pub from : ℕ
  pub to : ℕ
  pub from_found : find_index (λ r. r.id == active) rows ≡ some from
  pub to_found : find_index (λ r. r.id == over) rows ≡ some to
  pub apart : eqb from to ≡ false

abbrev pub reordered :
    (rows : List OrderRow) (active over : String) → Moves rows active over → List OrderRow
reordered rows active over m = array_move rows m.from m.to

map-pair_up :
    (rows : List OrderRow) (ks : List Key)
    → length ks ≡ length rows
    → (map (λ w. w.0) (pair_up rows ks) ≡ map (λ r. r.id) rows)
      × (map (λ w. w.1) (pair_up rows ks) ≡ ks)
map-pair_up [] [] h = (refl, refl)
map-pair_up [] (k ∷ ks) h = absurd (omega arith)
map-pair_up (r ∷ rows) [] h = absurd (omega arith)
map-pair_up (r ∷ rows) (k ∷ ks) h =
    let (ids, keys) = map-pair_up rows ks (omega arith) in
    (ap (λ x. r.id ∷ x) ids, ap (λ x. k ∷ x) keys)

-- Two rows that are found apart are moved, and the writes are those for the new order.
pub compute-eq-writes_for :
    (rows : List OrderRow) (active over : String) (m : Moves rows active over)
    → compute_reorder_writes rows active over
      ≡ writes_for (reordered rows active over m) (all has_key rows) active
unfolding compute_reorder_writes
compute-eq-writes_for rows active over m =
    rw (m.from_found, compute_reorder_writes) (rw (m.to_found, compute_reorder_writes) (rw m.apart))

-- If a row without a key is among the rows and one row is moved to the place of another, every row
-- is written, in the new order, with keys that ascend strictly.
pub compute_reorder_writes-backfill :
    (rows : List OrderRow) (active over : String) (m : Moves rows active over)
    → all has_key rows ≡ false
    → (ws : List (String × Key)) × (compute_reorder_writes rows active over ≡ some ws)
      × (map (λ w. w.0) ws ≡ map (λ r. r.id) (reordered rows active over m))
      × IsChain none (map (λ w. w.1) ws) none
unfolding writes_for
compute_reorder_writes-backfill rows active over m unkeyed =
    let rs = reordered rows active over m in
    let (ks, found, count, chain) = generate_n_keys_between-Yields none none (length rs) tt tt tt in
    let (ids, keys) = map-pair_up rs ks count in
    (
      pair_up rs ks,
      rw (compute-eq-writes_for rows active over m, unkeyed) (rw found refl),
      ids,
      rw keys chain,
    )

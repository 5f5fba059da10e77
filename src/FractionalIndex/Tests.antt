-- ===== src/FractionalIndex/Tests.antt =====
-- The theorems about ui/src/fractionalIndex.ts at concrete keys. The digits 10, 31 and 35 are the
-- characters A, V and Z.
use secure_collab_app.Prelude.{◌≡◌, refl, String, Option, none, some, List, [], ◌∷◌, map, arith}
use secure_collab_app.FractionalIndex.{
  Key, OrderRow, generate_key_between, generate_n_keys_between, compute_reorder_writes,
}
use secure_collab_app.FractionalIndex.Order.{IsKey}
use secure_collab_app.FractionalIndex.Between.{IsBetween, Finds, generate_key_between-Finds}
use secure_collab_app.FractionalIndex.Series.{Yields, IsChain, generate_n_keys_between-Yields}
use secure_collab_app.FractionalIndex.Reorder.{Moves, compute_reorder_writes-backfill}
use secure_collab_app.FractionalIndex.Placed.{
  LandsBetween, down, up, compute_reorder_writes-IsBetween, compute_reorder_writes-equal_keys,
}

keys :
    (generate_key_between none none ≡ some (31 ∷ []))
    × (generate_key_between (some (10 ∷ [])) (some (11 ∷ [])) ≡ some (10 ∷ 31 ∷ []))
    × (generate_key_between (some (10 ∷ [])) (some (10 ∷ 0 ∷ 1 ∷ [])) ≡ some (10 ∷ 0 ∷ 0 ∷ 31 ∷ []))
    × (generate_key_between (some (11 ∷ [])) (some (10 ∷ [])) ≡ none)
unfolding generate_key_between
keys = (refl, refl, refl, refl)

ten : IsKey (10 ∷ [])
ten = record { digits = omega arith; last = refl }

eleven : IsKey (11 ∷ [])
eleven = record { digits = omega arith; last = refl }

generate_key_between-Finds_example :
    Finds (10 ∷ []) (some (11 ∷ [])) (generate_key_between (some (10 ∷ [])) (some (11 ∷ [])))
generate_key_between-Finds_example =
    generate_key_between-Finds (some (10 ∷ [])) (some (11 ∷ [])) ten eleven refl

generate_n_keys_between-Yields_example :
    Yields
      (some (10 ∷ []))
      (some (11 ∷ []))
      5
      (generate_n_keys_between (some (10 ∷ [])) (some (11 ∷ [])) 5)
generate_n_keys_between-Yields_example =
    generate_n_keys_between-Yields (some (10 ∷ [])) (some (11 ∷ [])) 5 ten eleven refl

abbrev row : String → Option Key → OrderRow
row id key = record { id = id; key = key }

abbrev mixed : List OrderRow
mixed = row "a" (some (10 ∷ [])) ∷ row "b" none ∷ row "c" none ∷ []

abbrev mixed_move : Moves mixed "c" "a"
mixed_move = record { from = 2; to = 0; from_found = refl; to_found = refl; apart = refl }

compute_reorder_writes-backfill_example :
    (ws : List (String × Key)) × (compute_reorder_writes mixed "c" "a" ≡ some ws)
    × (map (λ w. w.0) ws ≡ "c" ∷ "a" ∷ "b" ∷ [])
    × IsChain none (map (λ w. w.1) ws) none
compute_reorder_writes-backfill_example =
    compute_reorder_writes-backfill mixed "c" "a" mixed_move refl

-- Two clients that insert at one place make one key, so `b` and `c` may share theirs.
abbrev tied : List OrderRow
tied = row "a" (some (10 ∷ [])) ∷ row "b" (some (31 ∷ [])) ∷ row "c" (some (31 ∷ [])) ∷ []

tied_between :
    LandsBetween tied
      (row "a" (some (10 ∷ [])))
      (row "b" (some (31 ∷ [])))
      (row "c" (some (31 ∷ [])))
      "b"
tied_between = down [] [] [] refl refl (refl, tt) (refl, tt)

compute_reorder_writes-equal_keys_example : compute_reorder_writes tied "a" "b" ≡ none
compute_reorder_writes-equal_keys_example =
    compute_reorder_writes-equal_keys tied (row "a" (some (10 ∷ []))) (row "b" (some (31 ∷ [])))
      (row "c" (some (31 ∷ []))) "b" (31 ∷ []) tied_between refl refl refl

abbrev apart : List OrderRow
apart = row "b" (some (10 ∷ [])) ∷ row "c" (some (11 ∷ [])) ∷ row "a" (some (31 ∷ [])) ∷ []

lands_apart :
    LandsBetween apart
      (row "a" (some (31 ∷ [])))
      (row "b" (some (10 ∷ [])))
      (row "c" (some (11 ∷ [])))
      "c"
lands_apart = up [] [] [] refl refl (refl, (refl, tt)) (refl, tt)

compute_reorder_writes-IsBetween_example :
    (k : Key) × (compute_reorder_writes apart "a" "c" ≡ some (("a", k) ∷ []))
    × IsBetween (10 ∷ []) (some (11 ∷ [])) k
compute_reorder_writes-IsBetween_example =
    compute_reorder_writes-IsBetween apart (row "a" (some (31 ∷ []))) (row "b" (some (10 ∷ [])))
      (row "c" (some (11 ∷ []))) "c" (10 ∷ []) (11 ∷ []) lands_apart refl refl refl ten eleven refl

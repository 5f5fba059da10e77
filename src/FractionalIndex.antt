-- ===== src/FractionalIndex.antt =====
-- ui/src/fractionalIndex.ts: keys for the manual order of rows. A key is the list of its digits,
-- each the position of a character in DIGITS; DIGITS is in the order of the character codes, so
-- the comparison of two texts is the one of their digits. `none` is an error that is thrown.
pub mod Order
pub mod Between
pub mod Series
pub mod Reorder
pub mod Placed
mod Tests
use secure_collab_app.Prelude.{
  ℕ, zero, suc, ◌+◌, ◌-◌, ◌/◌, Bool, true, false, not, ◌&&◌, ◌||◌, String, Option, none, some, List,
  [], ◌∷◌, ◌++◌, ◌==◌, eqb, ltb, if◌then◌else◌, length, take, drop, reverse, get_elem?, all,
}

abbrev pub Key : Type 0
Key = List ℕ

-- `a < b` on texts.
abbrev pub lt_key : Key → Key → Bool
lt_key [] [] = false
lt_key [] (y ∷ b) = true
lt_key (x ∷ a) [] = false
lt_key (x ∷ a) (y ∷ b) = ltb x y || (eqb x y && lt_key a b)

-- `a.slice(-1) === '0'`
abbrev pub ends_zero : Key → Bool
ends_zero [] = false
ends_zero (x ∷ []) = eqb x 0
ends_zero (x ∷ y ∷ a) = ends_zero (y ∷ a)

-- The length of the longest common prefix, where `a` is padded with zeros.
unfoldable pub common : Key → Key → ℕ
common a [] = 0
common [] (y ∷ b) = let rest = common [] b in if eqb 0 y then suc rest else 0
common (x ∷ a) (y ∷ b) = let rest = common a b in if eqb x y then suc rest else 0

abbrev pub first_digit : Key → ℕ
first_digit [] = 0
first_digit (x ∷ a) = x

abbrev pub base : ℕ
base = 62

abbrev pub prepend : Key → Option Key → Option Key
prepend p none = none
prepend p (some k) = some (p ++ k)

-- The checks at the head of `midpoint`.
abbrev pub refused : Key → Option Key → Bool
refused a none = ends_zero a
refused a (some b) = not (lt_key a b) || (ends_zero a || ends_zero b)

abbrev common_bound : Key → Option Key → ℕ
common_bound a none = 0
common_bound a (some b) = common a b

abbrev upper_digit : Option Key → ℕ
upper_digit none = base
upper_digit (some b) = first_digit b

-- `b !== null && b.length > 1`
abbrev is_long : Option Key → Bool
is_long none = false
is_long (some b) = ltb 1 (length b)

abbrev bound_or_nil : Option Key → Key
bound_or_nil none = []
bound_or_nil (some b) = b

abbrev drop_bound : ℕ → Option Key → Option Key
drop_bound n none = none
drop_bound n (some b) = some (drop n b)

-- `Math.round(0.5 * (x + y))`
abbrev pub middle : ℕ → ℕ → ℕ
middle x y = (x + y + 1) / 2

-- The end of `midpoint`, on the first digits; `deeper` is the recursive call.
unfoldable pub by_digits : Key → Option Key → Option Key → Option Key
by_digits a b deeper =
    if ltb 1 (upper_digit b - first_digit a)
    then some (middle (first_digit a) (upper_digit b) ∷ [])
    else if is_long b
    then some (take 1 (bound_or_nil b))
    else prepend (first_digit a ∷ []) deeper

-- `midpoint`, on fuel.
unfoldable pub midpoint : ℕ → Key → Option Key → Option Key
unfolding common by_digits
midpoint zero a b = none
midpoint (suc f) a b =
    let n = common_bound a b in
    let stripped = prepend (take n (bound_or_nil b)) (midpoint f (drop n a) (drop_bound n b)) in
    let digits = by_digits a b (midpoint f (drop 1 a) none) in
    if refused a b then none else if ltb 0 n then stripped else digits

abbrev pub key_or_nil : Option Key → Key
key_or_nil none = []
key_or_nil (some a) = a

-- `a !== null && b !== null && a >= b`
abbrev pub crossed : Option Key → Option Key → Bool
crossed none b = false
crossed (some a) none = false
crossed (some a) (some b) = not (lt_key a b)

unfoldable pub generate_key_between : Option Key → Option Key → Option Key
unfolding midpoint
generate_key_between a b =
    if crossed a b then none else midpoint (length (key_or_nil a) + 3) (key_or_nil a) b

infixl 5 ◌>>=◌
abbrev pub ◌>>=◌ {ℓ κ} : {A : Type ℓ} {B : Type κ} → Option A → (A → Option B) → Option B
none >>= f = none
some a >>= f = f a

-- The loop that goes up from `prev`, and the one that goes down from `next`; the newest key is
-- last in both.
ascend : ℕ → Key → Option (List Key)
ascend zero prev = some []
ascend (suc n) prev = do k ← generate_key_between (some prev) none; ks ← ascend n k; some (k ∷ ks)

descend : ℕ → Key → Option (List Key)
descend zero next = some []
descend (suc n) next = do k ← generate_key_between none (some next); ks ← descend n k; some (k ∷ ks)

-- `generateNKeysBetween`, on fuel.
n_keys : ℕ → Option Key → Option Key → ℕ → Option (List Key)
unfolding ascend descend
n_keys zero a b n = none
n_keys (suc f) a b zero = some []
n_keys (suc f) a b (suc zero) = do k ← generate_key_between a b; some (k ∷ [])
n_keys (suc f) a none (suc (suc n)) = do
  k ← generate_key_between a none
  ks ← ascend (suc n) k
  some (k ∷ ks)
n_keys (suc f) none (some b) (suc (suc n)) = do
  k ← generate_key_between none (some b)
  ks ← descend (suc n) k
  some (reverse (k ∷ ks))
n_keys (suc f) (some a) (some b) (suc (suc n)) = do
  c ← generate_key_between (some a) (some b)
  low ← n_keys f (some a) (some c) (suc (suc n) / 2)
  high ← n_keys f (some c) (some b) (suc (suc n) - suc (suc n) / 2 - 1)
  some (low ++ c ∷ high)

unfoldable pub generate_n_keys_between : Option Key → Option Key → ℕ → Option (List Key)
unfolding n_keys
generate_n_keys_between a b n = n_keys (suc n) a b n

pub record OrderRow : Type 0 where
  pub id : String
  pub key : Option Key

module _ {ℓ} {A : Type ℓ} where
  abbrev pub find_index : (A → Bool) → List A → Option ℕ
  find_index p [] = none
  find_index p (x ∷ xs) =
      let rest = find_index p xs in
      if p x then some 0 else elim rest [ none ↦ none | some i ↦ some (suc i) ]

  abbrev pub remove_at : ℕ → List A → List A
  remove_at i [] = []
  remove_at zero (x ∷ xs) = xs
  remove_at (suc i) (x ∷ xs) = x ∷ remove_at i xs

  -- `copy.splice(i, 0, item)`
  abbrev pub insert_at : ℕ → A → List A → List A
  insert_at i item xs = take i xs ++ item ∷ drop i xs

  abbrev pub array_move : List A → ℕ → ℕ → List A
  array_move xs from to = elim (get_elem? xs from) [
    | none ↦ xs
    | some item ↦ insert_at to item (remove_at from xs)
  ]

abbrev pub has_key : OrderRow → Bool
has_key row = elim row.key [ none ↦ false | some k ↦ true ]

abbrev pub key_at : List OrderRow → ℕ → Option Key
key_at rows i = elim (get_elem? rows i) [ none ↦ none | some row ↦ row.key ]

-- The keys beside the place `i`.
abbrev pub previous_key : List OrderRow → ℕ → Option Key
previous_key rows zero = none
previous_key rows (suc i) = key_at rows i

abbrev pub next_key : List OrderRow → ℕ → Option Key
next_key rows i = if ltb (i + 1) (length rows) then key_at rows (i + 1) else none

abbrev pub pair_up : List OrderRow → List Key → List (String × Key)
pair_up [] ks = []
pair_up (row ∷ rows) [] = []
pair_up (row ∷ rows) (k ∷ ks) = (row.id, k) ∷ pair_up rows ks

-- The writes for rows that are in their new order.
pub writes_for : List OrderRow → Bool → String → Option (List (String × Key))
writes_for reordered keyed active = elim keyed [
  | true ↦ elim (find_index (λ r. r.id == active) reordered) [
    | none ↦ none
    | some i ↦ do
      k ← generate_key_between (previous_key reordered i) (next_key reordered i)
      some ((active, k) ∷ [])
  ]
  | false ↦ do
    ks ← generate_n_keys_between none none (length reordered)
    some (pair_up reordered ks)
]

unfoldable pub compute_reorder_writes :
    List OrderRow → String → String → Option (List (String × Key))
unfolding writes_for
compute_reorder_writes rows active over = elim (find_index (λ r. r.id == active) rows) [
  | none ↦ some []
  | some from ↦ elim (find_index (λ r. r.id == over) rows) [
    | none ↦ some []
    | some to ↦
        if eqb from to
        then some []
        else writes_for (array_move rows from to) (all has_key rows) active
  ]
]

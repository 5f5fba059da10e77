-- ===== src/Prelude/Lists.antt =====
-- Lists measured by native numbers, Boolean searches, and predicates over all elements.
use Prim.Native.Nat.{ℕ, zero, suc, ◌+◌}
use Prim.Native.String.{String}
use mathlib.Core.Path.{◌≡◌, refl}
use mathlib.Core.Logic.{inl, inr}
use mathlib.Core.Bool.{Bool, true, false, ◌&&◌, ◌||◌}
use mathlib.Core.List.{List, [], ◌∷◌, ◌++◌, map, Memᴰ}
use mathlib.Core.Option.{Option, none, some}
use native.Mathlib.Omega.{arith}
use text.Mathlib.Text.{◌==◌}
use secure_collab_app.Prelude.Tests.{if◌then◌else◌, Bool-cases}

module _ {ℓ} {A : Type ℓ} where
  abbrev pub length : List A → ℕ
  length [] = 0
  length (x ∷ xs) = suc (length xs)

  abbrev pub filter : (A → Bool) → List A → List A
  filter p [] = []
  filter p (x ∷ xs) = if p x then x ∷ filter p xs else filter p xs

  abbrev pub any : (A → Bool) → List A → Bool
  any p [] = false
  any p (x ∷ xs) = p x || any p xs

  abbrev pub all : (A → Bool) → List A → Bool
  all p [] = true
  all p (x ∷ xs) = p x && all p xs

  abbrev pub find : (A → Bool) → List A → Option A
  find p [] = none
  find p (x ∷ xs) = if p x then some x else find p xs

  abbrev pub get_last? : List A → Option A
  get_last? [] = none
  get_last? (x ∷ []) = some x
  get_last? (x ∷ y ∷ ys) = get_last? (y ∷ ys)

  abbrev pub is_nil : List A → Bool
  is_nil [] = true
  is_nil (x ∷ xs) = false

  abbrev pub take : ℕ → List A → List A
  take zero xs = []
  take (suc n) [] = []
  take (suc n) (x ∷ xs) = x ∷ take n xs

  abbrev pub drop : ℕ → List A → List A
  drop zero xs = xs
  drop (suc n) [] = []
  drop (suc n) (x ∷ xs) = drop n xs

  abbrev pub get_elem? : List A → ℕ → Option A
  get_elem? [] i = none
  get_elem? (x ∷ xs) zero = some x
  get_elem? (x ∷ xs) (suc i) = get_elem? xs i

  -- `xs` with `x` at the place `i`, if it has that place.
  abbrev pub set_elem : ℕ → A → List A → List A
  set_elem i x [] = []
  set_elem zero x (y ∷ ys) = x ∷ ys
  set_elem (suc i) x (y ∷ ys) = y ∷ set_elem i x ys

  -- Reading after a write: the written place, and the others.
  pub get_elem-set_elem :
      (i : ℕ) (x y : A) (xs : List A)
      → get_elem? xs i ≡ some y
      → get_elem? (set_elem i x xs) i ≡ some x
  get_elem-set_elem i x y [] h = cc
  get_elem-set_elem zero x y (z ∷ zs) h = refl
  get_elem-set_elem (suc i) x y (z ∷ zs) h = get_elem-set_elem i x y zs h

  pub drop-nil : (n : ℕ) → drop n [] ≡ []
  drop-nil zero = refl
  drop-nil (suc n) = refl

  pub length-append : (xs ys : List A) → length (xs ++ ys) ≡ length xs + length ys
  length-append [] ys = omega arith
  length-append (x ∷ xs) ys = omega (arith, length-append xs ys)

module _ {ℓ κ} {A : Type ℓ} (P : A → Type κ) where
  abbrev pub All : List A → Type κ
  All [] = Unit
  All (x ∷ xs) = P x × All xs

  pub All-append : (xs ys : List A) → All xs → All ys → All (xs ++ ys)
  All-append [] ys hx hy = hy
  All-append (x ∷ xs) ys hx hy = (hx.0, All-append xs ys hx.1 hy)

-- What passes a filter is in the list and passes the test.
pub mem-filter {ℓ} :
    {A : Type ℓ} (p : A → Bool) (xs : List A) {a : A}
    → Memᴰ a (filter p xs)
    → Memᴰ a xs × (p a ≡ true)
mem-filter p [] m = elim m [ ]
mem-filter {A} p (x ∷ xs) {a} m = elim (Bool-cases (p x)) [
  | inl e ↦ kept (mem-filter p xs) e (rw e at m)
  | inr e ↦ let r = mem-filter p xs (rw e at m) in (Memᴰ.tail r.0, r.1)
]
  where
    kept :
        (Memᴰ a (filter p xs) → Memᴰ a xs × (p a ≡ true))
        → p x ≡ true
        → Memᴰ a (x ∷ filter p xs)
        → Memᴰ a (x ∷ xs) × (p a ≡ true)
    kept ih e (Memᴰ.head h) = (Memᴰ.head h, rw h e)
    kept ih e (Memᴰ.tail m) = let r = ih m in (Memᴰ.tail r.0, r.1)

-- What holds of the image of each element holds of the mapped list.
pub All-map {ℓ κ} :
    {A B : Type ℓ} (P : B → Type κ) (f : A → B) (xs : List A)
    → ((a : A) → Memᴰ a xs → P (f a))
    → All P (map f xs)
All-map P f [] h = tt
All-map P f (x ∷ xs) h = (h x (Memᴰ.head refl), All-map P f xs (λ a m. h a (Memᴰ.tail m)))

abbrev pub contains : List String → String → Bool
contains [] k = false
contains (x ∷ xs) k = x == k || contains xs k

-- `xs` is an initial part of `ys`.
abbrev pub Begins {ℓ} : {A : Type ℓ} → List A → List A → Type ℓ
Begins {A} xs ys = (rest : List A) × (xs ++ rest ≡ ys)

pub All-Begins {ℓ κ} :
    {A : Type ℓ} (P : A → Type κ) (xs ys : List A) → Begins xs ys → All P ys → All P xs
All-Begins P [] ys b h = tt
All-Begins P (x ∷ xs) ys (rest, e) h =
    let k = rw (← e) at h in (k.0, All-Begins P xs (xs ++ rest) (rest, refl) k.1)

-- What a predicate and the test of a filter imply holds of all that is kept.
pub All-filter {ℓ} :
    {A : Type ℓ} (P Q : A → Type ℓ) (p : A → Bool) (xs : List A)
    → ((a : A) → P a → p a ≡ true → Q a)
    → All P xs
    → All Q (filter p xs)
All-filter P Q p [] f h = tt
All-filter P Q p (x ∷ xs) f h = elim (Bool-cases (p x)) [
  | inl e ↦ rw e (f x h.0 e, All-filter P Q p xs f h.1)
  | inr e ↦ rw e (All-filter P Q p xs f h.1)
]

pub All-weaken {ℓ} :
    {A : Type ℓ} (P Q : A → Type ℓ) (xs : List A) → ((a : A) → P a → Q a) → All P xs → All Q xs
All-weaken P Q [] f h = tt
All-weaken P Q (x ∷ xs) f h = (f x h.0, All-weaken P Q xs f h.1)

-- What is found passes the test, and has what all the elements have.
pub All-find {ℓ} :
    {A : Type ℓ} (P : A → Type ℓ) (p : A → Bool) (xs : List A) {b : A}
    → All P xs
    → find p xs ≡ some b
    → P b × (p b ≡ true)
All-find P p [] h f = cc
All-find P p (x ∷ xs) {b} h f = elim (Bool-cases (p x)) [
  | inl e ↦ found h.0 e (rw e at f)
  | inr e ↦ All-find P p xs h.1 (rw e at f)
]
  where
    found : P x → p x ≡ true → some x ≡ some b → P b × (p b ≡ true)
    found hx e f = let same : x ≡ b = cc in (rw (← same) hx, rw (← same) e)

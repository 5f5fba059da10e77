-- ===== src/FractionalIndex/Series.antt =====
-- `generateNKeysBetween` (ui/src/fractionalIndex.ts, lines 50 to 77) returns as many keys as it is
-- asked for, in strictly ascending order between the bounds.
use mathlib.Core.List.{reverse_aux}
use secure_collab_app.Prelude.{
  ℕ, zero, suc, ◌+◌, ◌-◌, ◌/◌, ◌<◌, ◌≡◌, refl, ap, true, Option, none, some, List, [], ◌∷◌, ◌++◌,
  length, length-append, reverse, arith,
}
use secure_collab_app.FractionalIndex.{
  Key, lt_key, ascend, descend, n_keys, generate_n_keys_between,
}
use secure_collab_app.FractionalIndex.Order.{lt_key_trans, IsKey}
use secure_collab_app.FractionalIndex.Between.{
  IsBelow, IsBound, InOrder, generate_key_between-Finds,
}

-- Well-formed keys, each above the one before it, the first above `a`, and all below `b`.
abbrev pub IsChain : Option Key → List Key → Option Key → Type 0
IsChain a [] b = Unit
IsChain a (k ∷ ks) b = IsKey k × InOrder a (some k) × IsBelow k b × IsChain (some k) ks b

abbrev pub Yields : Option Key → Option Key → ℕ → Option (List Key) → Type 0
Yields a b n r = (ks : List Key) × (r ≡ some ks) × (length ks ≡ n) × IsChain a ks b

IsBelow-trans : (k c : Key) (b : Option Key) → lt_key k c ≡ true → IsBelow c b → IsBelow k b
IsBelow-trans k c none h p = tt
IsBelow-trans k c (some b) h p = lt_key_trans k c b h p

IsChain-append :
    (a : Option Key) (low : List Key) (c : Key) (high : List Key) (b : Option Key)
    → IsChain a low (some c)
    → IsKey c
    → InOrder a (some c)
    → IsBelow c b
    → IsChain (some c) high b
    → IsChain a (low ++ c ∷ high) b
IsChain-append a [] c high b l kc o p h = (kc, o, p, h)
IsChain-append a (k ∷ ks) c high b (kk, ok, pk, l) kc o p h =
    (kk, ok, IsBelow-trans k c b pk p, IsChain-append (some k) ks c high b l kc pk p h)

ascend-Yields : (n : ℕ) (prev : Key) → IsKey prev → Yields (some prev) none n (ascend n prev)
unfolding ascend
ascend-Yields zero prev h = ([], refl, refl, tt)
ascend-Yields (suc n) prev h =
    let (k, found, b) = generate_key_between-Finds (some prev) none h tt tt in
    let (ks, rest, count, chain) = ascend-Yields n k b.key in
    (k ∷ ks, rw (found, rest) refl, ap suc count, (b.key, b.above, tt, chain))

-- Well-formed keys, each below the one before it, the first below `top`.
abbrev IsFall : Key → List Key → Type 0
IsFall top [] = Unit
IsFall top (k ∷ ks) = IsKey k × (lt_key [] k ≡ true) × (lt_key k top ≡ true) × IsFall k ks

abbrev Falls : Key → ℕ → Option (List Key) → Type 0
Falls top n r = (ks : List Key) × (r ≡ some ks) × (length ks ≡ n) × IsFall top ks

descend-Falls :
    (n : ℕ) (next : Key) → IsKey next → lt_key [] next ≡ true → Falls next n (descend n next)
unfolding descend
descend-Falls zero next h p = ([], refl, refl, tt)
descend-Falls (suc n) next h p =
    let (k, found, b) = generate_key_between-Finds none (some next) tt h p in
    let (ks, rest, count, fall) = descend-Falls n k b.key b.above in
    (k ∷ ks, rw (found, rest) refl, ap suc count, (b.key, b.above, b.below, fall))

IsChain-reverse_aux :
    (top : Key) (ks acc : List Key) (b : Option Key)
    → IsKey top
    → lt_key [] top ≡ true
    → IsBelow top b
    → IsFall top ks
    → IsChain (some top) acc b
    → IsChain none (reverse_aux ks (top ∷ acc)) b
IsChain-reverse_aux top [] acc b kt o p f h = (kt, o, p, h)
IsChain-reverse_aux top (k ∷ ks) acc b kt o p (kk, ok, lower, f) h =
    IsChain-reverse_aux k ks (top ∷ acc) b kk ok (IsBelow-trans k top b lower p) f (kt, lower, p, h)

length-reverse_aux : (xs ys : List Key) → length (reverse_aux xs ys) ≡ length xs + length ys
length-reverse_aux [] ys = omega arith
length-reverse_aux (x ∷ xs) ys = omega (arith, length-reverse_aux xs (x ∷ ys))

n_keys-Yields :
    (f : ℕ) (a b : Option Key) (n : ℕ)
    → IsBound a
    → IsBound b
    → InOrder a b
    → n < f
    → Yields a b n (n_keys f a b n)
unfolding n_keys
n_keys-Yields zero a b n ka kb o h = absurd (omega arith)
n_keys-Yields (suc f) a b zero ka kb o h = ([], refl, refl, tt)
n_keys-Yields (suc f) a b (suc zero) ka kb o h =
    let (k, found, i) = generate_key_between-Finds a b ka kb o in
    (k ∷ [], rw found refl, refl, (i.key, i.above, i.below, tt))
n_keys-Yields (suc f) a none (suc (suc n)) ka kb o h =
    let (k, found, i) = generate_key_between-Finds a none ka tt tt in
    let (ks, rest, count, chain) = ascend-Yields (suc n) k i.key in
    (k ∷ ks, rw (found, rest) refl, ap suc count, (i.key, i.above, tt, chain))
n_keys-Yields (suc f) none (some b) (suc (suc n)) ka kb o h =
    let (k, found, i) = generate_key_between-Finds none (some b) tt kb o in
    let (ks, rest, count, fall) = descend-Falls (suc n) k i.key i.above in
    (
      reverse (k ∷ ks),
      rw (found, rest) refl,
      omega (arith, length-reverse_aux ks (k ∷ []), count),
      IsChain-reverse_aux k ks [] (some b) i.key i.above i.below fall tt,
    )
n_keys-Yields (suc f) (some a) (some b) (suc (suc n)) ka kb o h =
    let (c, found, i) = generate_key_between-Finds (some a) (some b) ka kb o in
    let (low, first, n1, chain1) =
      n_keys-Yields f (some a) (some c) (suc (suc n) / 2) ka i.key i.above (omega arith) in
    let (high, second, n2, chain2) =
      n_keys-Yields f (some c) (some b) (suc (suc n) - suc (suc n) / 2 - 1) i.key kb i.below
        (omega arith) in
    (
      low ++ c ∷ high,
      rw (found, first, second) refl,
      omega (arith, length-append low (c ∷ high), n1, n2),
      IsChain-append (some a) low c high (some b) chain1 i.key i.above i.below chain2,
    )

-- For well-formed bounds in order, `generateNKeysBetween` does not throw, and returns n well-formed
-- keys that ascend strictly from above `a` to below `b`.
pub generate_n_keys_between-Yields :
    (a b : Option Key) (n : ℕ)
    → IsBound a
    → IsBound b
    → InOrder a b
    → Yields a b n (generate_n_keys_between a b n)
unfolding generate_n_keys_between
generate_n_keys_between-Yields a b n ka kb o = n_keys-Yields (suc n) a b n ka kb o (omega arith)

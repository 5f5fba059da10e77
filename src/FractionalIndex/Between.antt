-- ===== src/FractionalIndex/Between.antt =====
-- `midpoint` and `generateKeyBetween` (ui/src/fractionalIndex.ts, lines 18 to 48) return a key
-- that lies strictly between.
use secure_collab_app.Prelude.{
  ℕ, zero, suc, ◌+◌, ◌-◌, ◌<◌, ◌≤◌, ◌≡◌, refl, true, false, Option, none, some, [], ◌∷◌, ◌++◌, ltb,
  length, take, drop, arith, Bool-cases, inl, inr, All, All-append,
}
use secure_collab_app.FractionalIndex.{
  Key, lt_key, ends_zero, common, base, first_digit, middle, midpoint, key_or_nil, crossed,
  by_digits, generate_key_between,
}
use secure_collab_app.FractionalIndex.Order.{IsKey, IsKey-tail, strip-Stripped}

abbrev pub IsBelow : Key → Option Key → Type 0
IsBelow k none = Unit
IsBelow k (some b) = lt_key k b ≡ true

-- A well-formed key strictly between `a` and `b`.
pub record IsBetween (a : Key) (b : Option Key) (k : Key) : Type 0 where
  pub key : IsKey k
  pub above : lt_key a k ≡ true
  pub below : IsBelow k b

abbrev pub Finds : Key → Option Key → Option Key → Type 0
Finds a b r = (k : Key) × (r ≡ some k) × IsBetween a b k

IsKey-single : (d : ℕ) → d < base → ltb 0 d ≡ true → IsKey (d ∷ [])
IsKey-single d h p = record { digits = (h, tt); last = ground arith }

-- A nonempty key stays one behind any prefix.
ends_zero-append :
    (p k : Key) → ends_zero k ≡ false → lt_key [] k ≡ true → ends_zero (p ++ k) ≡ false
ends_zero-append [] k h e = h
ends_zero-append (x ∷ []) [] h e = cc
ends_zero-append (x ∷ []) (y ∷ k) h e = h
ends_zero-append (x ∷ z ∷ p) k h e = ends_zero-append (z ∷ p) k h e

lt_key-nil : (a k : Key) → lt_key a k ≡ true → lt_key [] k ≡ true
lt_key-nil [] k h = h
lt_key-nil (x ∷ a) [] h = cc
lt_key-nil (x ∷ a) (y ∷ k) h = refl

IsKey-append : (p a k : Key) → All (λ x. x < base) p → IsKey k → lt_key a k ≡ true → IsKey (p ++ k)
IsKey-append p a k hp hk e = record {
  digits = All-append (λ x. x < base) p k hp hk.digits;
  last = ends_zero-append p k hk.last (lt_key-nil a k e);
}

midpoint-open : (f : ℕ) (a : Key) → IsKey a → length a < f → Finds a none (midpoint f a none)
unfolding midpoint
midpoint-open zero a ka h = absurd (omega arith)
midpoint-open (suc f) [] ka h =
    (31 ∷ [], refl, record { key = IsKey-single 31 (omega arith) refl; above = refl; below = tt })
midpoint-open (suc f) (x ∷ a) ka h = elim (Bool-cases (ltb 1 (base - x))) [
  | inl e ↦ (
    middle x base ∷ [],
    rw (ka.last, e) refl,
    record {
      key = IsKey-single (middle x base) (ground arith) (ground arith);
      above = ground arith;
      below = tt;
    },
  )
  | inr e ↦
      let (k, found, between) = midpoint-open f a (IsKey-tail x a ka) (omega arith) in
      (
        x ∷ k,
        rw (ka.last, e, found) refl,
        record {
          key = IsKey-append (x ∷ []) a k (ka.digits.0, tt) between.key between.above;
          above = ground (arith, between.above);
          below = tt;
        },
      )
]

lt_key-first : (a : Key) (m : ℕ) (r : Key) → ltb (first_digit a) m ≡ true → lt_key a (m ∷ r) ≡ true
lt_key-first [] m r h = refl
lt_key-first (x ∷ a) m r h = ground arith

lt_key-rest : (a r : Key) → lt_key (drop 1 a) r ≡ true → lt_key a (first_digit a ∷ r) ≡ true
lt_key-rest [] r h = refl
lt_key-rest (x ∷ a) r h = ground arith

first_digit-lt-base : (a : Key) → IsKey a → first_digit a < base
first_digit-lt-base [] k = omega arith
first_digit-lt-base (x ∷ a) k = k.digits.0

-- The first digits differ.
by_digits-Finds :
    (a : Key) (y : ℕ) (b : Key) (deeper : Option Key)
    → IsKey a
    → IsKey (y ∷ b)
    → ltb (first_digit a) y ≡ true
    → Finds (drop 1 a) none deeper
    → Finds a (some (y ∷ b)) (by_digits a (some (y ∷ b)) deeper)
unfolding by_digits
by_digits-Finds a y b deeper ka kb h (r, found, between) =
    elim (Bool-cases (ltb 1 (y - first_digit a))) [
      | inl wide ↦ (
        middle (first_digit a) y ∷ [],
        rw wide,
        record {
          key = IsKey-single _ (ground (arith, kb.digits.0)) (ground arith);
          above = lt_key-first a _ [] (ground arith);
          below = ground arith;
        },
      )
      | inr tight ↦ narrow b kb tight
    ]
  where
    narrow :
        (b : Key)
        → IsKey (y ∷ b)
        → ltb 1 (y - first_digit a) ≡ false
        → Finds a (some (y ∷ b)) (by_digits a (some (y ∷ b)) deeper)
    narrow [] kb tight = (
      first_digit a ∷ r,
      rw (tight, found),
      record {
        key =
            IsKey-append (first_digit a ∷ []) (drop 1 a) r (first_digit-lt-base a ka, tt)
              between.key between.above;
        above = lt_key-rest a r between.above;
        below = ground arith;
      },
    )
    narrow (z ∷ b) kb tight = (
      y ∷ [],
      rw tight (ground arith),
      record {
        key = IsKey-single y kb.digits.0 (ground arith);
        above = lt_key-first a y [] h;
        below = ground arith;
      },
    )

first_digit-lt :
    (a : Key) (y : ℕ) (b : Key)
    → lt_key a (y ∷ b) ≡ true
    → common a (y ∷ b) ≡ 0
    → ltb (first_digit a) y ≡ true
unfolding common
first_digit-lt [] y b h e = ground arith
first_digit-lt (x ∷ a) y b h e = ground arith

IsKey-drop : (a : Key) → IsKey a → IsKey (drop 1 a)
IsKey-drop [] k = k
IsKey-drop (x ∷ a) k = IsKey-tail x a k

length-drop-le : (a : Key) (f : ℕ) → length a < suc f → 0 < f → length (drop 1 a) < f
length-drop-le [] f h p = p
length-drop-le (x ∷ a) f h p = omega arith

length-drop_le : (n : ℕ) (a : Key) → length (drop n a) ≤ length a
length-drop_le zero a = omega arith
length-drop_le (suc n) [] = omega arith
length-drop_le (suc n) (x ∷ a) = omega (arith, length-drop_le n a)

midpoint-apart :
    (f : ℕ) (a b : Key)
    → IsKey a
    → IsKey b
    → lt_key a b ≡ true
    → common a b ≡ 0
    → length a < suc f
    → 0 < f
    → Finds a (some b) (midpoint (suc f) a (some b))
midpoint-apart f [] [] ka kb h e l p = cc
midpoint-apart f (x ∷ a) [] ka kb h e l p = cc
midpoint-apart f a (y ∷ b) ka kb h e l p =
    let deep = midpoint-open f (drop 1 a) (IsKey-drop a ka) (length-drop-le a f l p) in
    unfold midpoint in
    rw (e, h, ka.last, kb.last) (by_digits-Finds a y b _ ka kb (first_digit-lt a y b h e) deep)

-- With the fuel that is given, a key is found.
midpoint-Finds :
    (f : ℕ) (a b : Key)
    → IsKey a
    → IsKey b
    → lt_key a b ≡ true
    → length a + 2 < f
    → Finds a (some b) (midpoint f a (some b))
midpoint-Finds zero a b ka kb h l = absurd (omega arith)
midpoint-Finds (suc zero) a b ka kb h l = absurd (omega arith)
midpoint-Finds (suc (suc f)) a b ka kb h l = elim (Bool-cases (ltb 0 (common a b))) [
  | inl more ↦
      let n = common a b in
      let s = strip-Stripped a b ka kb h in
      let (k, found, between) =
        midpoint-apart f (drop n a) (drop n b) s.lower s.upper s.ordered s.apart
          (omega (arith, length-drop_le n a)) (omega arith) in
      (
        take n b ++ k,
        unfold midpoint in rw (h, ka.last, kb.last, more, found) refl,
        record {
          key = IsKey-append (take n b) (drop n a) k s.prefix between.key between.above;
          above = s.above k between.above;
          below = s.below k between.below;
        },
      )
  | inr same ↦ midpoint-apart (suc f) a b ka kb h (ground arith) (omega arith) (omega arith)
]

abbrev pub IsBound : Option Key → Type 0
IsBound none = Unit
IsBound (some a) = IsKey a

-- `a` lies below `b`, where no bound is an infinity.
abbrev pub InOrder : Option Key → Option Key → Type 0
InOrder a none = Unit
InOrder a (some b) = lt_key (key_or_nil a) b ≡ true

IsKey-key_or_nil : (a : Option Key) → IsBound a → IsKey (key_or_nil a)
IsKey-key_or_nil none h = record { digits = tt; last = refl }
IsKey-key_or_nil (some a) h = h

crossed-false : (a b : Option Key) → InOrder a b → crossed a b ≡ false
crossed-false none b h = refl
crossed-false (some a) none h = refl
crossed-false (some a) (some b) h = rw h

-- For well-formed bounds in order, `generateKeyBetween` does not throw, and its key is well formed
-- and lies strictly between them.
pub generate_key_between-Finds :
    (a b : Option Key)
    → IsBound a
    → IsBound b
    → InOrder a b
    → Finds (key_or_nil a) b (generate_key_between a b)
unfolding generate_key_between
generate_key_between-Finds a none ka kb h =
    rw (crossed-false a none h) (
      midpoint-open (length (key_or_nil a) + 3) (key_or_nil a) (IsKey-key_or_nil a ka)
        (omega arith))
generate_key_between-Finds a (some b) ka kb h = rw (crossed-false a (some b) h) (
    midpoint-Finds (length (key_or_nil a) + 3) (key_or_nil a) b (IsKey-key_or_nil a ka) kb h
      (omega arith))

-- ===== src/FractionalIndex/Order.antt =====
-- The order of keys, and the strip of a common prefix (ui/src/fractionalIndex.ts, lines 18 to 29).
use secure_collab_app.Prelude.{
  ℕ, suc, ◌<◌, ◌≡◌, refl, true, false, [], ◌∷◌, ◌++◌, eqb, take, drop, drop-nil, arith, Bool-cases,
  inl, inr, All,
}
use secure_collab_app.FractionalIndex.{Key, lt_key, ends_zero, common, base}

pub lt_key_trans : (a b c : Key) → lt_key a b ≡ true → lt_key b c ≡ true → lt_key a c ≡ true
lt_key_trans [] [] c h k = cc
lt_key_trans (x ∷ a) [] c h k = cc
lt_key_trans a (y ∷ b) [] h k = cc
lt_key_trans [] (y ∷ b) (z ∷ c) h k = refl
lt_key_trans (x ∷ a) (y ∷ b) (z ∷ c) h k = ground (arith, lt_key_trans a b c)

pub lt_key_irrefl : (a : Key) → lt_key a a ≡ false
lt_key_irrefl [] = refl
lt_key_irrefl (x ∷ a) = ground (arith, lt_key_irrefl a)

-- A key as the program makes them: every digit is one of DIGITS, and the last is not `0`.
pub record IsKey (a : Key) : Type 0 where
  pub digits : All (λ x. x < base) a
  pub last : ends_zero a ≡ false

pub IsKey-tail : (x : ℕ) (a : Key) → IsKey (x ∷ a) → IsKey a
IsKey-tail x [] k = record { digits = tt; last = refl }
IsKey-tail x (y ∷ a) k = record { digits = k.digits.1; last = k.last }

-- What stripping the common prefix of `a` and `b` leaves.
pub record Stripped (a b : Key) (n : ℕ) : Type 0 where
  pub lower : IsKey (drop n a)
  pub upper : IsKey (drop n b)
  pub apart : common (drop n a) (drop n b) ≡ 0
  pub ordered : lt_key (drop n a) (drop n b) ≡ true
  pub above : (r : Key) → lt_key (drop n a) r ≡ true → lt_key a (take n b ++ r) ≡ true
  pub below : (r : Key) → lt_key r (drop n b) ≡ true → lt_key (take n b ++ r) b ≡ true
  pub prefix : All (λ x. x < base) (take n b)

unstripped : (a b : Key) → IsKey a → IsKey b → lt_key a b ≡ true → common a b ≡ 0 → Stripped a b 0
unstripped a b ka kb h e = record {
  lower = ka;
  upper = kb;
  apart = e;
  ordered = h;
  above = λ r p. p;
  below = λ r p. p;
  prefix = tt;
}

strip_both :
    (x y : ℕ) (a b : Key) (n : ℕ)
    → x ≡ y
    → y < base
    → Stripped a b n
    → Stripped (x ∷ a) (y ∷ b) (suc n)
strip_both x y a b n e small s = record {
  lower = s.lower;
  upper = s.upper;
  apart = s.apart;
  ordered = s.ordered;
  above = λ r p. ground (arith, s.above r p);
  below = λ r p. ground (arith, s.below r p);
  prefix = (small, s.prefix);
}

strip_zero : (y : ℕ) (b : Key) (n : ℕ) → y < base → Stripped [] b n → Stripped [] (y ∷ b) (suc n)
strip_zero y b n small s = record {
  lower = rw (drop-nil n) at s.lower;
  upper = s.upper;
  apart = rw (drop-nil n) at s.apart;
  ordered = rw (drop-nil n) at s.ordered;
  above = λ r p. refl;
  below = λ r p. ground (arith, s.below r p);
  prefix = (small, s.prefix);
}

pub strip-Stripped : (a b : Key) → IsKey a → IsKey b → lt_key a b ≡ true → Stripped a b (common a b)
unfolding common
strip-Stripped [] [] ka kb h = cc
strip-Stripped (x ∷ a) [] ka kb h = cc
strip-Stripped [] (y ∷ []) ka kb h =
    let apart : eqb 0 y ≡ false = ground (arith, kb.last) in
    rw apart (unstripped [] (y ∷ []) ka kb h (rw (apart, common)))
strip-Stripped [] (y ∷ z ∷ b) ka kb h = elim (Bool-cases (eqb 0 y)) [
  | inl e ↦ rw e (
      strip_zero y (z ∷ b) _ kb.digits.0
        (strip-Stripped [] (z ∷ b) ka (IsKey-tail y (z ∷ b) kb) refl))
  | inr e ↦ rw e (unstripped [] (y ∷ z ∷ b) ka kb h (rw (e, common)))
]
strip-Stripped (x ∷ a) (y ∷ b) ka kb h = elim (Bool-cases (eqb x y)) [
  | inl e ↦ rw e (
      strip_both x y a b _ (ground arith) kb.digits.0
        (strip-Stripped a b (IsKey-tail x a ka) (IsKey-tail y b kb) (ground arith)))
  | inr e ↦ rw e (unstripped (x ∷ a) (y ∷ b) ka kb h (rw (e, common)))
]

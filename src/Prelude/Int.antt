-- ===== src/Prelude/Int.antt =====
-- Integers over the native numbers, and the JavaScript numbers that `parseInt` and sums and
-- products of its results yield: an integer, or NaN. Rounding above 2 ^ 53 is not modelled.
use Prim.Native.Char.{code}
use Prim.Native.Nat.{ℕ, suc, ◌+◌, ◌-◌, ◌*◌, ◌≤◌}
use Prim.Native.String.{String}
use mathlib.Core.Path.{◌≡◌, refl}
use mathlib.Core.Bool.{Bool, true, false}
use mathlib.Core.Option.{Option, none, some}
use secure_collab_app.Prelude.Tests.{if◌then◌else◌, leb, eqb}
use secure_collab_app.Prelude.Text.{trim_start, digits_from}

-- `negsuc n` is -(n + 1).
pub data ℤ : Type 0 where
  pos : ℕ → ℤ
  negsuc : ℕ → ℤ

abbrev pub pos_part : ℤ → ℕ
pos_part (pos n) = n
pos_part (negsuc n) = 0

abbrev pub neg_part : ℤ → ℕ
neg_part (pos n) = 0
neg_part (negsuc n) = suc n

-- a - b, as an integer.
abbrev pub sub_ℕ : ℕ → ℕ → ℤ
sub_ℕ a b = if leb b a then pos (a - b) else negsuc (b - a - 1)

infixl 65 ◌+ℤ◌
infix 50 ◌≤ℤ◌
abbrev pub ◌+ℤ◌ : ℤ → ℤ → ℤ
a +ℤ b = sub_ℕ (pos_part a + pos_part b) (neg_part a + neg_part b)

-- k * a
abbrev pub scale : ℕ → ℤ → ℤ
scale k a = sub_ℕ (k * pos_part a) (k * neg_part a)

abbrev pub ◌≤ℤ◌ : ℤ → ℤ → Type 0
a ≤ℤ b = pos_part a + neg_part b ≤ pos_part b + neg_part a

abbrev pub leb_ℤ : ℤ → ℤ → Bool
leb_ℤ a b = leb (pos_part a + neg_part b) (pos_part b + neg_part a)

-- A JavaScript number.
pub data Num : Type 0 where
  nan : Num
  int : ℤ → Num

abbrev pub add_num : Num → Num → Num
add_num nan b = nan
add_num (int a) nan = nan
add_num (int a) (int b) = int (a +ℤ b)

abbrev pub scale_num : ℕ → Num → Num
scale_num k nan = nan
scale_num k (int a) = int (scale k a)

-- `a <= b` and `a < b`: false at NaN.
abbrev pub le_num : Num → Num → Bool
le_num nan b = false
le_num (int a) nan = false
le_num (int a) (int b) = leb_ℤ a b

abbrev pub lt_num : Num → Num → Bool
lt_num nan b = false
lt_num (int a) nan = false
lt_num (int a) (int b) = if leb_ℤ b a then false else true

abbrev of_digits : (ℕ → ℤ) → Option ℕ → Num
of_digits sign none = nan
of_digits sign (some n) = int (sign n)

abbrev negate : ℕ → ℤ
negate n = sub_ℕ 0 n

-- `parseInt(s, 10)`
parse_signed : String → Num
parse_signed String.[] = nan
parse_signed (String.◌∷◌ c s) =
    if eqb (code c) b'-'
    then of_digits negate (digits_from none s)
    else if eqb (code c) b'+'
    then of_digits pos (digits_from none s)
    else of_digits pos (digits_from none (String.◌∷◌ c s))

unfoldable pub parse_int : String → Num
unfolding parse_signed trim_start digits_from
parse_int s = parse_signed (trim_start s)

parse_int_tests :
    (parse_int " 14d" ≡ int (pos 14))
    × (parse_int "-3" ≡ int (negsuc 2))
    × (parse_int "x" ≡ nan)
    × (parse_int "" ≡ nan)
unfolding parse_int
parse_int_tests = (refl, refl, refl, refl)

-- ===== src/AtRest/Sample.antt =====
-- A WebCrypto for the tests, which keeps its laws and hides nothing: code points for UTF-8, unary
-- numbers for base64, and a tag that names the key.
use Prim.Native.Nat.{Ordering, compare}
use Prim.Native.Char.{Char, char, code, IsLt, IsScalar}
use secure_collab_app.Prelude.{
  ℕ, zero, suc, ◌+◌, ◌≡◌, refl, sym, ap, ◌∙◌, true, false, String, List, [], ◌∷◌, ◌++◌,
  if◌then◌else◌, Option, some, none, concat, eqb, drop, length, arith,
}
use secure_collab_app.Exec.{ok, err}
use secure_collab_app.AtRest.Base64.{Base64, IsBase64, lacks, padding}
use secure_collab_app.AtRest.Keys.{WebCrypto, IsWebCrypto, IsAesKey}

abbrev Both : Ordering → Ordering → Type 0
Both Ordering.lt o = IsLt o
Both Ordering.eq _ = ⊥
Both Ordering.gt _ = ⊥

abbrev Scalar : Ordering → Ordering → Ordering → Type 0
Scalar Ordering.lt _ _ = Unit
Scalar Ordering.eq o p = Both o p
Scalar Ordering.gt o p = Both o p

abbrev lt? : (o : Ordering) → Option (IsLt o)
lt? Ordering.lt = some tt
lt? Ordering.eq = none
lt? Ordering.gt = none

abbrev both? : (o p : Ordering) → Option (Both o p)
both? Ordering.lt p = lt? p
both? Ordering.eq p = none
both? Ordering.gt p = none

abbrev scalar? : (o p q : Ordering) → Option (Scalar o p q)
scalar? Ordering.lt p q = some tt
scalar? Ordering.eq p q = both? p q
scalar? Ordering.gt p q = both? p q

lt?-some : (o : Ordering) (h : IsLt o) → lt? o ≡ some h
lt?-some Ordering.lt h = refl
lt?-some Ordering.eq h = absurd h
lt?-some Ordering.gt h = absurd h

both?-some : (o p : Ordering) (h : Both o p) → both? o p ≡ some h
both?-some Ordering.lt p h = lt?-some p h
both?-some Ordering.eq p h = absurd h
both?-some Ordering.gt p h = absurd h

scalar?-some : (o p q : Ordering) (h : Scalar o p q) → scalar? o p q ≡ some h
scalar?-some Ordering.lt p q h = refl
scalar?-some Ordering.eq p q h = both?-some p q h
scalar?-some Ordering.gt p q h = both?-some p q h

abbrev chr_if : (n : ℕ) → Option (IsScalar n) → Char
chr_if n none = "?"
chr_if n (some h) = char n h

abbrev chr : ℕ → Char
chr n = chr_if n (scalar? (compare n 55296) (compare 57343 n) (compare n 1114112))

chr-code : (c : Char) → chr (code c) ≡ c
chr-code (char n h) =
    ap (chr_if n) (scalar?-some (compare n 55296) (compare 57343 n) (compare n 1114112) h)

abbrev codes : String → List ℕ
codes String.[] = []
codes (String.◌∷◌ c s) = code c ∷ codes s

abbrev chars : List ℕ → String
chars [] = ""
chars (n ∷ ns) = String.◌∷◌ (chr n) (chars ns)

chars-codes : (s : String) → chars (codes s) ≡ s
chars-codes String.[] = refl
chars-codes (String.◌∷◌ c s) = λ i. String.◌∷◌ (chr-code c i) (chars-codes s i)

abbrev unary : ℕ → String → String
unary zero s = String.◌∷◌ "0" s
unary (suc n) s = String.◌∷◌ "1" (unary n s)

abbrev unary_all : List ℕ → String
unary_all [] = ""
unary_all (n ∷ ns) = unary n (unary_all ns)

-- The list that is read after `acc` strokes.
abbrev read_unary : ℕ → String → List ℕ
read_unary acc String.[] = []
read_unary acc (String.◌∷◌ c s) =
    let more = read_unary (suc acc) s in
    let next = read_unary 0 s in
    if eqb (code c) b'1' then more else (if eqb (code c) b'0' then acc ∷ next else [])

abbrev sample_base64 : Base64
sample_base64 = record { btoa = unary_all; atob = λ s. ok (read_unary 0 s) }

read_unary-unary :
    (n acc : ℕ) (s : String) → read_unary acc (unary n s) ≡ (acc + n) ∷ read_unary 0 s
read_unary-unary zero acc s = ground arith
read_unary-unary (suc n) acc s = ground (arith, read_unary-unary n (suc acc) s)

read_unary_all : (ns : List ℕ) → read_unary 0 (unary_all ns) ≡ ns
read_unary_all [] = refl
read_unary_all (n ∷ ns) = ground (arith, read_unary-unary n 0 (unary_all ns), read_unary_all ns)

lacks-unary :
    (c n : ℕ) (s : String)
    → eqb b'0' c ≡ false
    → eqb b'1' c ≡ false
    → lacks c s ≡ true
    → lacks c (unary n s) ≡ true
lacks-unary c zero s h k l = rw h l
lacks-unary c (suc n) s h k l = rw k (lacks-unary c n s h k l)

lacks-unary_all :
    (c : ℕ) (ns : List ℕ) → eqb b'0' c ≡ false → eqb b'1' c ≡ false → lacks c (unary_all ns) ≡ true
lacks-unary_all c [] h k = refl
lacks-unary_all c (n ∷ ns) h k = lacks-unary c n (unary_all ns) h k (lacks-unary_all c ns h k)

read_unary-padding :
    (acc n : ℕ) (s : String) → read_unary acc (concat s (padding n)) ≡ read_unary acc s
read_unary-padding acc zero String.[] = refl
read_unary-padding acc (suc n) String.[] = refl
read_unary-padding acc n (String.◌∷◌ c s) =
    ground (arith, read_unary-padding (suc acc) n s, read_unary-padding 0 n s)

pub sample_base64-IsBase64 : IsBase64 sample_base64
sample_base64-IsBase64 = record {
  no_dash = λ ns. lacks-unary_all b'-' ns refl refl;
  no_score = λ ns. lacks-unary_all b'_' ns refl refl;
  atob-btoa = λ ns i. ok (read_unary_all ns i);
  empty = refl;
  unpadded = λ n s ns h e. sym (λ i. ok (read_unary-padding 0 n s i)) ∙ e;
}

abbrev repeated : ℕ → ℕ → List ℕ
repeated zero x = []
repeated (suc n) x = x ∷ repeated n x

length-repeated : (n x : ℕ) → length (repeated n x) ≡ n
length-repeated zero x = refl
length-repeated (suc n) x = ground (arith, length-repeated n x)

abbrev head_or : List ℕ → ℕ
head_or [] = 0
head_or (n ∷ ns) = n

abbrev pub sample_crypto : WebCrypto ℕ
sample_crypto = record {
  available = true;
  encode = codes;
  decode = chars;
  random = repeated;
  import_key = λ algorithm bytes. ok (head_or bytes);
  derive_bits = λ key salt info bits. ok ((key + head_or info) ∷ []);
  encrypt = λ key iv bytes. ok (repeated 16 key ++ bytes);
  decrypt =
      λ key iv bytes. if eqb (head_or bytes) key then ok (drop 16 bytes) else err "OperationError";
  base64 = sample_base64;
}

pub sample_crypto-IsWebCrypto : IsWebCrypto sample_crypto
sample_crypto-IsWebCrypto = record {
  available = refl;
  random_length = length-repeated;
  base64 = sample_base64-IsBase64;
  decode-encode = λ s h. chars-codes s;
}

eqb_refl : (n : ℕ) → eqb n n ≡ true
eqb_refl n = ground arith

pub sample_crypto-IsAesKey : (key : ℕ) → IsAesKey sample_crypto key
sample_crypto-IsAesKey key = record {
  sealed = λ iv bytes. repeated 16 key ++ bytes;
  encrypts = λ iv bytes h. refl;
  tagged = λ iv bytes h. omega arith;
  decrypts = λ iv bytes h. rw (eqb_refl key) refl;
}

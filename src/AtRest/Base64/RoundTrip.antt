-- ===== src/AtRest/Base64/RoundTrip.antt =====
-- The round trip of the URL-safe base64 of ui/src/lib/atRestCrypto.ts.
use Prim.Native.Char.{Char, code}
use text.Mathlib.TextEquality.{Char-path}
use secure_collab_app.Prelude.{
  ℕ, zero, suc, ◌≡◌, refl, sym, ap, ◌∙◌, Bool, true, false, ◌&&◌, not, String, List, [], Bool-cases,
  inl, inr, if◌then◌else◌, is_empty, concat, eqb, eqb→eq, and-eq_true, arith,
}
use secure_collab_app.Exec.{Result, ok}
use secure_collab_app.AtRest.Base64.{
  Base64, IsBase64, replace_all, strip_last, b64url_encode, b64url_decode, lacks, ends_with_pad,
  padding,
}

is_empty-eq : (s : String) → is_empty s ≡ true → s ≡ ""
is_empty-eq String.[] h = refl
is_empty-eq (String.◌∷◌ c s) h = cc

eqb_refl : (n : ℕ) → eqb n n ≡ true
eqb_refl n = ground arith

not-eq_true : (b : Bool) → not b ≡ true → b ≡ false
not-eq_true b h = ground arith

ends_with_pad-cons :
    (x : Char) (s : String)
    → (eqb (code x) b'=' && is_empty s) ≡ false
    → ends_with_pad s ≡ false
    → ends_with_pad (String.◌∷◌ x s) ≡ false
ends_with_pad-cons x String.[] h e = ground arith
ends_with_pad-cons x (String.◌∷◌ y s) h e = e

strip_last-no_pad : (s : String) → ends_with_pad (strip_last b'=' s) ≡ false
unfolding strip_last
strip_last-no_pad String.[] = refl
strip_last-no_pad (String.◌∷◌ x s) =
    elim (Bool-cases (eqb (code x) b'=' && is_empty (strip_last b'=' s))) [
      | inl e ↦ rw e refl
      | inr e ↦ rw e (ends_with_pad-cons x (strip_last b'=' s) e (strip_last-no_pad s))
    ]

-- How many of the last characters are stripped.
pads : String → ℕ
pads String.[] = 0
pads (String.◌∷◌ x s) =
    if eqb (code x) b'=' && is_empty (strip_last b'=' s) then suc (pads s) else pads s

concat-empty : (s t : String) → is_empty s ≡ true → concat s t ≡ t
concat-empty String.[] t h = refl
concat-empty (String.◌∷◌ x s) t h = cc

cons_pad :
    (n : ℕ) (x : Char) (s : String)
    → code x ≡ b'='
    → padding n ≡ s
    → padding (suc n) ≡ String.◌∷◌ x s
cons_pad n x s h e = λ i. String.◌∷◌ (Char-path "=" x (sym h) i) (e i)

concat-strip_last : (s : String) → concat (strip_last b'=' s) (padding (pads s)) ≡ s
unfolding strip_last pads
concat-strip_last String.[] = refl
concat-strip_last (String.◌∷◌ x s) =
    elim (Bool-cases (eqb (code x) b'=' && is_empty (strip_last b'=' s))) [
      | inl e ↦
          let both : (eqb (code x) b'=' ≡ true) × (is_empty (strip_last b'=' s) ≡ true) =
            and-eq_true (eqb (code x) b'=') (is_empty (strip_last b'=' s)) e in
          rw e (
            cons_pad (pads s) x s (eqb→eq (code x) b'=' both.0) (
              sym (concat-empty (strip_last b'=' s) (padding (pads s)) both.1)
              ∙ concat-strip_last s))
      | inr e ↦ rw e (λ i. String.◌∷◌ x (concat-strip_last s i))
    ]

replace_all-concat :
    (c : ℕ) (d : Char) (s t : String)
    → replace_all c d (concat s t) ≡ concat (replace_all c d s) (replace_all c d t)
unfolding replace_all
replace_all-concat c d String.[] t = refl
replace_all-concat c d (String.◌∷◌ x s) t =
    λ i. String.◌∷◌ (if eqb (code x) c then d else x) (replace_all-concat c d s t i)

replace_all-padding :
    (c : ℕ) (d : Char) (n : ℕ) → eqb b'=' c ≡ false → replace_all c d (padding n) ≡ padding n
unfolding replace_all
replace_all-padding c d zero h = refl
replace_all-padding c d (suc n) h = rw h (λ i. String.◌∷◌ "=" (replace_all-padding c d n h i))

slash-ne-dash : (n : ℕ) → eqb n b'/' ≡ true → eqb n b'-' ≡ false
slash-ne-dash n h = ground arith

replace_char_twice :
    (c d x : Char)
    → eqb (code x) (code d) ≡ false
    → (if eqb (code (if eqb (code x) (code c) then d else x)) (code d)
        then c
        else (if eqb (code x) (code c) then d else x))
      ≡ x
replace_char_twice c d x h = elim (Bool-cases (eqb (code x) (code c))) [
  | inl e ↦ rw (e, eqb_refl (code d)) (Char-path c x (sym (eqb→eq (code x) (code c) e)))
  | inr e ↦ rw (e, h) refl
]

-- A character that is replaced by one that does not occur can be put back.
replace_all_twice :
    (c d : Char) (s : String)
    → lacks (code d) s ≡ true
    → replace_all (code d) c (replace_all (code c) d s) ≡ s
unfolding replace_all
replace_all_twice c d String.[] h = refl
replace_all_twice c d (String.◌∷◌ x s) h =
    let both : (not (eqb (code x) (code d)) ≡ true) × (lacks (code d) s ≡ true) =
      and-eq_true (not (eqb (code x) (code d))) (lacks (code d) s) h in
    λ i.
      String.◌∷◌ (replace_char_twice c d x (not-eq_true _ both.0) i)
        (replace_all_twice c d s both.1 i)

swap_char :
    (x : Char)
    → (if eqb (code (if eqb (code x) b'/' then "_" else x)) b'-'
        then "+"
        else (if eqb (code x) b'/' then "_" else x))
      ≡ (if eqb (code (if eqb (code x) b'-' then "+" else x)) b'/'
          then "_"
          else (if eqb (code x) b'-' then "+" else x))
swap_char x = elim (Bool-cases (eqb (code x) b'/')) [
  | inl e ↦ rw (e, slash-ne-dash (code x) e, e) refl
  | inr e ↦ elim (Bool-cases (eqb (code x) b'-')) [
    | inl f ↦ rw (e, f) refl
    | inr f ↦ rw (e, f, e) refl
  ]
]

replace_all_swap :
    (s : String)
    → replace_all b'-' "+" (replace_all b'/' "_" s) ≡ replace_all b'/' "_" (replace_all b'-' "+" s)
unfolding replace_all
replace_all_swap String.[] = refl
replace_all_swap (String.◌∷◌ x s) = λ i. String.◌∷◌ (swap_char x i) (replace_all_swap s i)

ends_with_pad-replace :
    (c : ℕ) (d : Char) (s : String)
    → eqb (code d) b'=' ≡ false
    → ends_with_pad s ≡ false
    → ends_with_pad (replace_all c d s) ≡ false
unfolding replace_all
ends_with_pad-replace c d String.[] p h = refl
ends_with_pad-replace c d (String.◌∷◌ x String.[]) p h = elim (Bool-cases (eqb (code x) c)) [
  | inl e ↦ rw e p
  | inr e ↦ rw e h
]
ends_with_pad-replace c d (String.◌∷◌ x (String.◌∷◌ y s)) p h =
    ends_with_pad-replace c d (String.◌∷◌ y s) p h

module _ (b : Base64) (laws : IsBase64 b) where
  -- The text before its padding is stripped.
  abbrev padded : List ℕ → String
  padded bytes = replace_all b'/' "_" (replace_all b'+' "-" (b.btoa bytes))

  abbrev put_back : String → String
  put_back s = replace_all b'_' "/" (replace_all b'-' "+" s)

  put_back-padded : (bytes : List ℕ) → put_back (padded bytes) ≡ b.btoa bytes
  put_back-padded bytes =
      rw
        (
          replace_all_swap (replace_all b'+' "-" (b.btoa bytes)),
          replace_all_twice "+" "-" (b.btoa bytes) (laws.no_dash bytes),
        )
        (replace_all_twice "/" "_" (b.btoa bytes) (laws.no_score bytes))

  put_back-concat :
      (s : String) (n : ℕ) → put_back (concat s (padding n)) ≡ concat (put_back s) (padding n)
  put_back-concat s n = simp (replace_all-concat, replace_all-padding)

  -- Decoding the URL-safe text gives back the bytes that were encoded, though its padding is gone.
  pub b64url_decode-encode : (bytes : List ℕ) → b64url_decode b (b64url_encode b bytes) ≡ ok bytes
  unfolding b64url_decode b64url_encode
  b64url_decode-encode bytes =
      let s : String = strip_last b'=' (padded bytes) in
      let n : ℕ = pads (padded bytes) in
      laws.unpadded n (put_back s) bytes
        (ends_with_pad-replace b'_' "/" (replace_all b'-' "+" s) refl
          (ends_with_pad-replace b'-' "+" s refl (strip_last-no_pad (padded bytes))))
        (rw (← (put_back-concat s n), concat-strip_last (padded bytes), put_back-padded bytes)
          (laws.atob-btoa bytes))

  decode_empty : b64url_decode b "" ≡ ok []
  unfolding b64url_decode
  decode_empty = ap b.atob (sym laws.empty) ∙ laws.atob-btoa []

  -- Bytes that are no text when they are encoded are none.
  pub b64url_encode-empty : (bytes : List ℕ) → is_empty (b64url_encode b bytes) ≡ true → bytes ≡ []
  b64url_encode-empty bytes h = ok-injective (
      sym (b64url_decode-encode bytes)
      ∙ ap (b64url_decode b) (is_empty-eq (b64url_encode b bytes) h)
      ∙ decode_empty)
    where
      ok-injective : {xs ys : List ℕ} → ◌≡◌ {A = Result (List ℕ)} (ok xs) (ok ys) → xs ≡ ys
      ok-injective e = cc

-- ===== src/AtRest/Keys/Sealed.antt =====
-- What `encryptString` of ui/src/lib/atRestCrypto.ts seals, `decryptString` opens.
use secure_collab_app.Prelude.{
  ℕ, zero, suc, ◌≤◌, ◌≡◌, refl, ap, inl, inr, Bool-cases, false, String, List, [], ◌∷◌, ◌++◌, ltb,
  is_empty, take, drop, length, length-append, arith,
}
use secure_collab_app.Exec.{ok}
use secure_collab_app.AtRest.Base64.{b64url_encode}
use secure_collab_app.AtRest.Base64.RoundTrip.{b64url_decode-encode, b64url_encode-empty}
use secure_collab_app.AtRest.Keys.{
  WebCrypto, IsWebCrypto, IsAesKey, ◌>>=◌, decrypt_bytes, begins_with_bom, encrypt_string,
  decrypt_string,
}

take-append : (n : ℕ) (xs ys : List ℕ) → length xs ≡ n → take n (xs ++ ys) ≡ xs
take-append zero [] ys h = refl
take-append zero (x ∷ xs) ys h = absurd (omega arith)
take-append (suc n) [] ys h = absurd (omega arith)
take-append (suc n) (x ∷ xs) ys h = λ i. x ∷ take-append n xs ys (omega arith) i

drop-append : (n : ℕ) (xs ys : List ℕ) → length xs ≡ n → drop n (xs ++ ys) ≡ ys
drop-append zero [] ys h = refl
drop-append zero (x ∷ xs) ys h = absurd (omega arith)
drop-append (suc n) [] ys h = absurd (omega arith)
drop-append (suc n) (x ∷ xs) ys h = drop-append n xs ys (omega arith)

no_bytes : (iv ct : List ℕ) → length iv ≡ 12 → (iv ++ ct) ≡ [] → ⊥
no_bytes iv ct n e = omega (arith, length-append iv ct, ap length e)

ltb_of_le : (a b : ℕ) → b ≤ a → ltb a b ≡ false
ltb_of_le a b h = ground arith

module _ {Key : Type 0} (w : WebCrypto Key) (laws : IsWebCrypto w) (key : Key)
    (aes : IsAesKey w key) where
  -- The text that a sealing gives.
  abbrev pub blob_of : ℕ → String → String
  blob_of seed s =
      b64url_encode w.base64 (w.random 12 seed ++ aes.sealed (w.random 12 seed) (w.encode s))

  pub encrypt_string_blob :
      (seed : ℕ) (s : String) → encrypt_string w key seed s ≡ ok (blob_of seed s)
  unfolding encrypt_string
  encrypt_string_blob seed s =
      rw (laws.available, aes.encrypts (w.random 12 seed) (w.encode s) (laws.random_length 12 seed))
        refl

  opened :
      (iv ct : List ℕ) (s : String)
      → length iv ≡ 12
      → 16 ≤ length ct
      → w.decrypt key iv ct ≡ ok (w.encode s)
      → w.decode (w.encode s) ≡ s
      → decrypt_bytes w key (iv ++ ct) ≡ ok s
  opened iv ct s n t d e =
      rw
        (
          ltb_of_le (length (iv ++ ct)) 13 (omega (arith, length-append iv ct)),
          laws.available,
          take-append 12 iv ct n,
          drop-append 12 iv ct n,
          d,
          e,
        )
        refl

  -- A text sealed under an AES key, which a byte order mark does not begin, is opened by that key as it
  -- was, whatever the random bytes are.
  pub decrypt_string-encrypt :
      (seed : ℕ) (s : String)
      → begins_with_bom s ≡ false
      → (encrypt_string w key seed s >>= decrypt_string w key) ≡ ok s
  unfolding decrypt_string
  decrypt_string-encrypt seed s h =
      let iv : List ℕ = w.random 12 seed in
      let n : length iv ≡ 12 = laws.random_length 12 seed in
      rw
        (
          encrypt_string_blob seed s,
          b64url_decode-encode w.base64 laws.base64 (iv ++ aes.sealed iv (w.encode s)),
        )
        (opened iv (aes.sealed iv (w.encode s)) s n (aes.tagged iv (w.encode s) n)
          (aes.decrypts iv (w.encode s) n) (laws.decode-encode s h))

  -- A sealed text is not empty.
  pub blob_of-not_empty : (seed : ℕ) (s : String) → is_empty (blob_of seed s) ≡ false
  blob_of-not_empty seed s = elim (Bool-cases (is_empty (blob_of seed s))) [
    | inl e ↦
        let iv : List ℕ = w.random 12 seed in
        let ct : List ℕ = aes.sealed iv (w.encode s) in
        absurd (
          no_bytes iv ct (laws.random_length 12 seed)
            (b64url_encode-empty w.base64 laws.base64 (iv ++ ct) e))
    | inr e ↦ e
  ]

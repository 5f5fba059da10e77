-- ===== src/AtRest/Base64.antt =====
-- The unpadded URL-safe base64 of ui/src/lib/atRestCrypto.ts, `b64urlEncode` and `b64urlDecode`.
-- `btoa` and `atob` are the browser's; a binary string is the list of its code units.
pub mod RoundTrip
use Prim.Native.Char.{Char, code}
use text.Mathlib.TextEquality.{Char-path}
use secure_collab_app.Prelude.{
  ℕ, zero, suc, ◌≡◌, refl, sym, ap, ◌∙◌, Bool, true, false, ◌&&◌, not, String, List, [], Bool-cases,
  inl, inr, if◌then◌else◌, is_empty, concat, eqb, eqb→eq, and-eq_true, arith,
}
use secure_collab_app.Exec.{Result, ok}

pub record Base64 : Type 0 where
  pub btoa : List ℕ → String
  pub atob : String → Result (List ℕ)

-- `s.replace(/c/g, d)`
unfoldable pub replace_all : ℕ → Char → String → String
replace_all c d String.[] = ""
replace_all c d (String.◌∷◌ x s) = String.◌∷◌ (if eqb (code x) c then d else x) (replace_all c d s)

-- `s.replace(/c+$/, '')`
unfoldable pub strip_last : ℕ → String → String
strip_last c String.[] = ""
strip_last c (String.◌∷◌ x s) =
    let rest = strip_last c s in if eqb (code x) c && is_empty rest then "" else String.◌∷◌ x rest

unfoldable pub b64url_encode : Base64 → List ℕ → String
unfolding replace_all strip_last
b64url_encode b bytes = strip_last b'=' (replace_all b'/' "_" (replace_all b'+' "-" (b.btoa bytes)))

unfoldable pub b64url_decode : Base64 → String → Result (List ℕ)
unfolding replace_all
b64url_decode b s = b.atob (replace_all b'_' "/" (replace_all b'-' "+" s))

abbrev pub lacks : ℕ → String → Bool
lacks c String.[] = true
lacks c (String.◌∷◌ x s) = not (eqb (code x) c) && lacks c s

abbrev pub ends_with_pad : String → Bool
ends_with_pad String.[] = false
ends_with_pad (String.◌∷◌ x String.[]) = eqb (code x) b'='
ends_with_pad (String.◌∷◌ x (String.◌∷◌ y s)) = ends_with_pad (String.◌∷◌ y s)

abbrev pub padding : ℕ → String
padding zero = ""
padding (suc n) = String.◌∷◌ "=" (padding n)

-- What the browser's base64 gives: its alphabet, its round trip, no text for no bytes, and that the
-- padding at the end may be left off.
pub record IsBase64 (b : Base64) : Type 0 where
  pub no_dash : (bytes : List ℕ) → lacks b'-' (b.btoa bytes) ≡ true
  pub no_score : (bytes : List ℕ) → lacks b'_' (b.btoa bytes) ≡ true
  pub atob-btoa : (bytes : List ℕ) → b.atob (b.btoa bytes) ≡ ok bytes
  pub empty : b.btoa [] ≡ ""
  pub unpadded :
      (n : ℕ) (s : String) (bytes : List ℕ)
      → ends_with_pad s ≡ false
      → b.atob (concat s (padding n)) ≡ ok bytes
      → b.atob s ≡ ok bytes

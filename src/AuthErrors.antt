-- ===== src/AuthErrors.antt =====
-- Whether a failed session restore was rejected, ui/src/lib/authErrors.ts. `toLowerCase` and the
-- engine that runs the expression for a status 401 or 403 are parameters.
mod Tests
use Prim.Native.Char.{code}
use Prim.Native.String
use secure_collab_app.Prelude.{
  starts_with, ◌≡◌, refl, Bool, true, false, not, ◌&&◌, ◌||◌, String, List, [], ◌∷◌, if◌then◌else◌,
  any, is_empty, concat, eqb, Bool-cases, inl, inr, and-eq_true, arith,
}

pub record Runtime : Type 0 where
  pub lower : String → String
  pub names_status : String → Bool

-- `t.includes(m)`
abbrev pub includes : String → String → Bool
includes m String.[] = is_empty m
includes m (String.◌∷◌ c t) = starts_with m (String.◌∷◌ c t) || includes m t

abbrev rejection_markers : List String
rejection_markers =
    "M_UNKNOWN_TOKEN" ∷ "M_MISSING_TOKEN" ∷ "M_FORBIDDEN" ∷ "invalid_grant" ∷ "invalid_token"
    ∷ "unauthorized_client" ∷ []

abbrev unreachable_markers : List String
unreachable_markers =
    "timed out" ∷ "timeout" ∷ "failed to fetch" ∷ "networkerror" ∷ "error sending request"
    ∷ "connection" ∷ "dns" ∷ "econnrefused" ∷ "certificate" ∷ "service unavailable" ∷ "bad gateway"
    ∷ "gateway timeout" ∷ []

abbrev pub mentions : List String → String → Bool
mentions markers t = any (λ m. includes m t) markers

abbrev pub names_rejection : String → Bool
names_rejection t = mentions rejection_markers t

-- With the message of the error.
unfoldable pub is_session_rejected : Runtime → String → Bool
is_session_rejected rt t =
    if is_empty t
    then false
    else if mentions rejection_markers t
    then true
    else if mentions unreachable_markers (rt.lower t)
    then false
    else rt.names_status t

starts_with-concat : (m t s : String) → starts_with m t ≡ true → starts_with m (concat t s) ≡ true
starts_with-concat String.[] t s h = refl
starts_with-concat (String.◌∷◌ c m) String.[] s h = cc
starts_with-concat (String.◌∷◌ c m) (String.◌∷◌ d t) s h =
    let both = and-eq_true (eqb (code c) (code d)) (starts_with m t) h in
    rw both.0 (starts_with-concat m t s both.1)

includes-nil : (t : String) → includes "" t ≡ true
includes-nil String.[] = refl
includes-nil (String.◌∷◌ c t) = refl

includes-concat : (m t s : String) → includes m t ≡ true → includes m (concat t s) ≡ true
includes-concat String.[] String.[] s h = includes-nil s
includes-concat (String.◌∷◌ c m) String.[] s h = cc
includes-concat m (String.◌∷◌ c t) s h = elim (Bool-cases (starts_with m (String.◌∷◌ c t))) [
  | inl e ↦ rw (starts_with-concat m (String.◌∷◌ c t) s e) refl
  | inr e ↦ ground (arith, includes-concat m t s (rw e at h))
]

includes-before : (m p t : String) → includes m t ≡ true → includes m (concat p t) ≡ true
includes-before m String.[] t h = h
includes-before m (String.◌∷◌ c p) t h = ground (arith, includes-before m p t h)

mentions-within :
    (markers : List String) (p t s : String)
    → mentions markers t ≡ true
    → mentions markers (concat p (concat t s)) ≡ true
mentions-within [] p t s h = cc
mentions-within (m ∷ markers) p t s h = elim (Bool-cases (includes m t)) [
  | inl e ↦ rw (includes-before m p (concat t s) (includes-concat m t s e)) refl
  | inr e ↦ ground (arith, mentions-within markers p t s (rw e at h))
]

not_empty : (t : String) → names_rejection t ≡ true → is_empty t ≡ false
not_empty String.[] h = cc
not_empty (String.◌∷◌ c t) h = refl

-- An error whose text names a rejection is one whatever surrounds that text, also words of an
-- unreachable server.
pub is_session_rejected-concat :
    (rt : Runtime) (p t s : String)
    → names_rejection t ≡ true
    → is_session_rejected rt (concat p (concat t s)) ≡ true
unfolding is_session_rejected
is_session_rejected-concat rt p t s h =
    let w = mentions-within rejection_markers p t s h in
    rw (not_empty (concat p (concat t s)) w, w) refl

-- An error whose text names no rejection and no status 401 or 403 is none.
is_session_rejected-false :
    (rt : Runtime) (t : String)
    → names_rejection t ≡ false
    → rt.names_status t ≡ false
    → is_session_rejected rt t ≡ false
unfolding is_session_rejected
is_session_rejected-false rt t h k = elim (Bool-cases (is_empty t)) [
  | inl e ↦ rw e refl
  | inr e ↦ rw (e, h, k) (ground arith)
]

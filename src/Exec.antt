-- ===== src/Exec.antt =====
-- Asynchronous methods that act on a state and may throw. What was done before a throw stays
-- done, so the state comes back beside the error too.
use secure_collab_app.Prelude.{String}

pub data Result {ℓ} (A : Type ℓ) : Type ℓ where
  ok : A → Result A
  err : String → Result A

abbrev pub Exec {ℓ} : Type ℓ → Type ℓ → Type ℓ
Exec S A = S → Result A × S

module _ {ℓ} {S A : Type ℓ} where
  abbrev pub pure : A → Exec S A
  pure a s = (ok a, s)

  abbrev pub throw : String → Exec S A
  throw e s = (err e, s)

  abbrev pub lift : Result A → Exec S A
  lift r s = (r, s)

  -- `try { m } catch (e) { handler }`
  abbrev pub recover : Result A → (String → Exec S A) → Exec S A
  recover (ok a) handler s = (ok a, s)
  recover (err e) handler s = handler e s

  abbrev pub attempt : Exec S A → (String → Exec S A) → Exec S A
  attempt m handler s = recover (m s).0 handler (m s).1

module _ {ℓ} {S A B : Type ℓ} where
  abbrev pub continue : Result A → (A → Exec S B) → Exec S B
  continue (ok a) f s = f a s
  continue (err e) f s = (err e, s)

  infixl 5 ◌>>=◌ ◌>>◌
  abbrev pub ◌>>=◌ : Exec S A → (A → Exec S B) → Exec S B
  ◌>>=◌ m f s = continue (m s).0 f (m s).1

  abbrev pub ◌>>◌ : Exec S A → Exec S B → Exec S B
  ◌>>◌ m n s = continue (m s).0 (λ _. n) (m s).1

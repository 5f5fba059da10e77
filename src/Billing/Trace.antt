-- ===== src/Billing/Trace.antt =====
-- What a method of the billing worker (billing/src/index.ts) sends: a plan of state-changing
-- requests, all of it if the method returns, and an initial part of it if the method throws.
use secure_collab_app.Prelude.{
  ◌≡◌, refl, sym, ap, ◌∙◌, String, List, [], ◌∷◌, ◌++◌, append-nil, append_assoc, Begins,
}
use secure_collab_app.Exec.{Result, ok, err, Exec, pure, throw, continue, ◌>>=◌}
use secure_collab_app.Billing.Services.{Command, World, ask, send}

module _ {A : Type 0} where
  abbrev pub Outcome : List Command → List Command → (A → Type 0) → Result A → List Command → Type 0
  Outcome start plan Post (ok a) sent = (sent ≡ start ++ plan) × Post a
  Outcome start plan Post (err e) sent =
      (done : List Command) × (sent ≡ start ++ done) × Begins done plan

  shift :
      (start p q middle : List Command) (Post : A → Type 0) (r : Result A) (sent : List Command)
      → middle ≡ start ++ p
      → Outcome middle q Post r sent
      → Outcome start (p ++ q) Post r sent
  shift start p q middle Post (ok a) sent e (same, post) =
      (same ∙ rw e (append_assoc start p q), post)
  shift start p q middle Post (err x) sent e (done, same, (rest, all)) = (
    p ++ done,
    same ∙ rw e (append_assoc start p done),
    (rest, append_assoc p done rest ∙ ap (◌++◌ p) all),
  )

  Outcome-mono :
      (start plan sent : List Command) {P Q : A → Type 0} (r : Result A)
      → ((a : A) → P a → Q a)
      → Outcome start plan P r sent
      → Outcome start plan Q r sent
  Outcome-mono start plan sent (ok a) f (same, p) = (same, f a p)
  Outcome-mono start plan sent (err e) f o = o

module _ {W : Type 0} where
  pub record Issues {A : Type 0} (plan : List Command) (Post : A → Type 0) (m : Exec (World W) A)
      : Type 0 where
    pub at : (w : World W) → Outcome w.sent plan Post (m w).0 (m w).1.sent

  module _ {A : Type 0} where
    pub Issues-pure : {Post : A → Type 0} (a : A) → Post a → Issues [] Post (pure a)
    Issues-pure a p = record { at = λ w. (sym (append-nil w.sent), p) }

    pub Issues-throw : {Post : A → Type 0} (e : String) → Issues [] Post (throw e)
    Issues-throw e = record { at = λ w. ([], sym (append-nil w.sent), ([], refl)) }

  module _ {A B : Type 0} {Post : A → Type 0} (Next : B → Type 0) (p q : List Command)
      (f : A → Exec (World W) B) (step : (a : A) → Post a → Issues q Next (f a)) where
    pub continue-Outcome :
        (start : List Command) (r : Result A) (w : World W)
        → Outcome start p Post r w.sent
        → Outcome start (p ++ q) Next (continue r f w).0 (continue r f w).1.sent
    continue-Outcome start (ok a) w (same, post) =
        shift start p q w.sent Next (f a w).0 (f a w).1.sent same ((step a post).at w)
    continue-Outcome start (err e) w (done, same, (rest, all)) =
        (done, same, (rest ++ q, sym (append_assoc done rest q) ∙ ap (λ x. x ++ q) all))

    pub Issues-bind : (m : Exec (World W) A) → Issues p Post m → Issues (p ++ q) Next (m >>= f)
    Issues-bind m km = record { at = λ w. continue-Outcome w.sent (m w).0 (m w).1 (km.at w) }

  pub Issues-mono :
      {A : Type 0} {P Q : A → Type 0} (plan : List Command) (m : Exec (World W) A)
      → ((a : A) → P a → Q a)
      → Issues plan P m
      → Issues plan Q m
  Issues-mono plan m f k = record {
    at = λ w. Outcome-mono w.sent plan (m w).1.sent (m w).0 f (k.at w);
  }

  -- A request that reads, whose answer is taken by `read`.
  pub Issues-ask :
      {R A : Type 0} (read : R → Result A) (f : W → R × W)
      → Issues {A = A} [] (λ _. Unit {0}) (λ w. (read (ask f w).0, (ask f w).1))
  Issues-ask {R} {A} read f = record { at = λ w. quiet w.sent (read (f w.outside).0) }
    where
      quiet : (s : List Command) (r : Result A) → Outcome s [] (λ _. Unit {0}) r s
      quiet s (ok a) = (sym (append-nil s), tt)
      quiet s (err e) = ([], sym (append-nil s), ([], refl))

  pub Issues-send :
      {R A : Type 0} (c : Command) (read : R → Result A) (f : W → R × W)
      → Issues {A = A} (c ∷ []) (λ _. Unit {0}) (λ w. (read (send c f w).0, (send c f w).1))
  Issues-send {R} {A} c read f = record { at = λ w. one w.sent (read (f w.outside).0) }
    where
      one : (s : List Command) (r : Result A) → Outcome s (c ∷ []) (λ _. Unit {0}) r (s ++ c ∷ [])
      one s (ok a) = (refl, tt)
      one s (err e) = (c ∷ [], refl, ([], refl))

  -- A method that only reads leaves what was sent.
  pub sent-Issues_nil :
      {A : Type 0} {Post : A → Type 0} (m : Exec (World W) A) (w w' : World W) (a : A)
      → Issues [] Post m
      → m w ≡ (ok a, w')
      → w'.sent ≡ w.sent
  sent-Issues_nil m w w' a k e = (rw e at (k.at w)).0 ∙ append-nil w.sent

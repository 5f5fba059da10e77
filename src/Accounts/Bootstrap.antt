-- ===== src/Accounts/Bootstrap.antt =====
-- How the bootstrap of recovery ends, `bootstrapRecovery` in ui/src/hooks/useAuth.ts.
use secure_collab_app.Prelude.{
  ℕ, ◌≡◌, refl, Bool-cases, inl, inr, String, Option, some, none, is_empty, List, [], ◌∷◌, ◌+◌,
}
use secure_collab_app.Exec.{Result, ok, err, Exec}
use secure_collab_app.Accounts.State.{Session, save, error_prompt, Runtime, App, truthy}
use secure_collab_app.Accounts.Sealing.{seal_data_key, seal_if}
use secure_collab_app.Accounts.Recovery.{
  bootstrap_from, bootstrap_recovery, after_attempt, recovery_bootstrap_delays,
}

-- The end of a loop that begins after `n` attempts, with one more for each of the delays: a key that
-- was given, sealed before it is shown, or the error of the last attempt and nothing else changed.
pub data EndsFrom {Key Text : Type 0} (rt : Runtime Key Text) (ms : Session) (seed : ℕ)
    (s : App Key Text) : ℕ → List ℕ → String → Result (Unit {0}) × App Key Text → Type 0 where
  given :
      {n delay : ℕ} {delays : List ℕ} {last_err : String} (key : String)
      → ms.enable_recovery n ≡ ok key
      → EndsFrom rt ms seed s n
          (delay ∷ delays)
          last_err
          (ok tt, record (seal_data_key rt key seed s).1 { prompt = some (save key) })
  again :
      {n delay : ℕ} {delays : List ℕ} {last_err : String} {r : Result (Unit {0}) × App Key Text}
      (e : String)
      → ms.enable_recovery n ≡ err e
      → EndsFrom rt ms seed s (n + 1) delays e r
      → EndsFrom rt ms seed s n (delay ∷ delays) last_err r
  failed :
      {n : ℕ} {last_err : String}
      → EndsFrom rt ms seed s n [] last_err
          (ok tt, record s { prompt = some (error_prompt last_err) })

module _ {Key Text : Type 0} (rt : Runtime Key Text) where
  seal_if-ok :
      (key : String) (seed : ℕ) (data_key : Option String) (s : App Key Text)
      → (seal_if rt key seed data_key s).0 ≡ ok tt
  seal_if-ok key seed none s = refl
  seal_if-ok key seed (some data_key) s = refl

  seal_data_key-ok :
      (key : String) (seed : ℕ) (s : App Key Text) → (seal_data_key rt key seed s).0 ≡ ok tt
  unfolding seal_data_key
  seal_data_key-ok key seed s = elim (Bool-cases (is_empty key)) [
    | inl e ↦ rw e refl
    | inr e ↦ rw e (seal_if-ok key seed (truthy s.data_key) s)
  ]

  module _ (ms : Session) (seed : ℕ) (s : App Key Text) where
    attempted :
        (n delay : ℕ) (delays : List ℕ) (last_err : String) (r : Result String)
        (retry : String → Exec (App Key Text) (Unit {0}))
        → ms.enable_recovery n ≡ r
        → ((e : String) → EndsFrom rt ms seed s (n + 1) delays e (retry e s))
        → EndsFrom rt ms seed s n (delay ∷ delays) last_err (after_attempt rt r seed retry s)
    attempted n delay delays last_err (ok key) retry h rest =
        rw (seal_data_key-ok key seed s) (given key h)
    attempted n delay delays last_err (err e) retry h rest = again e h (rest e)

    bootstrap_from-EndsFrom :
        (delays : List ℕ) (n : ℕ) (last_err : String)
        → EndsFrom rt ms seed s n delays last_err (bootstrap_from rt ms delays n last_err seed s)
    unfolding bootstrap_from
    bootstrap_from-EndsFrom [] n last_err = failed
    bootstrap_from-EndsFrom (delay ∷ delays) n last_err =
        attempted n delay delays last_err (ms.enable_recovery n) _ refl
          (λ e. bootstrap_from-EndsFrom delays (n + 1) e)

    -- The bootstrap of recovery never throws. It ends with the first of three attempts that gives a key:
    -- sealDataKey has run with that key, and then the key is shown to be saved. Where all three fail, the
    -- error of the last is shown and nothing else has changed.
    pub bootstrap_recovery-EndsFrom :
        EndsFrom rt ms seed s 0 recovery_bootstrap_delays "Unknown error"
          (bootstrap_recovery rt ms seed s)
    unfolding bootstrap_recovery
    bootstrap_recovery-EndsFrom =
        bootstrap_from-EndsFrom recovery_bootstrap_delays 0 "Unknown error"

-- ===== src/Accounts/Rejected.antt =====
-- When the start of the app takes an account out of the pool.
use secure_collab_app.Prelude.{
  ℕ, ◌≡◌, ◌⊎◌, inl, inr, refl, ◌∙◌, Bool, true, false, ◌&&◌, ◌==◌, String, List, [], ◌∷◌, Option,
  some, none, if◌then◌else◌, map, Bool-cases,
}
use secure_collab_app.Exec.{Result, Exec, ok, err, continue, attempt}
use secure_collab_app.AuthErrors.{is_session_rejected}
use secure_collab_app.Accounts.State.{AccountSession, Session, Items, Runtime, App, truthy}
use secure_collab_app.Accounts.Storage.{
  load_accounts, load_active_account_id, is_text, patch_account, set_active, without,
}
use secure_collab_app.Accounts.Sealing.{with_wraps}
use secure_collab_app.Accounts.Recovery.{ensure_history_access}
use secure_collab_app.Accounts.Restore.{
  restore_session, restore_with_device_key, plain_restore, after_failure, unless_done,
  restore_account, restore_found, chosen, auto_restore,
}
use secure_collab_app.Accounts.Keeps.{Holds, holds, held, Stable, continue-Holds}
use secure_collab_app.Accounts.Keeps.Restore.{restore_with_device_key-Keeps, plain_restore-Keeps}
use secure_collab_app.Accounts.Stored.{with_wraps-user}

abbrev pub user_ids : List AccountSession → List String
user_ids accounts = map (λ a. a.user_id) accounts

user_ids-patch :
    (uid : String) (f : AccountSession → AccountSession) (accounts : List AccountSession)
    → ((a : AccountSession) → (f a).user_id ≡ a.user_id)
    → user_ids (patch_account uid f accounts) ≡ user_ids accounts
unfolding patch_account
user_ids-patch uid f [] h = refl
user_ids-patch uid f (a ∷ rest) h = elim (Bool-cases (a.user_id == uid)) [
  | inl e ↦ rw (e, h a) (λ i. a.user_id ∷ user_ids-patch uid f rest h i)
  | inr e ↦ rw e (λ i. a.user_id ∷ user_ids-patch uid f rest h i)
]

module _ {Key Text : Type 0} (rt : Runtime Key Text) (ids : List String) (active : Option String)
    (who : Option AccountSession) (pool : List AccountSession) where
  -- The users of the pool and the active account.
  abbrev Same : List AccountSession → Option String → Items Text → Type 0
  Same accounts now items = (user_ids accounts ≡ ids) × (now ≡ active)

  Same-Stable : Stable rt Same
  Same-Stable = record {
    seals = λ custody dw kw secrets uid accounts now items p. (
      user_ids-patch uid (with_wraps custody dw kw secrets) accounts
            (with_wraps-user custody dw kw secrets)
          ∙ p.0,
      p.1,
    );
    loads = λ accounts now items p. p;
    rooms = λ id entries accounts now items p. p;
  }

  abbrev Rejection : App Key Text → Type 0
  Rejection t =
      (account : AccountSession) × (e : String) × (who ≡ some account)
      × (t.accounts ≡ without account.user_id pool)
      × (restore_session rt account account.matrix_session_data none ≡ err e)
      × (is_session_rejected rt.errors e ≡ true)

  abbrev Outcome : App Key Text → Type 0
  Outcome t = Holds rt Same t ⊎ Rejection t

  failed :
      (account : AccountSession) (e : String) (t : App Key Text)
      → who ≡ some account
      → restore_session rt account account.matrix_session_data none ≡ err e
      → Holds rt Same t
      → Outcome (after_failure rt account pool e t).1
  unfolding set_active
  failed account e t w r p = elim (Bool-cases (is_session_rejected rt.errors e)) [
    | inl rejected ↦ rw rejected (inr (account, e, w, refl, r, rejected))
    | inr kept ↦ rw kept (inl (holds _ (held rt Same t p)))
  ]

  -- How the attempt ends, by what the restore of the session gives.
  plain_by :
      (account : AccountSession) (seed : ℕ) (t : App Key Text) (r : Result Session)
      → who ≡ some account
      → restore_session rt account account.matrix_session_data none ≡ r
      → Holds rt Same (plain_restore rt account seed t).1
      → Holds rt Same t
      → Outcome (attempt (plain_restore rt account seed) (after_failure rt account pool) t).1
  unfolding ensure_history_access
  plain_by account seed t (ok ms) w r q p = rw r (inl (rw r at q))
  plain_by account seed t (err e) w r q p = rw r (failed account e t w r p)

  choose_outcome :
      (b : Bool) (m n : Exec (App Key Text) (Unit {0})) (s : App Key Text)
      → Outcome (m s).1
      → Outcome (n s).1
      → Outcome ((if b then m else n) s).1
  choose_outcome true m n s h k = h
  choose_outcome false m n s h k = k

  -- The end of the flow lowers `loading`.
  settled :
      (r : Result (Unit {0})) (t : App Key Text)
      → Outcome t
      → Outcome (continue r (λ u v. (ok tt, record v { loading = false })) t).1
  settled (ok u) t (inl p) = inl (holds _ (held rt Same t p))
  settled (ok u) t (inr q) = inr q
  settled (err e) t o = o

  by_account :
      (account : AccountSession) (seed : ℕ) (s : App Key Text)
      → who ≡ some account
      → Holds rt Same s
      → Outcome (restore_account rt account pool seed s).1
  by_account account seed s w p =
      let t : App Key Text = record s { loading = true } in
      let q : Holds rt Same t = holds t (held rt Same s p) in
      let m = attempt (plain_restore rt account seed) (after_failure rt account pool) t in
      let d = restore_with_device_key rt account s in
      let h = restore_with_device_key-Keeps rt Same Same-Stable account s p in
      choose_outcome (account.v2 && is_text (truthy account.secrets)) _ _ s
        (inl (
          continue-Holds rt Same d.0 (unless_done rt account) d.1 h
            (λ done. asked account done d.1 h)))
        (choose_outcome (is_text (truthy account.matrix_session_data)) _ _ s
          (settled m.0 m.1 (
            plain_by account seed t (restore_session rt account account.matrix_session_data none) w
              refl (plain_restore-Keeps rt Same Same-Stable account seed t q) q))
          (inl p))
    where
      asked :
          (account : AccountSession) (done : Bool) (u : App Key Text)
          → Holds rt Same u
          → Holds rt Same (unless_done rt account done u).1
      asked account true u p = p
      asked account false u p = holds _ (held rt Same u p)

  by_found :
      (o : Option AccountSession) (seed : ℕ) (s : App Key Text)
      → who ≡ o
      → Holds rt Same s
      → Outcome (restore_found rt o pool seed s).1
  by_found none seed s w p = inl p
  by_found (some account) seed s w p = by_account account seed s w p

module _ {Key Text : Type 0} (rt : Runtime Key Text) where
  -- The account that the start of the app tries to restore.
  abbrev pub starting : Items Text → Option AccountSession
  starting items =
      let loaded = load_accounts rt.json items in
      chosen rt (load_active_account_id loaded.0 loaded.1) loaded.0

  -- After the start of the app the users of the pool and the active account are those of before; or the
  -- restore of the session that it tried failed with an error that tells of a rejection, and the pool is
  -- the stored one without that user.
  pub auto_restore-rejected :
      (seed : ℕ) (s : App Key Text)
      → ((user_ids (auto_restore rt seed s).1.accounts ≡ user_ids s.accounts)
          × ((auto_restore rt seed s).1.active ≡ s.active))
        ⊎ ((account : AccountSession) × (e : String) × (starting s.items ≡ some account)
            × ((auto_restore rt seed s).1.accounts
                ≡ without account.user_id (load_accounts rt.json s.items).0)
            × (restore_session rt account account.matrix_session_data none ≡ err e)
            × (is_session_rejected rt.errors e ≡ true))
  unfolding auto_restore
  auto_restore-rejected seed s =
      let loaded = load_accounts rt.json s.items in
      let t : App Key Text = record s { items = loaded.1 } in
      told (restore_found rt (starting s.items) loaded.0 seed t).1 (
        by_found rt (user_ids s.accounts) s.active (starting s.items) loaded.0 (starting s.items)
          seed t refl (holds t (refl, refl)))
    where
      told :
          (u : App Key Text)
          → Outcome rt
              (user_ids s.accounts)
              s.active
              (starting s.items)
              (load_accounts rt.json s.items).0
              u
          → ((user_ids u.accounts ≡ user_ids s.accounts) × (u.active ≡ s.active))
            ⊎ Rejection rt
                (user_ids s.accounts)
                s.active
                (starting s.items)
                (load_accounts rt.json s.items).0
                u
      told u (inl p) = inl (held rt _ u p)
      told u (inr q) = inr q

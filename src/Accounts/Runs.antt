-- ===== src/Accounts/Runs.antt =====
-- Whatever a user and the app do with the accounts, one operation after the other.
use secure_collab_app.Prelude.{
  ℕ, ◌≡◌, refl, sym, ◌∙◌, Bool, true, false, ◌&&◌, ◌==◌, String, List, [], ◌∷◌, Option, some, none,
  any, Bool-cases, inl, inr,
}
use mathlib.Core.Path.{subst}
use secure_collab_app.Assoc.{map_delete}
use secure_collab_app.Exec.{ok, Exec, attempt}
use secure_collab_app.AuthErrors.{is_session_rejected}
use secure_collab_app.Accounts.State.{AccountSession, Runtime, App, truthy}
use secure_collab_app.Accounts.Storage.{
  load_accounts, load_active_account_id, save_accounts, clear_workspaces, save_active_account_id,
  set_active, find_account, first_id, without, has_user, is_text,
}
use secure_collab_app.Accounts.Recovery.{ensure_history_access}
use secure_collab_app.Accounts.Restore.{
  restore_session, listed_rooms, auto_restore, restore_account, restore_found, chosen,
  plain_restore, after_failure, unless_done, restore_with_device_key,
}
use secure_collab_app.Accounts.Leaving.{
  switch_account, switch_found, switch_to, open_account, failed_to_open, shown_for, is_this,
  is_open,
}
use secure_collab_app.Accounts.Pool.{Distinct, KeepsPool, without-Distinct}
use secure_collab_app.Accounts.Keeps.{
  holds, held, Keeps, Stable, continue-Holds, recover-Holds, if-Holds, choose-Holds,
}
use secure_collab_app.Accounts.Keeps.Recovery.{ensure_history_access-Keeps}
use secure_collab_app.Accounts.Keeps.Restore.{
  listed_rooms-Keeps, set_workspaces-Keeps, restore_with_device_key-Keeps, plain_restore-Keeps,
}
use secure_collab_app.Accounts.Stored.{
  IsPool, IsPool-Stable, load_accounts-with, load_accounts-twice,
}
use secure_collab_app.Accounts.Changes.{Pool}
use secure_collab_app.Accounts.History.{saved-Pool}

find-any :
    (id : String) (accounts : List AccountSession) {a : AccountSession}
    → find_account id accounts ≡ some a
    → any (has_user id) accounts ≡ true
find-any id [] e = cc
find-any id (b ∷ rest) e = elim (Bool-cases (b.user_id == id)) [
  | inl h ↦ rw h refl
  | inr h ↦ rw h (find-any id rest (rw h at e))
]

module _ {Key Text : Type 0} (rt : Runtime Key Text) (laws : KeepsPool rt.json) where
  abbrev pub Kept : {A : Type 0} → Exec (App Key Text) A → Type 0
  Kept m = Keeps rt (IsPool rt.json) m

  pub stable : Stable rt (IsPool rt.json)
  stable = IsPool-Stable rt laws

  open_account-Keeps : (account : AccountSession) (seed : ℕ) → Kept (open_account rt account seed)
  open_account-Keeps account seed s p =
      continue-Holds rt (IsPool rt.json)
        (restore_session rt account account.matrix_session_data none) _ s p
        λ ms.
          let t : App Key Text = record s { session = some ms } in
          let q : Pool rt laws t = holds t (held rt (IsPool rt.json) s p) in
          let r = ensure_history_access rt ms seed t in
          let k = ensure_history_access-Keeps rt (IsPool rt.json) stable ms seed t q in
          continue-Holds rt (IsPool rt.json) r.0 _ r.1 k λ u.
            let listed = listed_rooms rt ms r.1 in
            let l = listed_rooms-Keeps rt (IsPool rt.json) stable ms r.1 k in
            continue-Holds rt (IsPool rt.json) listed.0 _ listed.1 l λ entries.
              set_workspaces-Keeps rt (IsPool rt.json) stable account.user_id entries listed.1 l

  attempt-Keeps :
      (m : Exec (App Key Text) (Unit {0})) (handler : String → Exec (App Key Text) (Unit {0}))
      → Kept m
      → ((e : String) → Kept (handler e))
      → Kept (attempt m handler)
  attempt-Keeps m handler h k s p =
      recover-Holds rt (IsPool rt.json) (m s).0 handler (m s).1 (h s p) (λ e. k e (m s).1 (h s p))

  switch_to-Keeps : (account : AccountSession) (seed : ℕ) → Kept (switch_to rt account seed)
  switch_to-Keeps account seed s p =
      let m = attempt (open_account rt account seed) (failed_to_open rt account) s in
      let k : Pool rt laws m.1 =
        attempt-Keeps (open_account rt account seed) (failed_to_open rt account)
          (open_account-Keeps account seed) (λ e t q. holds _ (held rt (IsPool rt.json) t q)) s p in
      choose-Holds rt (IsPool rt.json) (account.v2 && is_text (truthy account.secrets)) _ _ s
        (holds _ (held rt (IsPool rt.json) s p))
        (continue-Holds rt (IsPool rt.json) m.0 _ m.1 k
          (λ u. holds _ (held rt (IsPool rt.json) m.1 k)))

  switch_found-Pool :
      (id : String) (seed : ℕ) (o : Option AccountSession) (s : App Key Text)
      → find_account id s.accounts ≡ o
      → Pool rt laws s
      → Pool rt laws (switch_found rt id seed o s).1
  unfolding save_active_account_id
  switch_found-Pool id seed none s e p = p
  switch_found-Pool id seed (some account) s e p =
      let k = held rt (IsPool rt.json) s p in
      if-Holds rt (IsPool rt.json) (is_this id s.active && is_open s.session) (ok tt, s)
        (switch_to rt account seed (shown_for rt id s)) p
        (switch_to-Keeps account seed (shown_for rt id s) (
          holds _ (
            k.0,
            load_accounts-with rt.json s.items s.items.workspaces (truthy (some id)) ∙ k.1,
            find-any id s.accounts e,
          )))

  pub switch_account-Keeps : (id : String) (seed : ℕ) → Kept (switch_account rt id seed)
  unfolding switch_account
  switch_account-Keeps id seed s p = switch_found-Pool id seed (find_account id s.accounts) s refl p

  ids-Distinct :
      (accounts loaded : List AccountSession)
      → loaded ≡ accounts
      → Distinct accounts
      → Distinct loaded
  ids-Distinct accounts loaded e d = subst Distinct (sym e) d

  after_failure-Keeps :
      (account : AccountSession) (accounts : List AccountSession) (e : String)
      → Distinct accounts
      → Kept (after_failure rt account accounts e)
  unfolding set_active save_active_account_id clear_workspaces
  after_failure-Keeps account accounts e d s p =
      let rest : List AccountSession = without account.user_id accounts in
      choose-Holds rt (IsPool rt.json) (is_session_rejected rt.errors e) _ _ s
        (holds _ (
          saved-Pool rt laws rest s.items
            (map_delete account.user_id (save_accounts rt.json rest s.items).workspaces)
            (truthy (first_id rest)) (without-Distinct account.user_id accounts d)))
        (holds _ (held rt (IsPool rt.json) s p))

  unless_done-Keeps : (account : AccountSession) (done : Bool) → Kept (unless_done rt account done)
  unless_done-Keeps account true s p = p
  unless_done-Keeps account false s p = holds _ (held rt (IsPool rt.json) s p)

  restore_account-Keeps :
      (account : AccountSession) (accounts : List AccountSession) (seed : ℕ)
      → Distinct accounts
      → Kept (restore_account rt account accounts seed)
  restore_account-Keeps account accounts seed d s p =
      let r = restore_with_device_key rt account s in
      let q = restore_with_device_key-Keeps rt (IsPool rt.json) stable account s p in
      let t : App Key Text = record s { loading = true } in
      let m = attempt (plain_restore rt account seed) (after_failure rt account accounts) t in
      let k : Pool rt laws m.1 =
        attempt-Keeps (plain_restore rt account seed) (after_failure rt account accounts)
          (plain_restore-Keeps rt (IsPool rt.json) stable account seed)
          (λ e. after_failure-Keeps account accounts e d) t
          (holds t (held rt (IsPool rt.json) s p)) in
      choose-Holds rt (IsPool rt.json) (account.v2 && is_text (truthy account.secrets)) _ _ s
        (continue-Holds rt (IsPool rt.json) r.0 _ r.1 q
          (λ done. unless_done-Keeps account done r.1 q))
        (choose-Holds rt (IsPool rt.json) (is_text (truthy account.matrix_session_data)) _ _ s
          (continue-Holds rt (IsPool rt.json) m.0 _ m.1 k
            (λ u. holds _ (held rt (IsPool rt.json) m.1 k)))
          p)

  restore_found-Keeps :
      (account : Option AccountSession) (accounts : List AccountSession) (seed : ℕ)
      → Distinct accounts
      → Kept (restore_found rt account accounts seed)
  restore_found-Keeps none accounts seed d s p = p
  restore_found-Keeps (some account) accounts seed d s p =
      restore_account-Keeps account accounts seed d s p

  pub auto_restore-Keeps : (seed : ℕ) → Kept (auto_restore rt seed)
  unfolding auto_restore
  auto_restore-Keeps seed s p =
      let k = held rt (IsPool rt.json) s p in
      let loaded = load_accounts rt.json s.items in
      let t : App Key Text = record s { items = loaded.1 } in
      restore_found-Keeps (chosen rt (load_active_account_id loaded.0 loaded.1) loaded.0) loaded.0
        seed (ids-Distinct s.accounts loaded.0 k.1 k.0) t
        (holds t (k.0, load_accounts-twice rt.json laws s.items ∙ k.1, k.2))

-- ===== src/Accounts/History.antt =====
-- What an account pool goes through: every operation of the hook that a user or the app starts, one
-- after the other.
use secure_collab_app.Prelude.{
  ℕ, ◌≡◌, refl, ◌∙◌, false, String, List, [], Option, some, none, is_empty, Bool-cases, inl, inr,
}
use secure_collab_app.Assoc.{map_delete}
use secure_collab_app.Exec.{ok}
use secure_collab_app.AtRest.Keys.{AtRestKeys, encrypt_string}
use secure_collab_app.Accounts.State.{AccountSession, Session, Items, Runtime, App, truthy}
use secure_collab_app.Accounts.Storage.{
  save_accounts, clear_workspaces, save_active_account_id, set_accounts, patch_account, first_id,
  without,
}
use secure_collab_app.Accounts.Sealing.{
  patch_user, session_user, persist_by, persist_as, persist_of, persist_session_blob,
  session_effect, with_secrets, mark_key_saved, persist_passkey_wrap, confirm_key_saved,
  seal_data_key, offer_passkey_speedup,
}
use secure_collab_app.Accounts.Leaving.{sign_out, remove_account, is_this, left_by, cleared_of}
use secure_collab_app.Accounts.Pool.{
  Distinct, IsActive, KeepsPool, load_accounts-save, without-Distinct, first-IsActive, any-without,
  patch-Distinct, patch-IsActive,
}
use secure_collab_app.Accounts.Keeps.{
  holds, held, Keeps, continue-Holds, if-Holds, seal_data_key-Keeps,
}
use secure_collab_app.Accounts.Stored.{IsPool, IsPool-Stable, load_accounts-with}
use secure_collab_app.Accounts.Changes.{Pool}

module _ {Key Text : Type 0} (rt : Runtime Key Text) (laws : KeepsPool rt.json) where
  pub saved-Pool :
      (accounts : List AccountSession) (items : Items Text) (w : List (String × Text))
      (active : Option String)
      → Distinct accounts
      → IsPool rt.json accounts (first_id accounts) (record (save_accounts rt.json accounts items) {
        workspaces = w;
        active_account = active;
      })
  saved-Pool accounts items w active d = (
    d,
    load_accounts-with rt.json (save_accounts rt.json accounts items) w active
        ∙ load_accounts-save rt.json laws accounts items,
    first-IsActive accounts,
  )

  pub patch_user-Keeps :
      (f : AccountSession → AccountSession) (uid : Option String)
      → ((a : AccountSession) → (f a).user_id ≡ a.user_id)
      → Keeps rt (IsPool rt.json) (patch_user rt f uid)
  unfolding set_accounts
  patch_user-Keeps f none h s p = p
  patch_user-Keeps f (some uid) h s p =
      let k = held rt (IsPool rt.json) s p in
      holds _ (
        patch-Distinct uid f s.accounts h k.0,
        load_accounts-save rt.json laws (patch_account uid f s.accounts) s.items,
        patch-IsActive s.active uid f s.accounts h k.2,
      )

  pub mark_key_saved-Keeps : Keeps rt (IsPool rt.json) (mark_key_saved rt)
  unfolding mark_key_saved
  mark_key_saved-Keeps s p = patch_user-Keeps _ (session_user s.session) (λ a. refl) s p

  pub persist_passkey_wrap-Keeps :
      (json : String) → Keeps rt (IsPool rt.json) (persist_passkey_wrap rt json)
  unfolding persist_passkey_wrap
  persist_passkey_wrap-Keeps json s p = patch_user-Keeps _ (session_user s.session) (λ a. refl) s p

  pub confirm_key_saved-Keeps :
      (key : String) (seed : ℕ) → Keeps rt (IsPool rt.json) (confirm_key_saved rt key seed)
  unfolding confirm_key_saved offer_passkey_speedup
  confirm_key_saved-Keeps key seed s p =
      let r = mark_key_saved rt s in
      let q = mark_key_saved-Keeps s p in
      continue-Holds rt (IsPool rt.json) r.0 _ r.1 q λ u.
        let t = seal_data_key rt key seed r.1 in
        let k = seal_data_key-Keeps rt (IsPool rt.json) (IsPool-Stable rt laws) key seed r.1 q in
        continue-Holds rt (IsPool rt.json) t.0 _ t.1 k λ v. holds _ (held rt (IsPool rt.json) t.1 k)

  persist_by-Keeps :
      (keys : Option (AtRestKeys Key)) (uid blob : String) (seed : ℕ)
      → Keeps rt (IsPool rt.json) (persist_by rt keys uid blob seed)
  persist_by-Keeps none uid blob seed s p = patch_user-Keeps _ (some uid) (λ a. refl) s p
  persist_by-Keeps (some keys) uid blob seed s p =
      continue-Holds rt (IsPool rt.json) (encrypt_string rt.crypto keys.token_key seed blob) _ s p
        λ secrets. patch_user-Keeps (with_secrets s.custody secrets) (some uid) (λ a. refl) s p

  persist_session_blob-Keeps :
      (uid blob : String) (seed : ℕ)
      → Keeps rt (IsPool rt.json) (persist_session_blob rt uid blob seed)
  unfolding persist_session_blob
  persist_session_blob-Keeps uid blob seed s p =
      if-Holds rt (IsPool rt.json) (is_empty blob) (ok tt, s)
        (persist_by rt s.at_rest_keys uid blob seed s) p
        (persist_by-Keeps s.at_rest_keys uid blob seed s p)

  persist_as-Keeps :
      (ms : Session) (seed : ℕ) (uid : Option String)
      → Keeps rt (IsPool rt.json) (persist_as rt ms seed uid)
  persist_as-Keeps ms seed none s p = p
  persist_as-Keeps ms seed (some uid) s p = persist_session_blob-Keeps uid ms.session_data seed s p

  persist_of-Keeps :
      (ms : Option Session) (seed : ℕ) → Keeps rt (IsPool rt.json) (persist_of rt ms seed)
  persist_of-Keeps none seed s p = p
  persist_of-Keeps (some ms) seed s p = persist_as-Keeps ms seed (truthy ms.user_id) s p

  pub session_effect-Keeps : (seed : ℕ) → Keeps rt (IsPool rt.json) (session_effect rt seed)
  unfolding session_effect
  session_effect-Keeps seed s p = persist_of-Keeps s.session seed s p

  leave-IsPool :
      (active : Option String) (accounts : List AccountSession) (items : Items Text)
      → Distinct accounts
      → IsPool rt.json (left_by active accounts) (first_id (left_by active accounts)) (
          cleared_of active (
            save_active_account_id
              (first_id (left_by active accounts))
              (save_accounts rt.json (left_by active accounts) items)))
  unfolding save_active_account_id clear_workspaces
  leave-IsPool none accounts items d =
      saved-Pool [] items (save_accounts rt.json [] items).workspaces (truthy none) tt
  leave-IsPool (some id) accounts items d =
      saved-Pool (without id accounts) items
        (map_delete id (save_accounts rt.json (without id accounts) items).workspaces)
        (truthy (first_id (without id accounts))) (without-Distinct id accounts d)

  pub sign_out-Pool : (s : App Key Text) → Pool rt laws s → Pool rt laws (sign_out rt s)
  unfolding sign_out
  sign_out-Pool s p =
      holds _ (leave-IsPool s.active s.accounts s.items (held rt (IsPool rt.json) s p).0)

  other-IsActive :
      (id : String) (active : Option String) (accounts : List AccountSession)
      → is_this id active ≡ false
      → IsActive active accounts
      → IsActive active (without id accounts)
  other-IsActive id none accounts h e = rw e refl
  other-IsActive id (some a) accounts h e = rw (any-without a id accounts, h) e

  pub remove_account-Pool :
      (id : String) (s : App Key Text) → Pool rt laws s → Pool rt laws (remove_account rt id s)
  unfolding remove_account save_active_account_id clear_workspaces
  remove_account-Pool id s p =
      let k = held rt (IsPool rt.json) s p in
      let rest : List AccountSession = without id s.accounts in
      let d : Distinct rest = without-Distinct id s.accounts k.0 in
      let w : List (String × Text) =
        map_delete id (save_accounts rt.json rest s.items).workspaces in
      elim (Bool-cases (is_this id s.active)) [
        | inl e ↦ rw e (holds _ (saved-Pool rest s.items w (truthy (first_id rest)) d))
        | inr e ↦ rw e (
            holds _ (
              d,
              (saved-Pool rest s.items w (save_accounts rt.json rest s.items).active_account d).1,
              other-IsActive id s.active s.accounts e k.2,
            ))
      ]

-- ===== src/Accounts/Changes.antt =====
-- What a sign-in, a sign-out, a switch, a removal and a rejected restore make of the account pool.
use secure_collab_app.Prelude.{
  ℕ, ◌+◌, ◌≡◌, refl, ◌∙◌, true, String, List, [], ◌∷◌, ◌++◌, Option, some, none,
}
use secure_collab_app.Exec.{Result, ok, err, Exec, pure, throw, recover, continue, ◌>>=◌, ◌>>◌}
use secure_collab_app.AtRest.Keys.{
  AtRestKeys, encrypt_string, generate_data_key, derive_store_passphrase_from_data_key,
}
use secure_collab_app.Accounts.State.{AccountSession, Session, Runtime, App, get, truthy}
use secure_collab_app.Accounts.Storage.{
  save_accounts, save_active_account_id, set_active, find_account, without,
}
use secure_collab_app.Accounts.Restore.{listed_rooms, set_error}
use secure_collab_app.Accounts.SignIn.{
  merged, plain_entry, sealed_entry, add_entry, entry_for, user_or_hint, complete_sign_in, enter,
  reporting, sign_in, sign_up, trimmed,
}
use secure_collab_app.Accounts.Pool.{KeepsPool, load_accounts-save, add-Distinct, add-IsActive}
use secure_collab_app.Accounts.Keeps.{
  Holds, holds, held, Keeps, continue-Holds, continue-Holds_of, recover-Holds,
}
use secure_collab_app.Accounts.Keeps.Recovery.{ensure_history_access-Keeps}
use secure_collab_app.Accounts.Keeps.Restore.{listed_rooms-Keeps, set_workspaces-Keeps}
use secure_collab_app.Accounts.Stored.{IsPool, IsPool-Stable, load_accounts-with}

merged-user :
    (a : AccountSession) (previous : Option AccountSession)
    → (merged a previous).user_id ≡ a.user_id
merged-user a none = refl
merged-user a (some previous) = refl

module _ {Key Text : Type 0} (rt : Runtime Key Text) (laws : KeepsPool rt.json) where
  abbrev pub Pool : App Key Text → Type 0
  Pool s = Holds rt (IsPool rt.json) s

  add_entry-Pool :
      (a : AccountSession) (uid : String) (s : App Key Text)
      → a.user_id ≡ uid
      → Pool s
      → Pool (set_active (some uid) (add_entry rt a s)).1
  unfolding set_active save_active_account_id
  add_entry-Pool a uid s e p =
      let entry : AccountSession = merged a (find_account a.user_id s.accounts) in
      let accounts : List AccountSession = without a.user_id s.accounts ++ entry ∷ [] in
      let h = held rt (IsPool rt.json) s p in
      let user : entry.user_id ≡ a.user_id = merged-user a (find_account a.user_id s.accounts) in
      holds _ (
        add-Distinct s.accounts entry a.user_id user h.0,
        load_accounts-with rt.json (save_accounts rt.json accounts s.items)
              (save_accounts rt.json accounts s.items).workspaces (truthy (some uid))
            ∙ load_accounts-save rt.json laws accounts s.items,
        add-IsActive (without a.user_id s.accounts) entry uid (user ∙ e),
      )

  entry_for-user :
      (ms : Session) (uid homeserver username : String) (keys : Option (AtRestKeys Key)) (seed : ℕ)
      (s : App Key Text) (entry : AccountSession)
      → (entry_for rt ms uid homeserver username keys seed s).0 ≡ ok entry
      → entry.user_id ≡ uid
  entry_for-user ms uid homeserver username none seed s entry e = cc
  entry_for-user ms uid homeserver username (some keys) seed s entry e =
      encrypted (encrypt_string rt.crypto keys.token_key seed ms.session_data) e
    where
      encrypted :
          (r : Result String)
          → (continue r
              (λ secrets. get >>= λ t. pure (
                sealed_entry
                  (plain_entry homeserver uid username ms.session_data
                    (rt.json.store_name_of ms.session_data))
                  t.custody
                  secrets))
              s).0
            ≡ ok entry
          → entry.user_id ≡ uid
      encrypted (ok secrets) e = cc
      encrypted (err x) e = cc

  entry_for-Keeps :
      (ms : Session) (uid homeserver username : String) (keys : Option (AtRestKeys Key)) (seed : ℕ)
      → Keeps rt (IsPool rt.json) (entry_for rt ms uid homeserver username keys seed)
  entry_for-Keeps ms uid homeserver username none seed s p = p
  entry_for-Keeps ms uid homeserver username (some keys) seed s p =
      continue-Holds rt (IsPool rt.json)
        (encrypt_string rt.crypto keys.token_key seed ms.session_data) _ s p (λ secrets. p)

  pub complete_sign_in-Keeps :
      (ms : Session) (homeserver hint : String) (seed : ℕ)
      → Keeps rt (IsPool rt.json) (complete_sign_in rt ms homeserver hint seed)
  unfolding complete_sign_in
  complete_sign_in-Keeps ms homeserver hint seed s p =
      let uid = user_or_hint rt ms.user_id hint in
      let r = entry_for rt ms uid homeserver hint s.at_rest_keys seed s in
      let q = entry_for-Keeps ms uid homeserver hint s.at_rest_keys seed s p in
      continue-Holds_of rt (IsPool rt.json) r.0 _ r.1 q λ entry made.
        let added = (set_active (some uid) (add_entry rt entry r.1)).1 in
        let k =
          add_entry-Pool entry uid r.1
            (entry_for-user ms uid homeserver hint s.at_rest_keys seed s entry made) q in
        let t : App Key Text = record added { session = some ms } in
        let kt : Pool t = holds t (held rt (IsPool rt.json) added k) in
        let listed = listed_rooms rt ms t in
        let kl = listed_rooms-Keeps rt (IsPool rt.json) (IsPool-Stable rt laws) ms t kt in
        continue-Holds rt (IsPool rt.json) listed.0 _ listed.1 kl λ entries.
          ensure_history_access-Keeps rt (IsPool rt.json) (IsPool-Stable rt laws) ms (seed + 1) _ (
            set_workspaces-Keeps rt (IsPool rt.json) (IsPool-Stable rt laws) uid entries listed.1
              kl)

  reporting-Keeps :
      (m : Exec (App Key Text) (Unit {0}))
      → Keeps rt (IsPool rt.json) m
      → Keeps rt (IsPool rt.json) (reporting rt m)
  reporting-Keeps m h s p =
      let r = m s in
      let q = h s p in
      let k : Pool (recover r.0 (λ e. set_error rt (some e) >> throw e) r.1).1 =
        recover-Holds rt (IsPool rt.json) r.0 _ r.1 q
          (λ e. holds _ (held rt (IsPool rt.json) r.1 q)) in
      holds _ (held rt (IsPool rt.json) _ k)

  enter-Keeps :
      (build : String → Result Session) (homeserver user : String) (seed : ℕ)
      → Keeps rt (IsPool rt.json) (enter rt build homeserver user seed)
  enter-Keeps build homeserver user seed s p =
      let data_key = generate_data_key rt.crypto seed in
      let t : App Key Text = record s { data_key = some data_key } in
      let q : Pool t = holds t (held rt (IsPool rt.json) s p) in
      continue-Holds rt (IsPool rt.json) (derive_store_passphrase_from_data_key rt.crypto data_key)
        _ t q
        λ passphrase. continue-Holds rt (IsPool rt.json) (build passphrase) _ t q λ ms.
          continue-Holds rt (IsPool rt.json) ms.initial_sync _ t q
            λ u. complete_sign_in-Keeps ms homeserver user (seed + 1) t q

  pub sign_in-Keeps :
      (homeserver user password : String) (seed : ℕ)
      → Keeps rt (IsPool rt.json) (sign_in rt homeserver user password seed)
  unfolding sign_in
  sign_in-Keeps homeserver user password seed s p =
      reporting-Keeps (enter rt (rt.login homeserver user password) homeserver user seed)
        (enter-Keeps (rt.login homeserver user password) homeserver user seed) _
        (holds (record s { loading = true; error = none }) (held rt (IsPool rt.json) s p))

  pub sign_up-Keeps :
      (homeserver user password : String) (token : Option String) (seed : ℕ)
      → Keeps rt (IsPool rt.json) (sign_up rt homeserver user password token seed)
  unfolding sign_up
  sign_up-Keeps homeserver user password token seed s p =
      let build = λ (passphrase : String).
        rt.register homeserver user password passphrase (trimmed rt token) in
      reporting-Keeps (enter rt build homeserver user seed) (enter-Keeps build homeserver user seed)
        _ (holds (record s { loading = true; error = none }) (held rt (IsPool rt.json) s p))

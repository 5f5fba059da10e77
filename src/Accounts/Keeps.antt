-- ===== src/Accounts/Keeps.antt =====
-- What the sealing of keys, the bootstrap of recovery and a list of rooms keep: a property of the pool,
-- the active account and the stored items that the sealing of an entry and a save of workspaces keep.
pub mod Recovery
pub mod Restore
pub mod Workspaces
use secure_collab_app.Prelude.{
  ℕ, zero, suc, ◌+◌, ◌≡◌, refl, Bool, true, false, not, ◌&&◌, ◌==◌, String, List, [], ◌∷◌, Option,
  some, none, if◌then◌else◌, is_empty, Bool-cases, inl, inr,
}
use secure_collab_app.Exec.{
  Result, ok, err, Exec, pure, throw, lift, attempt, recover, continue, ◌>>=◌, ◌>>◌,
}
use secure_collab_app.AtRest.Keys.{
  AtRestKeys, encrypt_string, wrap_data_key, derive_at_rest_keys_from_data_key,
}
use secure_collab_app.AtRest.DeviceKey.{KeyDb, get_or_create_device_key}
use secure_collab_app.Accounts.State.{
  Custody, AccountSession, WorkspaceEntry, Session, RecoveryPrompt, Items, Runtime, App, update,
  get, swallow, on_device, truthy,
}
use secure_collab_app.Accounts.Storage.{
  patch_account, save_accounts, load_accounts, save_workspaces, set_accounts, set_workspaces,
  parse_workspace_rooms,
}
use secure_collab_app.Accounts.Sealing.{
  with_wraps, sealed_blob, session_blob, write_wraps, seal_with, seal_if, seal_data_key,
  session_user, publish_keys,
}
use secure_collab_app.Accounts.Recovery.{
  bootstrap_from, bootstrap_recovery, check_legacy, by_status, ensure_history_access,
  settled_status, submit_to, submit_recovery_key, recovery_bootstrap_delays,
}
use secure_collab_app.Accounts.Restore.{listed_rooms, set_listed, refresh_list}

module _ {Key Text : Type 0} (rt : Runtime Key Text)
    (P : List AccountSession → Option String → Items Text → Type 0) where
  pub data Holds : App Key Text → Type 0 where
    holds : (s : App Key Text) → P s.accounts s.active s.items → Holds s

  pub held : (s : App Key Text) → Holds s → P s.accounts s.active s.items
  held s (holds _ p) = p

  -- What holds before a step holds after it, whether or not the step throws.
  abbrev pub Keeps : {A : Type 0} → Exec (App Key Text) A → Type 0
  Keeps m = (s : App Key Text) → Holds s → Holds (m s).1

  -- What follows a result is kept to if what follows it at this state is.
  pub continue-Holds :
      {A B : Type 0} (r : Result A) (f : A → Exec (App Key Text) B) (s : App Key Text)
      → Holds s
      → ((a : A) → Holds (f a s).1)
      → Holds (continue r f s).1
  continue-Holds (ok a) f s p h = h a
  continue-Holds (err e) f s p h = p

  -- The same, with the result told to what follows it.
  pub continue-Holds_of :
      {A B : Type 0} (r : Result A) (f : A → Exec (App Key Text) B) (s : App Key Text)
      → Holds s
      → ((a : A) → r ≡ ok a → Holds (f a s).1)
      → Holds (continue r f s).1
  continue-Holds_of (ok a) f s p h = h a refl
  continue-Holds_of (err e) f s p h = p

  pub recover-Holds :
      {A : Type 0} (r : Result A) (handler : String → Exec (App Key Text) A) (s : App Key Text)
      → Holds s
      → ((e : String) → Holds (handler e s).1)
      → Holds (recover r handler s).1
  recover-Holds (ok a) handler s p h = p
  recover-Holds (err e) handler s p h = h e

  pub if-Holds :
      {A : Type 0} (b : Bool) (m n : Result A × App Key Text)
      → Holds m.1
      → Holds n.1
      → Holds (if b then m else n).1
  if-Holds true m n h k = h
  if-Holds false m n h k = k

  pub choose-Holds :
      {A : Type 0} (b : Bool) (m n : Exec (App Key Text) A) (s : App Key Text)
      → Holds (m s).1
      → Holds (n s).1
      → Holds ((if b then m else n) s).1
  choose-Holds true m n s h k = h
  choose-Holds false m n s h k = k

  pub record Stable : Type 0 where
    pub seals :
        (custody : Custody) (data_key_wrap device_key_wrap : String) (secrets : Option String)
        (uid : String) (accounts : List AccountSession) (active : Option String)
        (items : Items Text)
        → P accounts active items
        → P
            (patch_account uid (with_wraps custody data_key_wrap device_key_wrap secrets) accounts)
            active
            (save_accounts rt.json
              (patch_account uid
                (with_wraps custody data_key_wrap device_key_wrap secrets)
                accounts)
              items)
    pub loads :
        (accounts : List AccountSession) (active : Option String) (items : Items Text)
        → P accounts active items
        → P accounts active (load_accounts rt.json items).1
    pub rooms :
        (id : String) (entries : List WorkspaceEntry) (accounts : List AccountSession)
        (active : Option String) (items : Items Text)
        → P accounts active items
        → P accounts active (save_workspaces rt.json id entries items)

module _ {Key Text : Type 0} (rt : Runtime Key Text)
    (P : List AccountSession → Option String → Items Text → Type 0) (st : Stable rt P) where
  sealed_blob-Keeps :
      (keys : AtRestKeys Key) (seed : ℕ) (blob : Option String)
      → Keeps rt P (sealed_blob rt keys seed blob)
  sealed_blob-Keeps keys seed none s p = p
  sealed_blob-Keeps keys seed (some blob) s p =
      continue-Holds rt P (encrypt_string rt.crypto keys.token_key seed blob) _ s p (λ secrets. p)

  set_wraps-Keeps :
      (custody : Custody) (dw kw uid : String) (secrets : Option String)
      → Keeps rt P (set_accounts rt (patch_account uid (with_wraps custody dw kw secrets)))
  unfolding set_accounts
  set_wraps-Keeps custody dw kw uid secrets s p =
      holds _ (st.seals custody dw kw secrets uid s.accounts s.active s.items (held rt P s p))

  write_wraps-Keeps :
      (keys : AtRestKeys Key) (seed : ℕ) (dw kw : String) (uid : Option String)
      → Keeps rt P (write_wraps rt keys seed dw kw uid)
  write_wraps-Keeps keys seed dw kw none s p = p
  write_wraps-Keeps keys seed dw kw (some uid) s p =
      let r = sealed_blob rt keys seed (session_blob rt s.session) s in
      let q = sealed_blob-Keeps keys seed (session_blob rt s.session) s p in
      continue-Holds rt P r.0 _ r.1 q (λ secrets. set_wraps-Keeps s.custody dw kw uid secrets r.1 q)

  seal_with-Keeps :
      (secret : String) (seed : ℕ) (data_key : String)
      → Keeps rt P (seal_with rt secret seed data_key)
  seal_with-Keeps secret seed data_key s p =
      let h = held rt P s p in
      let created = get_or_create_device_key rt.generated_key s.device in
      let t : App Key Text = record s { device = created.1 } in
      let q : Holds rt P t = holds t h in
      continue-Holds rt P created.0 _ t q λ device_key.
        continue-Holds rt P (wrap_data_key rt.crypto secret seed data_key) _ t q λ dw.
          continue-Holds rt P (encrypt_string rt.crypto device_key (seed + 1) data_key) _ t q λ kw.
            continue-Holds rt P (derive_at_rest_keys_from_data_key rt.crypto data_key) _ t q
              λ keys. write_wraps-Keeps keys (seed + 2) dw kw (session_user s.session) _ (holds _ h)

  seal_if-Keeps :
      (secret : String) (seed : ℕ) (data_key : Option String)
      → Keeps rt P (seal_if rt secret seed data_key)
  seal_if-Keeps secret seed none s p = p
  seal_if-Keeps secret seed (some data_key) s p = seal_with-Keeps secret seed data_key s p

  pub seal_data_key-Keeps : (secret : String) (seed : ℕ) → Keeps rt P (seal_data_key rt secret seed)
  unfolding seal_data_key
  seal_data_key-Keeps secret seed s p =
      if-Holds rt P (is_empty secret) (ok tt, s) (seal_if rt secret seed (truthy s.data_key) s) p
        (seal_if-Keeps secret seed (truthy s.data_key) s p)

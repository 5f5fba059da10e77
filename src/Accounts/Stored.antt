-- ===== src/Accounts/Stored.antt =====
-- The pool that a reload of the page would find, over what is written to the browser's storage.
use secure_collab_app.Prelude.{◌≡◌, refl, ◌∙◌, String, List, [], ◌∷◌, Option, some, none}
use secure_collab_app.Accounts.State.{
  Custody, AccountSession, LegacySession, Items, Json, Runtime, truthy,
}
use secure_collab_app.Accounts.Storage.{
  present, migrate, migrated, migrated_to, pool_in, load_accounts, save_workspaces, patch_account,
  account_of,
}
use secure_collab_app.Accounts.Sealing.{with_wraps}
use secure_collab_app.Accounts.Pool.{
  Distinct, IsActive, KeepsPool, patch-Distinct, patch-IsActive, load_accounts-save,
}
use secure_collab_app.Accounts.Keeps.{Stable}

pub with_wraps-user :
    (custody : Custody) (dw kw : String) (secrets : Option String) (a : AccountSession)
    → (with_wraps custody dw kw secrets a).user_id ≡ a.user_id
with_wraps-user custody dw kw none a = refl
with_wraps-user custody dw kw (some secrets) a = refl

module _ {Text : Type 0} (json : Json Text) where
  -- The pool in the items is read from two of them.
  migrate_same : (o : Option Text) (a b : Items Text) → (migrate json o a).0 ≡ (migrate json o b).0
  migrate_same none a b = refl
  migrate_same (some t) a b = by_legacy (json.parse_legacy t)
    where
      by_blob :
          (l : LegacySession) (o : Option String)
          → (migrated_to json l o a).0 ≡ (migrated_to json l o b).0
      by_blob l none = refl
      by_blob l (some blob) = refl

      by_legacy : (o : Option LegacySession) → (migrated json o a).0 ≡ (migrated json o b).0
      by_legacy none = refl
      by_legacy (some l) = by_blob l (truthy l.matrix_session_data)

  pool_in-with :
      (o : Option Text) (items : Items Text) (w : List (String × Text)) (active : Option String)
      → (pool_in json o (record items { workspaces = w; active_account = active })).0
        ≡ (pool_in json o items).0
  pool_in-with none items w active =
      migrate_same (present json items.legacy_session)
        (record items { workspaces = w; active_account = active }) items
  pool_in-with (some t) items w active = refl

  -- The workspaces and the active account have no part in it.
  pub load_accounts-with :
      (items : Items Text) (w : List (String × Text)) (active : Option String)
      → (load_accounts json (record items { workspaces = w; active_account = active })).0
        ≡ (load_accounts json items).0
  unfolding load_accounts
  load_accounts-with items w active = pool_in-with (present json items.accounts) items w active

  module _ (laws : KeepsPool json) (items : Items Text) where
    by_legacy :
        (o : Option LegacySession)
        → (load_accounts json items).0 ≡ (migrated json o items).0
        → (load_accounts json (migrated json o items).1).0 ≡ (migrated json o items).0
    by_legacy none e = e
    by_legacy (some l) e = blob_cases (truthy l.matrix_session_data) e
      where
        blob_cases :
            (o : Option String)
            → (load_accounts json items).0 ≡ (migrated_to json l o items).0
            → (load_accounts json (migrated_to json l o items).1).0 ≡ (migrated_to json l o items).0
        blob_cases none e = e
        blob_cases (some blob) e = load_accounts-save json laws (account_of l blob ∷ []) items

    by_text :
        (o : Option Text)
        → (load_accounts json items).0 ≡ (migrate json o items).0
        → (load_accounts json (migrate json o items).1).0 ≡ (migrate json o items).0
    by_text none e = e
    by_text (some t) e = by_legacy (json.parse_legacy t) e

    by_item :
        (o : Option Text)
        → (load_accounts json items).0 ≡ (pool_in json o items).0
        → (load_accounts json (pool_in json o items).1).0 ≡ (pool_in json o items).0
    by_item none e = by_text (present json items.legacy_session) e
    by_item (some t) e = e

    -- A second load finds what the first one found, and has perhaps migrated.
    pub load_accounts-twice :
        (load_accounts json (load_accounts json items).1).0 ≡ (load_accounts json items).0
    unfolding load_accounts
    load_accounts-twice = by_item (present json items.accounts) refl

-- Each user has one entry, the pool is what a reload would find, and the active account is in it.
abbrev pub IsPool :
    {Text : Type 0} → Json Text → List AccountSession → Option String → Items Text → Type 0
IsPool json accounts active items =
    Distinct accounts × ((load_accounts json items).0 ≡ accounts) × IsActive active accounts

pub IsPool-Stable :
    {Key Text : Type 0} (rt : Runtime Key Text) → KeepsPool rt.json → Stable rt (IsPool rt.json)
unfolding save_workspaces
IsPool-Stable rt laws = record {
  seals = λ custody dw kw secrets uid accounts active items p. (
    patch-Distinct uid (with_wraps custody dw kw secrets) accounts
        (with_wraps-user custody dw kw secrets) p.0,
    load_accounts-save rt.json laws (patch_account uid (with_wraps custody dw kw secrets) accounts)
        items,
    patch-IsActive active uid (with_wraps custody dw kw secrets) accounts
        (with_wraps-user custody dw kw secrets) p.2,
  );
  loads = λ accounts active items p. (p.0, load_accounts-twice rt.json laws items ∙ p.1, p.2);
  rooms = λ id entries accounts active items p.
      (p.0, load_accounts-with rt.json items _ items.active_account ∙ p.1, p.2);
}

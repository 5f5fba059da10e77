-- ===== src/Accounts/Merged.antt =====
-- What a sign-in makes of an entry that the pool has already, in ui/src/hooks/useAuth.ts.
use secure_collab_app.Prelude.{
  ◌≡◌, refl, true, ◌==◌, String, List, [], ◌∷◌, ◌++◌, Option, some, none, Bool-cases, inl, inr,
  eq_refl,
}
use secure_collab_app.Accounts.State.{AccountSession, Runtime, App}
use secure_collab_app.Accounts.Storage.{find_account, without}
use secure_collab_app.Accounts.SignIn.{merged, add_entry}

find_account-without :
    (uid : String) (accounts : List AccountSession) (a : AccountSession)
    → (a.user_id == uid) ≡ true
    → find_account uid (without uid accounts ++ a ∷ []) ≡ some a
find_account-without uid [] a h = rw h refl
find_account-without uid (b ∷ rest) a h = elim (Bool-cases (b.user_id == uid)) [
  | inl e ↦ rw e (find_account-without uid rest a h)
  | inr e ↦ rw (e, e) (find_account-without uid rest a h)
]

merged-user :
    (a : AccountSession) (previous : Option AccountSession)
    → (merged a previous).user_id ≡ a.user_id
merged-user a none = refl
merged-user a (some previous) = refl

-- After a sign-in the pool's entry of the user is the new one, with the flag of a saved key, the
-- passkey's wrap and the store's name of the entry before where the new one has none.
find_account-add_entry :
    {Key Text : Type 0} (rt : Runtime Key Text) (a : AccountSession) (s : App Key Text)
    → find_account a.user_id (add_entry rt a s).accounts
      ≡ some (merged a (find_account a.user_id s.accounts))
find_account-add_entry rt a s =
    let previous = find_account a.user_id s.accounts in
    find_account-without a.user_id s.accounts (merged a previous)
      (rw (merged-user a previous) (eq_refl a.user_id))

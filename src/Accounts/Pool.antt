-- ===== src/Accounts/Pool.antt =====
-- The account pool: that each user has one entry, that what is stored is what is shown, and that the
-- active account is one of the pool.
use secure_collab_app.Prelude.{
  ◌≡◌, refl, sym, ◌∙◌, true, false, ◌||◌, ◌==◌, String, List, [], ◌∷◌, ◌++◌, Option, some, none,
  if◌then◌else◌, any, Bool-cases, inl, inr, eq_iff, eq_refl, arith,
}
use mathlib.Core.Path.{subst}
use secure_collab_app.Accounts.State.{AccountSession, Items, Json}
use secure_collab_app.Accounts.Storage.{
  has_user, patch_account, without, first_id, load_accounts, save_accounts,
}

abbrev pub Distinct : List AccountSession → Type 0
Distinct [] = Unit
Distinct (a ∷ rest) = (any (has_user a.user_id) rest ≡ false) × Distinct rest

-- The active account is in the pool, or there is none in it.
abbrev pub IsActive : Option String → List AccountSession → Type 0
IsActive none accounts = accounts ≡ []
IsActive (some id) accounts = any (has_user id) accounts ≡ true

-- What JSON gives back of a pool.
pub record KeepsPool {Text : Type 0} (json : Json Text) : Type 0 where
  pub truthy :
      (accounts : List AccountSession) → json.truthy (json.stringify_accounts accounts) ≡ true
  pub parses :
      (accounts : List AccountSession)
      → json.parse_accounts (json.stringify_accounts accounts) ≡ some accounts

pub any-patch :
    (id uid : String) (f : AccountSession → AccountSession) (accounts : List AccountSession)
    → ((a : AccountSession) → (f a).user_id ≡ a.user_id)
    → any (has_user id) (patch_account uid f accounts) ≡ any (has_user id) accounts
unfolding patch_account
any-patch id uid f [] h = refl
any-patch id uid f (a ∷ rest) h = elim (Bool-cases (a.user_id == uid)) [
  | inl e ↦ rw (e, h a, any-patch id uid f rest h) refl
  | inr e ↦ rw (e, any-patch id uid f rest h) refl
]

pub patch-Distinct :
    (uid : String) (f : AccountSession → AccountSession) (accounts : List AccountSession)
    → ((a : AccountSession) → (f a).user_id ≡ a.user_id)
    → Distinct accounts
    → Distinct (patch_account uid f accounts)
unfolding patch_account
patch-Distinct uid f [] h d = tt
patch-Distinct uid f (a ∷ rest) h d = elim (Bool-cases (a.user_id == uid)) [
  | inl e ↦ rw (e, h a, any-patch a.user_id uid f rest h) (d.0, patch-Distinct uid f rest h d.1)
  | inr e ↦ rw (e, any-patch a.user_id uid f rest h) (d.0, patch-Distinct uid f rest h d.1)
]

pub patch-IsActive :
    (active : Option String) (uid : String) (f : AccountSession → AccountSession)
    (accounts : List AccountSession)
    → ((a : AccountSession) → (f a).user_id ≡ a.user_id)
    → IsActive active accounts
    → IsActive active (patch_account uid f accounts)
unfolding patch_account
patch-IsActive none uid f [] h e = refl
patch-IsActive none uid f (a ∷ rest) h e = cc
patch-IsActive (some id) uid f accounts h e = any-patch id uid f accounts h ∙ e

pub any-without :
    (id uid : String) (accounts : List AccountSession)
    → any (has_user id) (without uid accounts)
      ≡ (if uid == id then false else any (has_user id) accounts)
any-without id uid [] = ground arith
any-without id uid (a ∷ rest) =
    ground
      (arith, eq_iff a.user_id uid, eq_iff a.user_id id, eq_iff uid id, any-without id uid rest)

any-without_absent :
    (id uid : String) (accounts : List AccountSession)
    → any (has_user id) accounts ≡ false
    → any (has_user id) (without uid accounts) ≡ false
any-without_absent id uid accounts h = ground (arith, any-without id uid accounts)

pub without-Distinct :
    (uid : String) (accounts : List AccountSession)
    → Distinct accounts
    → Distinct (without uid accounts)
without-Distinct uid [] d = tt
without-Distinct uid (a ∷ rest) d = elim (Bool-cases (a.user_id == uid)) [
  | inl e ↦ rw e (without-Distinct uid rest d.1)
  | inr e ↦ rw e (any-without_absent a.user_id uid rest d.0, without-Distinct uid rest d.1)
]

any-append :
    (id : String) (accounts : List AccountSession) (a : AccountSession)
    → any (has_user id) (accounts ++ a ∷ []) ≡ (any (has_user id) accounts || a.user_id == id)
any-append id [] a = ground arith
any-append id (b ∷ rest) a = ground (arith, any-append id rest a)

append-Distinct :
    (accounts : List AccountSession) (a : AccountSession)
    → Distinct accounts
    → any (has_user a.user_id) accounts ≡ false
    → Distinct (accounts ++ a ∷ [])
append-Distinct [] a d h = (refl, tt)
append-Distinct (b ∷ rest) a d h = (
  ground
      (arith, any-append b.user_id rest a, eq_iff a.user_id b.user_id, eq_iff b.user_id a.user_id),
  append-Distinct rest a d.1 (ground arith),
)

not_in-without :
    (id : String) (accounts : List AccountSession) → any (has_user id) (without id accounts) ≡ false
not_in-without id accounts = ground (arith, any-without id id accounts, eq_refl id)

pub add-Distinct :
    (accounts : List AccountSession) (a : AccountSession) (id : String)
    → a.user_id ≡ id
    → Distinct accounts
    → Distinct (without id accounts ++ a ∷ [])
add-Distinct accounts a id e d =
    append-Distinct (without id accounts) a (without-Distinct id accounts d) (
      subst (λ u. any (has_user u) (without id accounts) ≡ false) (sym e)
        (not_in-without id accounts))

pub add-IsActive :
    (accounts : List AccountSession) (a : AccountSession) (id : String)
    → a.user_id ≡ id
    → IsActive (some id) (accounts ++ a ∷ [])
add-IsActive accounts a id e = ground (arith, any-append id accounts a, eq_iff a.user_id id)

pub first-IsActive : (accounts : List AccountSession) → IsActive (first_id accounts) accounts
first-IsActive [] = refl
first-IsActive (a ∷ rest) = rw (eq_refl a.user_id) refl

module _ {Text : Type 0} (json : Json Text) (laws : KeepsPool json) where
  pub load_accounts-save :
      (accounts : List AccountSession) (items : Items Text)
      → (load_accounts json (save_accounts json accounts items)).0 ≡ accounts
  unfolding load_accounts save_accounts
  load_accounts-save accounts items = rw (laws.truthy accounts, laws.parses accounts) refl

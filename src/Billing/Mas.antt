-- ===== src/Billing/Mas.antt =====
-- The MAS admin API as the billing worker calls it (billing/src/index.ts, lines 59 to 170).
pub mod Sends
use secure_collab_app.Prelude.{
  ℕ, zero, suc, ◌+◌, Bool, true, false, String, Option, none, some, List, [], ◌∷◌, ◌++◌, eqb,
  if◌then◌else◌, get_last?,
}
use secure_collab_app.Exec.{Result, ok, err, Exec, pure, throw, ◌>>=◌, ◌>>◌}
use secure_collab_app.Billing.Services.{
  MasUser, Reply, body, refused, failed, Services, World, ask, send, set_lock, unlink, deactivate,
}

-- `if (!res.ok) throw new Error(what)`, then the JSON.
abbrev or_throw : {A : Type 0} → String → Reply A → Result A
or_throw what (body a) = ok a
or_throw what (refused status) = err what
or_throw what (failed e) = err e

-- `if (res.status === 404) return null`
abbrev or_null : {A : Type 0} → String → Reply A → Result (Option A)
or_null what (body a) = ok (some a)
or_null what (refused status) = if eqb status 404 then ok none else err what
or_null what (failed e) = err e

module _ {W A : Type 0} where
  -- A request whose answer is read by `read`.
  abbrev fetch_read : {B : Type 0} → (Reply A → Result B) → (W → Reply A × W) → Exec (World W) B
  fetch_read read f w = let r = ask f w in (read r.0, r.1)

module _ {W : Type 0} (svc : Services W) where
  unfoldable pub mas_admin_token : Exec (World W) String
  mas_admin_token = fetch_read (or_throw "MAS token mint failed") svc.post_token

  unfoldable pub mas_get_user : String → String → Exec (World W) (Option MasUser)
  mas_get_user tok username =
      fetch_read (or_null "MAS user lookup failed") (svc.get_user_by_name tok username)

  abbrev last_id : String → List MasUser → String
  last_id after batch = elim (get_last? batch) [ none ↦ after | some u ↦ u.id ]

  -- The loop of `masListUsers`: the pages left, the id to go on after, and the users so far.
  list_users_from : String → ℕ → String → List MasUser → Exec (World W) (List MasUser)
  list_users_from tok zero after users = pure users
  list_users_from tok (suc pages) after users = do
    batch ← fetch_read (or_throw "MAS user list failed") (svc.get_users_page tok after)
    elim batch [
      | [] ↦ pure users
      | u ∷ us ↦ list_users_from tok pages (last_id after (u ∷ us)) (users ++ u ∷ us)
    ]

  unfoldable pub mas_list_users : String → Exec (World W) (List MasUser)
  unfolding list_users_from
  mas_list_users tok = list_users_from tok 100 "" []

  unfoldable pub mas_set_lock_by_id : String → String → Bool → Exec (World W) (Unit {0})
  mas_set_lock_by_id tok id lock w =
      let r = send (set_lock id lock) (svc.post_lock tok id lock) w in
      (or_throw (if lock then "MAS lock failed" else "MAS unlock failed") r.0, r.1)

  abbrev count_removed : Reply (Unit {0}) → ℕ → Result ℕ
  count_removed (body _) removed = ok (removed + 1)
  count_removed (refused status) removed = ok removed
  count_removed (failed e) removed = err e

  -- The loop of `masUnlinkUpstream`; a link that MAS refuses to delete is passed over.
  unlink_all : String → List String → ℕ → Exec (World W) ℕ
  unlink_all tok [] removed = pure removed
  unlink_all tok (link ∷ links) removed = do
    n ← λ w.
        let r = send (unlink link) (svc.delete_link tok link) w in (count_removed r.0 removed, r.1)
    unlink_all tok links n

  unfoldable pub mas_unlink_upstream : String → String → Exec (World W) ℕ
  unfolding unlink_all
  mas_unlink_upstream tok user_id = do
    links ← fetch_read (or_throw "MAS upstream-link list failed") (svc.get_links tok user_id)
    unlink_all tok links 0

  unfoldable pub mas_deactivate_by_id : String → String → Exec (World W) (Unit {0})
  mas_deactivate_by_id tok id w =
      let r = send (deactivate id) (svc.post_deactivate tok id) w in
      (or_throw "MAS deactivate failed" r.0, r.1)

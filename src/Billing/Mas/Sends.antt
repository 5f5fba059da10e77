-- ===== src/Billing/Mas/Sends.antt =====
-- What each call of the MAS admin API (billing/src/index.ts, lines 59 to 170) sends.
use secure_collab_app.Prelude.{
  ℕ, zero, suc, ◌≡◌, Bool, String, List, [], ◌∷◌, ◌++◌, map, if◌then◌else◌,
}
use secure_collab_app.Exec.{pure}
use secure_collab_app.Billing.Services.{
  MasUser, body, ask, Services, World, set_lock, unlink, deactivate,
}
use secure_collab_app.Billing.Trace.{
  Outcome, Issues, Issues-pure, Issues-bind, Issues-ask, Issues-send,
}
use secure_collab_app.Billing.Mas.{
  or_throw, or_null, count_removed, mas_admin_token, mas_get_user, last_id, list_users_from,
  mas_list_users, mas_set_lock_by_id, unlink_all, mas_unlink_upstream, mas_deactivate_by_id,
}

abbrev pub Any : {A : Type 0} → A → Type 0
Any a = Unit {0}

module _ {W : Type 0} (svc : Services W) where
  pub mas_admin_token-Issues : Issues [] Any (mas_admin_token svc)
  unfolding mas_admin_token
  mas_admin_token-Issues = Issues-ask (or_throw "MAS token mint failed") svc.post_token

  pub mas_get_user-Issues : (tok name : String) → Issues [] Any (mas_get_user svc tok name)
  unfolding mas_get_user
  mas_get_user-Issues tok name =
      Issues-ask (or_null "MAS user lookup failed") (svc.get_user_by_name tok name)

  list_users_from-Issues :
      (tok : String) (pages : ℕ) (after : String) (users : List MasUser)
      → Issues [] Any (list_users_from svc tok pages after users)
  unfolding list_users_from
  list_users_from-Issues tok zero after users = Issues-pure users tt
  list_users_from-Issues tok (suc pages) after users =
      Issues-bind Any [] [] _ (λ batch _. on_batch (list_users_from-Issues tok pages) batch) _
        (Issues-ask (or_throw "MAS user list failed") (svc.get_users_page tok after))
    where
      on_batch :
          ((after : String) (users : List MasUser)
            → Issues [] Any (list_users_from svc tok pages after users))
          → (batch : List MasUser)
          → Issues {W = W} [] Any (elim batch [
            | [] ↦ pure users
            | u ∷ us ↦ list_users_from svc tok pages (last_id svc after (u ∷ us)) (users ++ u ∷ us)
          ])
      on_batch ih [] = Issues-pure users tt
      on_batch ih (u ∷ us) = ih _ _

  pub mas_list_users-Issues : (tok : String) → Issues [] Any (mas_list_users svc tok)
  unfolding mas_list_users
  mas_list_users-Issues tok = list_users_from-Issues tok 100 "" []

  pub mas_set_lock_by_id-Issues :
      (tok id : String) (lock : Bool)
      → Issues (set_lock id lock ∷ []) Any (mas_set_lock_by_id svc tok id lock)
  unfolding mas_set_lock_by_id
  mas_set_lock_by_id-Issues tok id lock =
      Issues-send (set_lock id lock)
        (or_throw (if lock then "MAS lock failed" else "MAS unlock failed"))
        (svc.post_lock tok id lock)

  pub mas_deactivate_by_id-Issues :
      (tok id : String) → Issues (deactivate id ∷ []) Any (mas_deactivate_by_id svc tok id)
  unfolding mas_deactivate_by_id
  mas_deactivate_by_id-Issues tok id =
      Issues-send (deactivate id) (or_throw "MAS deactivate failed") (svc.post_deactivate tok id)

  unlink_all-Issues :
      (tok : String) (links : List String) (n : ℕ)
      → Issues (map unlink links) Any (unlink_all svc tok links n)
  unfolding unlink_all
  unlink_all-Issues tok [] n = Issues-pure n tt
  unlink_all-Issues tok (link ∷ links) n =
      Issues-bind Any (unlink link ∷ []) (map unlink links) _ (λ k _. unlink_all-Issues tok links k)
        _ (Issues-send (unlink link) (λ r. count_removed svc r n) (svc.delete_link tok link))

  -- The unlinking of a user whose links are read.
  pub mas_unlink_upstream-Outcome :
      (tok user_id : String) (links : List String) (w : World W)
      → (svc.get_links tok user_id w.outside).0 ≡ body links
      → Outcome w.sent
          (map unlink links)
          Any
          (mas_unlink_upstream svc tok user_id w).0
          (mas_unlink_upstream svc tok user_id w).1.sent
  unfolding mas_unlink_upstream
  mas_unlink_upstream-Outcome tok user_id links w e =
      rw e ((unlink_all-Issues tok links 0).at (ask (svc.get_links tok user_id) w).1)

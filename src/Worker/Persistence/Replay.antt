-- ===== src/Worker/Persistence/Replay.antt =====
-- What is left of the outbox when a workspace has been opened (ui/src/worker/dispatch.ts, lines 500 to
-- 510).
use secure_collab_app.Prelude.{
  ℕ, ◌≡◌, refl, Bool, true, false, String, Option, none, some, List, [], ◌∷◌, ◌++◌, if◌then◌else◌,
  get_elem?, get_elem-set_elem, ltb, eq_refl,
}
use secure_collab_app.Exec.{ok}
use secure_collab_app.Stores.{
  Cipher, Works, clear_record-Works, save_outbox-Works, load_record, clear_record-read,
}
use secure_collab_app.Worker.Protocol.{log_line}
use secure_collab_app.Worker.State.{
  log_at, Worker, WorkspaceBuild, Persistence, StoreWrite, saves_outbox, clears_outbox,
  saves_snapshot,
}
use secure_collab_app.Worker.Persistence.{
  Disk, land, settle, persist_outbox, persist_outbox_of, same_outbox, start_write, set_persistence,
}
use secure_collab_app.Worker.Workspaces.{replay, replayed, queue_changed, on_fired}

module _ (cipher : Cipher ℕ) where
  settle-append :
      (xs ys : List StoreWrite) (d : Disk)
      → settle cipher (xs ++ ys) d ≡ settle cipher ys (settle cipher xs d)
  settle-append [] ys d = refl
  settle-append (x ∷ xs) ys d = settle-append xs ys (land cipher x d)

  settle-Works :
      (ws : List StoreWrite) (d : Disk) → Works d.outbox → Works (settle cipher ws d).outbox
  settle-Works [] d h = h
  settle-Works (saves_outbox room_id json key ∷ ws) d h =
      settle-Works ws _ (save_outbox-Works cipher room_id json key d.iv d.outbox h)
  settle-Works (clears_outbox room_id ∷ ws) d h =
      settle-Works ws _ (clear_record-Works room_id d.outbox h)
  settle-Works (saves_snapshot room_id s key ∷ ws) d h = settle-Works ws _ h

  settle-clears :
      (ws : List StoreWrite) (room_id : String) (key : Option ℕ) (d : Disk)
      → Works d.outbox
      → load_record cipher room_id key (settle cipher (ws ++ clears_outbox room_id ∷ []) d).outbox
        ≡ none
  settle-clears ws room_id key d h =
      rw (settle-append ws (clears_outbox room_id ∷ []) d)
        (clear_record-read cipher room_id key _ (settle-Works ws d h))

-- The persistence at an address has saved this queue last.
abbrev Saved : ℕ → String → List Persistence → Type 0
Saved at json ps =
    (p : Persistence) × ((get_elem? ps at ≡ some p) × (same_outbox p.last_outbox json ≡ true))

Saved-persist_outbox :
    (at : ℕ) (json : String) (p : Persistence) (w : Worker)
    → get_elem? w.persistences at ≡ some p
    → Saved at json (persist_outbox at (ok json) w).persistences
unfolding persist_outbox
Saved-persist_outbox at json p w h =
    rw (h, persist_outbox_of) (saved (same_outbox p.last_outbox json) refl)
  where
    saved :
        (b : Bool)
        → same_outbox p.last_outbox json ≡ b
        → Saved at json
            (if b
              then w
              else start_write
                  (saves_outbox p.room_id json p.key)
                  (set_persistence at (record p { last_outbox = some json }) w)).persistences
    saved true e = (p, (h, e))
    saved false e = (
      record p { last_outbox = some json },
      (
        get_elem-set_elem at (record p { last_outbox = some json }) p w.persistences h,
        eq_refl json,
      ),
    )

persist_outbox-Saved :
    (at : ℕ) (json : String) (w : Worker)
    → Saved at json w.persistences
    → persist_outbox at (ok json) w ≡ w
unfolding persist_outbox
persist_outbox-Saved at json w (p, (h, e)) = rw (h, persist_outbox_of) (rw e refl)

module _ (cipher : Cipher ℕ) (push : String → Worker → Worker) where
  log_if-same :
      (b : Bool) (w : Worker)
      → ((if b then log_at log_line w else w).persistences ≡ w.persistences)
        × ((if b then log_at log_line w else w).writes ≡ w.writes)
  log_if-same true w = (refl, refl)
  log_if-same false w = (refl, refl)

  -- Where the writes of the store land in the order in which the worker has started them, a saved
  -- outbox that is replayed with one call of the queue's callback leaves no record of the room's
  -- queue, and the worker then saves nothing for as long as the queue stays what it is.
  pub replay-forgets :
      (b : WorkspaceBuild) (at count : ℕ) (json : String) (p : Persistence) (key : Option ℕ)
      (d : Disk) (w : Worker)
      → get_elem? w.persistences at ≡ some p
      → Works d.outbox
      → let v = replay push b at (replayed count (queue_changed (ok json) ∷ [])) w in
        (load_record cipher b.room_id key (settle cipher v.writes d).outbox ≡ none)
        × (persist_outbox at (ok json) v ≡ v)
  unfolding replay on_fired
  replay-forgets b at count json p key d w h k =
      let x = on_fired push at (queue_changed (ok json)) w in
      let same = log_if-same (ltb 0 count) x in
      (
        settle-clears cipher (if ltb 0 count then log_at log_line x else x).writes b.room_id key d
            k,
        persist_outbox-Saved at json _ (rw same.0 (Saved-persist_outbox at json p w h)),
      )

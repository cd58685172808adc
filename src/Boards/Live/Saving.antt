-- ===== src/Boards/Live/Saving.antt =====
-- When a drawing reaches the database: schedulePersist, its timer and onModuleDestroy of
-- src/whiteboard/whiteboard.gateway.ts.
use workspacebridge_backend.Base.{
  ◌+◌, ◌≡◌, refl, ap, ◌∙◌, false, none, some, List, [], ◌∷◌, arith, ok, err, ◌==◌, find,
  delete_where, internal, ==_self, find-update_where_hit, find-update_where_other, find-fits,
  find-delete_where_self, find-delete_where_other, Result,
}
use workspacebridge_backend.Store.{Text, Time, Scene, Whiteboard, WhiteboardVersion, Db, Reason}
use workspacebridge_backend.Notifications.{is_board}
use workspacebridge_backend.Boards.{set_scene, persist}
use workspacebridge_backend.Boards.Versions.{LabelTexts}
use workspacebridge_backend.Boards.Versions.Restoring.{
  MayRestore, restored_db, restore_lem, restored_board,
}
use workspacebridge_backend.Boards.Live.{
  Unsaved, Live, is_unsaved, set_unsaved, schedule_persist, persist_debounce_ms, fire, restore_live,
  after_void,
}

find-set_unsaved_self :
    (p : Unsaved) (qs : List Unsaved) → find (is_unsaved p.board_id) (set_unsaved p qs) ≡ some p
unfolding find set_unsaved
find-set_unsaved_self p [] = ground (arith, ==_self p.board_id)
find-set_unsaved_self p (q ∷ qs) = ground (arith, ==_self p.board_id, find-set_unsaved_self p qs)

find-set_unsaved_other :
    (k : Text) (p : Unsaved) (qs : List Unsaved)
    → (p.board_id == k) ≡ false
    → find (is_unsaved k) (set_unsaved p qs) ≡ find (is_unsaved k) qs
unfolding find set_unsaved
find-set_unsaved_other k p [] ne = ground arith
find-set_unsaved_other k p (q ∷ qs) ne = ground (arith, find-set_unsaved_other k p qs ne)

pub persist_self :
    (k : Text) (scene : Scene) (db : Db) (b : Whiteboard)
    → find (is_board k) db.whiteboards ≡ some b
    → ((persist k scene db).0 ≡ ok tt)
      × (find (is_board k) (persist k scene db).1.whiteboards ≡ some (set_scene scene b))
unfolding persist
persist_self k scene db b e = (
  ground arith,
  ground (
    arith,
    find-update_where_hit (is_board k) (is_board k) (set_scene scene) db.whiteboards b (λ x. refl) e
        (find-fits (is_board k) db.whiteboards b e),
  ),
)

pub persist_other :
    (k j : Text) (scene : Scene) (db : Db)
    → (k == j) ≡ false
    → find (is_board j) (persist k scene db).1.whiteboards ≡ find (is_board j) db.whiteboards
unfolding persist
persist_other k j scene db ne = ground (
  arith,
  find-update_where_other (is_board j) (is_board k) (set_scene scene) db.whiteboards
      (λ x h. ground arith) (λ x h. ground arith),
)

pub persist_gone :
    (k : Text) (scene : Scene) (db : Db)
    → find (is_board k) db.whiteboards ≡ none
    → persist k scene db ≡ (err internal Reason.record_not_found, db)
unfolding persist
persist_gone k scene db e = ground arith

pub after_void_ok :
    (l : Live) (r : Result Reason Unit × Db) → r.0 ≡ ok tt → after_void l r ≡ record l { db = r.1 }
after_void_ok l (ok tt, db) e = refl
after_void_ok l (err c x, db) e = ground arith

pub fire_lem :
    (k : Text) (l : Live) (p : Unsaved)
    → find (is_unsaved k) l.pending ≡ some p
    → fire k l
      ≡ after_void
          (record l { pending = delete_where (is_unsaved k) l.pending })
          (persist k p.scene l.db)
unfolding fire
fire_lem k l p e = rw (e, fire) refl

fire_saves :
    (k : Text) (l : Live) (p : Unsaved) (b : Whiteboard)
    → find (is_unsaved k) l.pending ≡ some p
    → find (is_board k) l.db.whiteboards ≡ some b
    → fire k l ≡ record l {
      pending = delete_where (is_unsaved k) l.pending;
      db = (persist k p.scene l.db).1;
    }
fire_saves k l p b e f =
    fire_lem k l p e
    ∙ after_void_ok (record l { pending = delete_where (is_unsaved k) l.pending })
        (persist k p.scene l.db) (persist_self k p.scene l.db b f).0

-- Whatever was waiting before, the timer that follows a drawing on a board writes this drawing to the
-- board and nothing else: no other board changes, this board waits no more, the payloads of the others
-- wait on, and no rejection goes unhandled.
pub last_scene_saved :
    (k : Text) (scene : Scene) (now : Time) (l : Live) (b : Whiteboard) (j : Text)
    → find (is_board k) l.db.whiteboards ≡ some b
    → (k == j) ≡ false
    → let out = fire k (schedule_persist k scene now l) in
      (find (is_board k) out.db.whiteboards ≡ some (set_scene scene b))
      × (find (is_board j) out.db.whiteboards ≡ find (is_board j) l.db.whiteboards)
      × (find (is_unsaved k) out.pending ≡ none)
      × (find (is_unsaved j) out.pending ≡ find (is_unsaved j) l.pending)
      × (out.unhandled ≡ l.unhandled)
unfolding schedule_persist
last_scene_saved k scene now l b j e ne =
    let p : Unsaved = record { board_id = k; scene = scene; due = now + persist_debounce_ms } in
    let waits : find (is_unsaved k) (set_unsaved p l.pending) ≡ some p =
      find-set_unsaved_self p l.pending in
    rw (fire_saves k (schedule_persist k scene now l) p b waits e) (
      (persist_self k scene l.db b e).1,
      persist_other k j scene l.db ne,
      find-delete_where_self (is_unsaved k) (set_unsaved p l.pending),
      find-delete_where_other (is_unsaved j) (is_unsaved k) (set_unsaved p l.pending)
            (λ x h. ground arith)
          ∙ find-set_unsaved_other j p l.pending ne,
      refl,
    )

-- A payload that was waiting when a version was restored is written all the same: two seconds later
-- the board holds the old drawing, not the version.
pub pending_undoes_restore :
    (texts : LabelTexts) (id version_id user_id : Text) (now : Time) (l : Live)
    (v : WhiteboardVersion) (b : Whiteboard) (p : Unsaved)
    → MayRestore version_id user_id l.db v b
    → find (is_unsaved v.whiteboard_id) l.pending ≡ some p
    → let restored = restore_live texts id version_id user_id now l in
      (restored.0 ≡ ok (set_scene v.scene b))
      × (find (is_board v.whiteboard_id) restored.1.db.whiteboards ≡ some (set_scene v.scene b))
      × (find (is_board v.whiteboard_id) (fire v.whiteboard_id restored.1).db.whiteboards
          ≡ some (set_scene p.scene b))
unfolding restore_live
pending_undoes_restore texts id version_id user_id now l v b p h waits =
    let db' = restored_db texts id user_id now v b l.db in
    let back : find (is_board v.whiteboard_id) db'.whiteboards ≡ some (set_scene v.scene b) =
      restored_board texts id version_id user_id now l.db v b h in
    rw (restore_lem texts id version_id user_id now l.db v b h) (
      refl,
      back,
      ap (λ (o : Live). find (is_board v.whiteboard_id) o.db.whiteboards)
            (fire_saves v.whiteboard_id (record l { db = db' }) p (set_scene v.scene b) waits back)
          ∙ (persist_self v.whiteboard_id p.scene db' (set_scene v.scene b) back).1,
    )

-- ===== src/Boards/Versions/Restoring.antt =====
-- Restoring a version, and taking it back: src/whiteboard/whiteboard-version.service.ts.
use workspacebridge_backend.Base.{
  ◌≡◌, refl, ap, ◌∙◌, sym, subst, true, none, some, [], ◌∷◌, ◌++◌, arith, ok, Result, find,
  update_where, ==_iff, ==_self, find-fits, find-update_where_hit, find-append_new,
}
use workspacebridge_backend.Store.{
  Text, Time, Whiteboard, VersionType, WhiteboardVersion, Db, Reason, Room, Event,
}
use workspacebridge_backend.Notifications.{is_board}
use workspacebridge_backend.Boards.{
  set_scene, find_board, board_workspace, can_access_board, ensure_board_access,
}
use workspacebridge_backend.Boards.Versions.{
  LabelTexts, safety_label, is_version, find_version, restore,
}

-- The version is there, its board too, and the user reaches the board.
pub record MayRestore (version_id user_id : Text) (db : Db) (v : WhiteboardVersion) (b : Whiteboard)
    : Type 0 where
  pub version : find (is_version version_id) db.whiteboard_versions ≡ some v
  pub access : can_access_board v.whiteboard_id user_id db ≡ true
  pub board : find (is_board v.whiteboard_id) db.whiteboards ≡ some b

-- The automatic version that a restoration leaves.
abbrev pub safety_version :
    LabelTexts → Text → Text → Time → WhiteboardVersion → Whiteboard → WhiteboardVersion
safety_version texts id user_id now v b = record {
  id = id;
  whiteboard_id = b.id;
  scene = b.scene;
  label = some (safety_label texts v);
  type = VersionType.auto;
  created_by_id = user_id;
  created_at = now;
}

abbrev pub restored_db : LabelTexts → Text → Text → Time → WhiteboardVersion → Whiteboard → Db → Db
restored_db texts id user_id now v b db = record db {
  whiteboard_versions = db.whiteboard_versions ++ safety_version texts id user_id now v b ∷ [];
  whiteboards = update_where (is_board b.id) (set_scene v.scene) db.whiteboards;
  emitted =
      db.emitted ++ record { room = Room.board_room b.id; event = Event.board_restored b.id } ∷ [];
}

module _ (texts : LabelTexts) (id version_id user_id : Text) (now : Time) (db : Db)
    (v : WhiteboardVersion) (b : Whiteboard) where
  pub restore_lem :
      MayRestore version_id user_id db v b
      → restore texts id version_id user_id now db
        ≡ (ok (set_scene v.scene b), restored_db texts id user_id now v b db)
  unfolding restore find_version ensure_board_access find_board
  restore_lem h = let e = h.version in let a = h.access in let f = h.board in ground arith

  pub restored_board :
      MayRestore version_id user_id db v b
      → find (is_board v.whiteboard_id) (restored_db texts id user_id now v b db).whiteboards
        ≡ some (set_scene v.scene b)
  restored_board h =
      find-update_where_hit (is_board v.whiteboard_id) (is_board b.id) (set_scene v.scene)
        db.whiteboards b (λ x. refl) h.board (==_self b.id)

  pub still_access :
      (other : Text)
      → MayRestore version_id user_id db v b
      → can_access_board v.whiteboard_id other (restored_db texts id user_id now v b db)
        ≡ can_access_board v.whiteboard_id other db
  unfolding can_access_board board_workspace
  still_access other h = let f = h.board in ground (arith, restored_board h)

-- A restoration can be taken back: the version that it leaves, restored in turn by anyone who reaches the
-- board, gives the board the scene that it had before.
pub restore_undone :
    (texts : LabelTexts) (id next version_id user_id other : Text) (now later : Time) (db : Db)
    (v : WhiteboardVersion) (b : Whiteboard)
    → MayRestore version_id user_id db v b
    → find (is_version id) db.whiteboard_versions ≡ none
    → can_access_board v.whiteboard_id other db ≡ true
    → let once = restore texts id version_id user_id now db in
      let twice = restore texts next id other later once.1 in
      (once.0 ≡ ok (set_scene v.scene b))
      × (twice.0 ≡ ok b)
      × (find (is_board v.whiteboard_id) twice.1.whiteboards ≡ some b)
restore_undone texts id next version_id user_id other now later db v b h fresh_id access =
    let once = restored_db texts id user_id now v b db in
    let auto = safety_version texts id user_id now v b in
    let restored = set_scene v.scene b in
    let same : b.id ≡ v.whiteboard_id =
      (==_iff b.id v.whiteboard_id).0
        (find-fits (is_board v.whiteboard_id) db.whiteboards b h.board) in
    let again : MayRestore id other once auto restored = record {
      version = find-append_new (is_version id) db.whiteboard_versions auto fresh_id (==_self id);
      access =
          subst (λ k. can_access_board k other once ≡ true) (sym same)
            (still_access texts id version_id user_id now db v b other h ∙ access);
      board =
          subst (λ k. find (is_board k) once.whiteboards ≡ some restored) (sym same)
            (restored_board texts id version_id user_id now db v b h);
    } in
    let back = restore_lem texts next id other later once auto restored again in
    rw (restore_lem texts id version_id user_id now db v b h) (
      refl,
      ap (λ o. o.0) back,
      subst (λ k. find (is_board k) (restore texts next id other later once).1.whiteboards ≡ some b)
          same
          (ap (λ (o : Result Reason Whiteboard × Db). find (is_board b.id) o.1.whiteboards) back
            ∙ restored_board texts next id other later once auto restored again),
    )

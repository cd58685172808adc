-- ===== src/Boards/Access.antt =====
-- Who reaches a board, its comments and its versions: src/whiteboard/whiteboard.service.ts,
-- whiteboard-comment.service.ts and whiteboard-version.service.ts.
use workspacebridge_backend.Base.{
  ℕ, ◌≡◌, ap, ◌∙◌, true, false, ◌||◌, Option, some, List, arith, ok, err, ◌==◌, forbidden, find,
  count, select, count-delete_where_self, ◌≢◌, select-delete_where_other, subst, sym, ==_iff,
  find-fits, find-delete_where_self, find-delete_where_other, delete_where,
}
use workspacebridge_backend.Store.{
  Text, Time, Scene, Whiteboard, Workspace, WhiteboardComment, WhiteboardVersion, Db, Reason,
}
use workspacebridge_backend.Teams.Workspaces.{
  is_workspace, is_member, is_membership, remove_member, ensure_owner, get_workspace,
}
use workspacebridge_backend.Presence.{Registry}
use workspacebridge_backend.Notifications.{is_board}
use workspacebridge_backend.Boards
use workspacebridge_backend.Boards.{
  board_workspace, can_access_board, ensure_board_access, get_by_id, save, rename, duplicate,
  delete_board, start_delete, find_board,
}
use workspacebridge_backend.Boards.Comments
use workspacebridge_backend.Boards.Comments.{is_board_comment}
use workspacebridge_backend.Boards.Versions
use workspacebridge_backend.Boards.Versions.{LabelTexts, restore, find_version, is_version}

-- Who may open a board: the owner and the members of its workspace.
pub can_access_board_iff :
    (k user_id : Text) (db : Db) (b : Whiteboard) (w : Workspace)
    → find (is_board k) db.whiteboards ≡ some b
    → find (is_workspace b.workspace_id) db.workspaces ≡ some w
    → can_access_board k user_id db ≡ (w.owner_id == user_id || is_member w.id user_id db)
unfolding can_access_board board_workspace
can_access_board_iff k user_id db b w e f = ground arith

-- What is refused on a board, of which one version has the id `id`: its drawing, a new drawing, a name, a
-- copy, its comments and a new one, its versions, a new one, this one and its restoration.
pub record IsShutOut (k user_id id : Text) (db : Db) : Type 0 where
  pub drawing : get_by_id k user_id db ≡ (err forbidden Reason.access_denied, db)
  pub saving : (scene : Scene) → save k user_id scene db ≡ (err forbidden Reason.access_denied, db)
  pub naming : (text : List ℕ) → rename k user_id text db ≡ (err forbidden Reason.access_denied, db)
  pub copying :
      (new_id : Text) → duplicate new_id k user_id db ≡ (err forbidden Reason.access_denied, db)
  pub comments : Comments.list k user_id db ≡ (err forbidden Reason.access_denied, db)
  pub commenting :
      (ids : Text → Text) (online : Registry) (new_id element : Text) (text : List ℕ)
      → Comments.create ids online new_id k user_id element text db
        ≡ (err forbidden Reason.access_denied, db)
  pub versions : Versions.list k user_id db ≡ (err forbidden Reason.access_denied, db)
  pub keeping :
      (new_id : Text) (label : Option (List ℕ)) (scene : Scene) (now : Time)
      → Versions.create new_id k user_id label scene now db
        ≡ (err forbidden Reason.access_denied, db)
  pub version : Versions.get_by_id id user_id db ≡ (err forbidden Reason.access_denied, db)
  pub restoring :
      (texts : LabelTexts) (new_id : Text) (now : Time)
      → restore texts new_id id user_id now db ≡ (err forbidden Reason.access_denied, db)

outsider-IsShutOut :
    (k user_id id : Text) (db : Db) (v : WhiteboardVersion)
    → can_access_board k user_id db ≡ false
    → find (is_version id) db.whiteboard_versions ≡ some v
    → v.whiteboard_id ≡ k
    → IsShutOut k user_id id db
unfolding get_by_id save rename duplicate Comments.list Comments.create Versions.list
    Versions.create Versions.get_by_id restore find_version ensure_board_access
outsider-IsShutOut k user_id id db v out e same =
    let out' : can_access_board v.whiteboard_id user_id db ≡ false =
      ap (λ j. can_access_board j user_id db) same ∙ out in
    record {
      drawing = ground arith;
      saving = λ scene. ground arith;
      naming = λ text. ground arith;
      copying = λ new_id. ground arith;
      comments = ground arith;
      commenting = λ ids online new_id element text. ground arith;
      versions = ground arith;
      keeping = λ new_id label scene now. ground arith;
      version = ground arith;
      restoring = λ texts new_id now. ground arith;
    }

-- After the removal of a member the workspace has no such member, and the others are who they were.
removed_member :
    (w : Workspace) (m x o : Text) (db : Db)
    → find (is_workspace w.id) db.workspaces ≡ some w
    → (w.owner_id == o) ≡ true
    → is_member w.id m db ≡ true
    → (m == x) ≡ false
    → let out = remove_member w.id m o db in
      (out.0 ≡ ok tt)
      × (out.1 ≡ record db { members = delete_where (is_membership w.id m) db.members })
      × (is_member w.id m out.1 ≡ false)
      × (is_member w.id x out.1 ≡ is_member w.id x db)
unfolding remove_member ensure_owner get_workspace
removed_member w m x o db e owner there other = (
  ground arith,
  ground arith,
  ground (arith, find-delete_where_self (is_membership w.id m) db.members),
  ground (
    arith,
    find-delete_where_other (is_membership w.id x) (is_membership w.id m) db.members
        (λ y f. ground arith),
  ),
)

-- A member opens a board of the workspace, and the owner removes them. Right after that the drawing, its
-- comments and its versions are refused to them, they save, rename, copy, comment, keep and restore
-- nothing on the board, and a refusal writes nothing. Who else has access to the board keeps it.
pub removal_cuts_off :
    (k m x o id : Text) (db : Db) (b : Whiteboard) (w : Workspace) (v : WhiteboardVersion)
    → find (is_board k) db.whiteboards ≡ some b
    → find (is_workspace b.workspace_id) db.workspaces ≡ some w
    → find (is_version id) db.whiteboard_versions ≡ some v
    → v.whiteboard_id ≡ k
    → (w.owner_id == o) ≡ true
    → (w.owner_id == m) ≡ false
    → is_member w.id m db ≡ true
    → (m == x) ≡ false
    → let out = remove_member w.id m o db in
      (get_by_id k m db ≡ (ok b, db))
      × (out.0 ≡ ok tt)
      × IsShutOut k m id out.1
      × (can_access_board k x out.1 ≡ can_access_board k x db)
removal_cuts_off k m x o id db b w v eb ew ev same owner guest there other =
    let here : w.id ≡ b.workspace_id =
      (==_iff w.id b.workspace_id).0 (find-fits (is_workspace b.workspace_id) db.workspaces w ew) in
    let found : find (is_workspace w.id) db.workspaces ≡ some w =
      subst (λ j. find (is_workspace j) db.workspaces ≡ some w) (sym here) ew in
    let (done, out_is, m_gone, x_stays) = removed_member w m x o db found owner there other in
    let out = remove_member w.id m o db in
    let before = can_access_board_iff k m db b w eb ew in
    let board : find (is_board k) out.1.whiteboards ≡ some b = rw out_is eb in
    let workspace : find (is_workspace b.workspace_id) out.1.workspaces ≡ some w = rw out_is ew in
    let after = can_access_board_iff k m out.1 b w board workspace in
    let others = can_access_board_iff k x out.1 b w board workspace in
    let others_before = can_access_board_iff k x db b w eb ew in
    let kept : find (is_version id) out.1.whiteboard_versions ≡ some v = rw out_is ev in
    (
      unfold get_by_id ensure_board_access find_board in ground (arith, before),
      done,
      outsider-IsShutOut k m id out.1 v (ground (arith, after, m_gone)) kept same,
      ground (arith, others, others_before, x_stays),
    )

-- Only the owner of the workspace deletes a board; it goes with its comments and versions, and those of
-- another board stay.
pub board_deleted_by_owner :
    (k user_id other : Text) (db : Db) (b : Whiteboard) (w : Workspace)
    → find (is_board k) db.whiteboards ≡ some b
    → find (is_workspace b.workspace_id) db.workspaces ≡ some w
    → other ≢ k
    → let out = Boards.delete k user_id db in
      ((w.owner_id == user_id) ≡ false → out ≡ (err forbidden Reason.owner_only, db))
      × ((w.owner_id == user_id) ≡ true
          → (out.0 ≡ ok tt)
            × (count (is_board k) out.1.whiteboards ≡ 0)
            × (count (λ c. c.whiteboard_id == k) out.1.whiteboard_comments ≡ 0)
            × (count (λ v. v.whiteboard_id == k) out.1.whiteboard_versions ≡ 0)
            × (select (λ c. c.whiteboard_id == other) out.1.whiteboard_comments
                ≡ select (λ c. c.whiteboard_id == other) db.whiteboard_comments)
            × (select (λ v. v.whiteboard_id == other) out.1.whiteboard_versions
                ≡ select (λ v. v.whiteboard_id == other) db.whiteboard_versions))
unfolding Boards.delete start_delete board_workspace
board_deleted_by_owner k user_id other db b w e f ne = (
  (λ not_owner. ground arith),
  (λ owner. (
    ground arith,
    ground (arith, count-delete_where_self (is_board k) db.whiteboards),
    ground (
      arith,
      count-delete_where_self (λ (c : WhiteboardComment). c.whiteboard_id == k)
          db.whiteboard_comments,
    ),
    ground (
      arith,
      count-delete_where_self (λ (v : WhiteboardVersion). v.whiteboard_id == k)
          db.whiteboard_versions,
    ),
    ground (
      arith,
      select-delete_where_other (λ (c : WhiteboardComment). c.whiteboard_id == other)
          (λ c. c.whiteboard_id == k) db.whiteboard_comments (λ x h. ground arith),
    ),
    ground (
      arith,
      select-delete_where_other (λ (v : WhiteboardVersion). v.whiteboard_id == other)
          (λ v. v.whiteboard_id == k) db.whiteboard_versions (λ x h. ground arith),
    ),
  )),
)

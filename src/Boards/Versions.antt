-- ===== src/Boards/Versions.antt =====
-- Snapshots of a board: src/whiteboard/whiteboard-version.service.ts.
pub mod Restoring
use workspacebridge_backend.Base.{
  ℕ, Bool, not, ◌&&◌, Option, none, some, List, [], ◌∷◌, ◌++◌, reverse, ◌==◌, if◌then◌else◌,
  is_some, find, select, update_where, pure, gets, or_throw, ◌>>=◌, ◌>>◌, throw_if, modify,
  bad_request, forbidden, not_found,
}
use workspacebridge_backend.Store.{
  Text, Time, Scene, Whiteboard, VersionType, WhiteboardVersion, Db, Action, Reason, Room, Event,
  emit,
}
use workspacebridge_backend.Files.Names.{is_empty}
use workspacebridge_backend.Notifications.{trim, is_board}
use workspacebridge_backend.Boards.{ensure_board_access, find_board, set_scene}

abbrev pub is_version : Text → WhiteboardVersion → Bool
is_version id v = v.id == id

unfoldable pub list : Text → Text → Action (List WhiteboardVersion)
list board_id user_id = do
  ensure_board_access board_id user_id
  gets (λ db. reverse (select (λ v. v.whiteboard_id == board_id) db.whiteboard_versions))

unfoldable pub find_version : Text → Action WhiteboardVersion
find_version version_id = do
  versions ← gets (λ db. db.whiteboard_versions)
  or_throw (find (is_version version_id) versions) not_found Reason.version_not_found

unfoldable pub get_by_id : Text → Text → Action WhiteboardVersion
get_by_id version_id user_id = do
  v ← find_version version_id
  ensure_board_access v.whiteboard_id user_id
  pure v

-- `label?.trim() || null`
abbrev pub label_of : Option (List ℕ) → Option (List ℕ)
label_of none = none
label_of (some label) = if is_empty (trim label) then none else some (trim label)

abbrev pub add_version : WhiteboardVersion → Action Unit
add_version v = modify λ db. record db { whiteboard_versions = db.whiteboard_versions ++ v ∷ [] }

unfoldable pub create :
    Text → Text → Text → Option (List ℕ) → Scene → Time → Action WhiteboardVersion
create id board_id user_id label scene now = do
  ensure_board_access board_id user_id
  let v : WhiteboardVersion = record {
    id = id;
    whiteboard_id = board_id;
    scene = scene;
    label = label_of label;
    type = VersionType.manual;
    created_by_id = user_id;
    created_at = now;
  }
  add_version v
  pure v

-- The texts of the label: around the label of a version, and with its time.
pub record LabelTexts : Type 0 where
  pub before_restoring : List ℕ → List ℕ
  pub before_snapshot_from : Time → List ℕ

-- `safetyLabel`
abbrev pub safety_label : LabelTexts → WhiteboardVersion → List ℕ
safety_label texts v = elim (label_of v.label) [
  | none ↦ texts.before_snapshot_from v.created_at
  | some label ↦ texts.before_restoring label
]

-- What the board holds is kept as an automatic version, then the board takes the scene of the version.
unfoldable pub restore : LabelTexts → Text → Text → Text → Time → Action Whiteboard
restore texts id version_id user_id now = do
  v ← find_version version_id
  ensure_board_access v.whiteboard_id user_id
  current ← find_board v.whiteboard_id
  add_version (record {
    id = id;
    whiteboard_id = current.id;
    scene = current.scene;
    label = some (safety_label texts v);
    type = VersionType.auto;
    created_by_id = user_id;
    created_at = now;
  })
  modify λ db. record db {
    whiteboards = update_where (is_board current.id) (set_scene v.scene) db.whiteboards;
  }
  emit (Room.board_room current.id) (Event.board_restored current.id)
  pure (set_scene v.scene current)

-- ===== src/Boards.antt =====
-- Whiteboards: src/whiteboard/whiteboard.service.ts, with the deletion rules of prisma/schema.prisma.
pub mod Comments
pub mod Versions
pub mod Live
pub mod Access
use workspacebridge_backend.Base.{
  ℕ, Bool, true, false, not, ◌&&◌, Option, none, some, List, [], ◌∷◌, ◌++◌, map, ◌==◌,
  if◌then◌else◌, is_some, or_else, take, find, select, update_where, delete_where, pure, throw,
  gets, or_throw, ◌>>=◌, ◌>>◌, throw_if, modify, bad_request, forbidden, not_found, internal,
}
use workspacebridge_backend.Store.{
  Text, UserRole, Workspace, Scene, Whiteboard, Db, Action, Reason, Room, Event, emit,
}
use workspacebridge_backend.Teams.Workspaces.{is_workspace, is_member, lists_owned, get_workspace}
use workspacebridge_backend.Files.Names.{is_empty}
use workspacebridge_backend.Notifications.{trim, is_board}

-- The code units of 'Untitled board' and of ' (copy)'.
abbrev pub untitled_board : List ℕ
untitled_board = 85 ∷ 110 ∷ 116 ∷ 105 ∷ 116 ∷ 108 ∷ 101 ∷ 100 ∷ 32 ∷ 98 ∷ 111 ∷ 97 ∷ 114 ∷ 100 ∷ []

abbrev pub copy_suffix : List ℕ
copy_suffix = 32 ∷ 40 ∷ 99 ∷ 111 ∷ 112 ∷ 121 ∷ 41 ∷ []

-- Freelancers and admins must own the workspace, clients must belong to it.
unfoldable pub assert_workspace_access : Text → Text → UserRole → Action Unit
unfolding get_workspace
assert_workspace_access workspace_id user_id role = do
  w ← get_workspace workspace_id
  member ← gets (is_member workspace_id user_id)
  throw_if (if lists_owned role then not (w.owner_id == user_id) else not member) forbidden
      Reason.access_denied

-- The board with its workspace, which a foreign key holds.
unfoldable pub board_workspace : Text → Db → Option (Whiteboard × Workspace)
board_workspace board_id db = elim (find (is_board board_id) db.whiteboards) [
  | none ↦ none
  | some b ↦ elim (find (is_workspace b.workspace_id) db.workspaces) [
    | none ↦ none
    | some w ↦ some (b, w)
  ]
]

unfoldable pub can_access_board : Text → Text → Db → Bool
unfolding board_workspace
can_access_board board_id user_id db = elim (board_workspace board_id db) [
  | none ↦ false
  | some (b, w) ↦ if w.owner_id == user_id then true else is_member w.id user_id db
]

unfoldable pub can_access_workspace : Text → Text → Db → Bool
can_access_workspace workspace_id user_id db =
    elim (find (is_workspace workspace_id) db.workspaces) [
      | none ↦ false
      | some w ↦ if w.owner_id == user_id then true else is_member workspace_id user_id db
    ]

-- The workspace of a board, for its owner only.
unfoldable pub owned_board_workspace_id : Text → Text → Db → Option Text
unfolding board_workspace
owned_board_workspace_id board_id user_id db = elim (board_workspace board_id db) [
  | none ↦ none
  | some (b, w) ↦ if w.owner_id == user_id then some b.workspace_id else none
]

-- The 403 of the operations on one board.
unfoldable pub ensure_board_access : Text → Text → Action Unit
unfolding can_access_board
ensure_board_access board_id user_id = do
  allowed ← gets (can_access_board board_id user_id)
  throw_if (not allowed) forbidden Reason.access_denied

unfoldable pub find_board : Text → Action Whiteboard
find_board board_id = do
  boards ← gets (λ db. db.whiteboards)
  or_throw (find (is_board board_id) boards) not_found Reason.board_not_found

unfoldable pub list : Text → Text → UserRole → Action (List Whiteboard)
list workspace_id user_id role = do
  assert_workspace_access workspace_id user_id role
  gets (λ db. select (λ b. b.workspace_id == workspace_id) db.whiteboards)

abbrev pub add_board : Whiteboard → Action Unit
add_board b = modify λ db. record db { whiteboards = db.whiteboards ++ b ∷ [] }

-- `dto.name?.trim() || 'Untitled board'`
abbrev pub board_name : Option (List ℕ) → List ℕ
board_name none = untitled_board
board_name (some name) = if is_empty (trim name) then untitled_board else trim name

unfoldable pub create : Text → Text → Text → UserRole → Option (List ℕ) → Scene → Action Whiteboard
create id workspace_id user_id role name scene = do
  assert_workspace_access workspace_id user_id role
  let b : Whiteboard = record {
    id = id;
    workspace_id = workspace_id;
    name = board_name name;
    scene = scene;
  }
  add_board b
  emit (Room.boards_room workspace_id) (Event.board_created id)
  pure b

unfoldable pub get_by_id : Text → Text → Action Whiteboard
get_by_id board_id user_id = do ensure_board_access board_id user_id; find_board board_id

abbrev pub set_scene : Scene → Whiteboard → Whiteboard
set_scene scene b = record b { scene = scene }

-- `update` of a row by its id: an error of the client if there is none.
unfoldable pub persist : Text → Scene → Action Unit
persist board_id scene = do
  boards ← gets (λ db. db.whiteboards)
  throw_if (not (is_some (find (is_board board_id) boards))) internal Reason.record_not_found
  modify λ db. record db {
    whiteboards = update_where (is_board board_id) (set_scene scene) db.whiteboards;
  }

unfoldable pub save : Text → Text → Scene → Action Unit
save board_id user_id scene = do ensure_board_access board_id user_id; persist board_id scene

abbrev pub set_name : List ℕ → Whiteboard → Whiteboard
set_name name b = record b { name = name }

unfoldable pub rename : Text → Text → List ℕ → Action Unit
rename board_id user_id text = do
  ensure_board_access board_id user_id
  let name = trim text
  throw_if (is_empty name) bad_request Reason.empty_name
  boards ← gets (λ db. db.whiteboards)
  b ← or_throw (find (is_board board_id) boards) internal Reason.record_not_found
  modify λ db. record db {
    whiteboards = update_where (is_board board_id) (set_name name) db.whiteboards;
  }
  emit (Room.boards_room b.workspace_id) (Event.board_renamed board_id)

unfoldable pub duplicate : Text → Text → Text → Action Whiteboard
duplicate id board_id user_id = do
  ensure_board_access board_id user_id
  source ← find_board board_id
  let b : Whiteboard = record {
    id = id;
    workspace_id = source.workspace_id;
    name = take 100 (source.name ++ copy_suffix);
    scene = source.scene;
  }
  add_board b
  emit (Room.boards_room source.workspace_id) (Event.board_created id)
  pure b

-- A board goes with its comments and its versions (ON DELETE CASCADE).
abbrev pub delete_board : Text → Db → Db
delete_board id db = record db {
  whiteboards = delete_where (is_board id) db.whiteboards;
  whiteboard_comments = delete_where (λ c. c.whiteboard_id == id) db.whiteboard_comments;
  whiteboard_versions = delete_where (λ v. v.whiteboard_id == id) db.whiteboard_versions;
}

-- `delete` up to the end of its last await: the row has gone, and the workspace is still to be told.
unfoldable pub start_delete : Text → Text → Action Text
start_delete board_id user_id = do
  found ← gets (board_workspace board_id)
  (b, w) ← or_throw found not_found Reason.board_not_found
  throw_if (not (w.owner_id == user_id)) forbidden Reason.owner_only
  modify (delete_board board_id)
  pure w.id

unfoldable pub delete : Text → Text → Action Unit
unfolding start_delete
delete board_id user_id = do
  workspace_id ← start_delete board_id user_id
  emit (Room.boards_room workspace_id) (Event.board_deleted board_id)

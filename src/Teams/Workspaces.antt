-- ===== src/Teams/Workspaces.antt =====
-- Workspaces: src/workspace/workspace.service.ts, with the deletion rules of prisma/schema.prisma, and
-- the access check that the other services share.
pub mod Access
use workspacebridge_backend.Base.{
  ℕ, Bool, true, false, not, ◌&&◌, ◌||◌, Option, none, some, List, [], ◌∷◌, ◌++◌, map, reverse,
  ◌==◌, if◌then◌else◌, is_some, find, select, update_where, delete_where, elem, pure, throw, gets,
  or_throw, ◌>>=◌, ◌>>◌, throw_if, modify, forbidden, not_found,
}
use workspacebridge_backend.Store.{
  Text, UserRole, Workspace, Member, PrivateTask, File, Whiteboard, Db, Action, Reason,
}

abbrev pub is_workspace : Text → Workspace → Bool
is_workspace id w = w.id == id

abbrev pub is_membership : Text → Text → Member → Bool
is_membership workspace_id user_id m = m.workspace_id == workspace_id && m.user_id == user_id

abbrev pub is_member : Text → Text → Db → Bool
is_member workspace_id user_id db = is_some (find (is_membership workspace_id user_id) db.members)

-- `findUnique` of a workspace, or the 404.
unfoldable pub get_workspace : Text → Action Workspace
get_workspace id = do
  workspaces ← gets (λ db. db.workspaces)
  or_throw (find (is_workspace id) workspaces) not_found Reason.workspace_not_found

-- `ensureWorkspaceAccess`: the workspace, for its owner and its members.
unfoldable pub ensure_workspace_access : Text → Text → Action Workspace
unfolding get_workspace
ensure_workspace_access workspace_id user_id = do
  w ← get_workspace workspace_id
  member ← gets (is_member workspace_id user_id)
  throw_if (not (w.owner_id == user_id) && not member) forbidden Reason.not_member
  pure w

-- The workspace, for its owner only.
unfoldable pub ensure_owner : Text → Text → Action Workspace
unfolding get_workspace
ensure_owner workspace_id user_id = do
  w ← get_workspace workspace_id
  throw_if (not (w.owner_id == user_id)) forbidden Reason.access_denied
  pure w

unfoldable pub create_workspace : Text → Text → Text → Action Workspace
create_workspace owner_id id name = do
  let w : Workspace = record { id = id; name = name; owner_id = owner_id }
  modify λ db. record db { workspaces = db.workspaces ++ w ∷ [] }
  pure w

-- A role that lists the workspaces it owns.
abbrev pub lists_owned : UserRole → Bool
lists_owned UserRole.freelancer = true
lists_owned UserRole.admin = true
lists_owned UserRole.client = false

-- The workspaces of memberships, in their order.
unfoldable pub joined : List Workspace → List Member → List Workspace
joined ws [] = []
joined ws (m ∷ ms) = elim (find (is_workspace m.workspace_id) ws) [
  | none ↦ joined ws ms
  | some w ↦ w ∷ joined ws ms
]

unfoldable pub find_all : Text → UserRole → Action (List Workspace)
find_all user_id role = gets λ db.
    if lists_owned role
    then reverse (select (λ w. w.owner_id == user_id) db.workspaces)
    else joined db.workspaces (reverse (select (λ m. m.user_id == user_id) db.members))

unfoldable pub find_one : Text → Text → UserRole → Action Workspace
unfolding get_workspace
find_one id user_id role = do
  w ← get_workspace id
  member ← gets (is_member id user_id)
  throw_if (if lists_owned role then not (w.owner_id == user_id) else not member) forbidden
      Reason.access_denied
  pure w

abbrev pub rename : Option Text → Workspace → Workspace
rename none w = w
rename (some name) w = record w { name = name }

unfoldable pub update_workspace : Text → Text → Option Text → Action Unit
unfolding ensure_owner
update_workspace id user_id name = do
  ensure_owner id user_id
  modify λ db. record db { workspaces = update_where (is_workspace id) (rename name) db.workspaces }

abbrev pub forget_workspace : PrivateTask → PrivateTask
forget_workspace t = record t { workspace_id = none }

abbrev pub is_task_in : Text → PrivateTask → Bool
is_task_in id t = elim t.workspace_id [ none ↦ false | some w ↦ w == id ]

-- The rows whose own comments and versions go with them.
abbrev pub files_in : Text → List File → List Text
files_in id files = map (λ f. f.id) (select (λ f. f.workspace_id == id) files)

abbrev pub boards_in : Text → List Whiteboard → List Text
boards_in id boards = map (λ b. b.id) (select (λ b. b.workspace_id == id) boards)

-- What the database deletes with a workspace (ON DELETE CASCADE), and unlinks (SET NULL).
unfoldable pub delete_workspace : Text → Db → Db
delete_workspace id db = record db {
  workspaces = delete_where (is_workspace id) db.workspaces;
  members = delete_where (λ m. m.workspace_id == id) db.members;
  invites = delete_where (λ i. i.workspace_id == id) db.invites;
  shared_tasks = delete_where (λ t. t.workspace_id == id) db.shared_tasks;
  private_tasks = update_where (is_task_in id) forget_workspace db.private_tasks;
  files = delete_where (λ f. f.workspace_id == id) db.files;
  messages = delete_where (λ m. m.workspace_id == id) db.messages;
  chat_reads = delete_where (λ r. r.workspace_id == id) db.chat_reads;
  file_views = delete_where (λ v. v.workspace_id == id) db.file_views;
  notifications = delete_where (λ n. n.workspace_id == id) db.notifications;
  file_comments = delete_where (λ c. elem c.file_id (files_in id db.files)) db.file_comments;
  shared_links = delete_where (λ l. l.workspace_id == id) db.shared_links;
  whiteboards = delete_where (λ b. b.workspace_id == id) db.whiteboards;
  whiteboard_comments =
      delete_where (λ c. elem c.whiteboard_id (boards_in id db.whiteboards)) db.whiteboard_comments;
  whiteboard_versions =
      delete_where (λ v. elem v.whiteboard_id (boards_in id db.whiteboards)) db.whiteboard_versions;
}

unfoldable pub remove_workspace : Text → Text → Action Unit
unfolding ensure_owner
remove_workspace id user_id = do ensure_owner id user_id; modify (delete_workspace id)

unfoldable pub remove_member : Text → Text → Text → Action Unit
unfolding ensure_owner
remove_member workspace_id member_id requester_id = do
  ensure_owner workspace_id requester_id
  member ← gets (is_member workspace_id member_id)
  throw_if (not member) not_found Reason.member_not_found
  modify
      λ db. record db { members = delete_where (is_membership workspace_id member_id) db.members }

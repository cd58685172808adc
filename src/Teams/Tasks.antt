-- ===== src/Teams/Tasks.antt =====
-- Tasks: src/shared-task/shared-task.service.ts and src/private-task/private-task.service.ts.
pub mod Shared
pub mod Private
use workspacebridge_backend.Base.{
  Bool, true, false, not, ◌&&◌, ◌||◌, Option, none, some, List, [], ◌∷◌, ◌++◌, reverse, ◌==◌,
  if◌then◌else◌, or_else, find, select, update_where, delete_where, pure, gets, or_throw, ◌>>=◌,
  ◌>>◌, throw_if, modify, forbidden, not_found,
}
use workspacebridge_backend.Store.{
  Text, TaskStatus, Workspace, SharedTask, PrivateTask, Db, Action, Reason,
}
use workspacebridge_backend.Teams.Workspaces.{is_workspace, get_workspace, ensure_workspace_access}

-- A change of title, of status, or of both.
pub record TaskChange : Type 0 where
  pub title : Option Text
  pub status : Option TaskStatus

abbrev pub is_shared : Text → SharedTask → Bool
is_shared id t = t.id == id

abbrev pub is_private : Text → PrivateTask → Bool
is_private id t = t.id == id

abbrev pub change_shared : TaskChange → SharedTask → SharedTask
change_shared c t = record t { title = or_else c.title t.title; status = or_else c.status t.status }

abbrev pub change_private : TaskChange → PrivateTask → PrivateTask
change_private c t = record t {
  title = or_else c.title t.title;
  status = or_else c.status t.status;
}

abbrev pub is_by : Text → Option Text → Bool
is_by user_id none = false
is_by user_id (some u) = u == user_id

-- ===== src/Teams/Tasks/Shared.antt =====
-- src/shared-task/shared-task.service.ts
pub mod Access
use workspacebridge_backend.Base.{
  Bool, true, false, not, ◌&&◌, ◌||◌, Option, none, some, List, [], ◌∷◌, ◌++◌, reverse, ◌==◌,
  if◌then◌else◌, or_else, find, select, update_where, delete_where, pure, gets, or_throw, ◌>>=◌,
  ◌>>◌, throw_if, modify, forbidden, not_found,
}
use workspacebridge_backend.Store.{
  Text, TaskStatus, Workspace, SharedTask, PrivateTask, Db, Action, Reason,
}
use workspacebridge_backend.Teams.Workspaces.{is_workspace, get_workspace, ensure_workspace_access}
use workspacebridge_backend.Teams.Tasks.{
  TaskChange, is_shared, is_private, change_shared, change_private, is_by,
}

unfoldable pub list : Text → Text → Action (List SharedTask)
unfolding ensure_workspace_access
list workspace_id user_id = do
  ensure_workspace_access workspace_id user_id
  gets (λ db. reverse (select (λ t. t.workspace_id == workspace_id) db.shared_tasks))

unfoldable pub create : Text → Text → Text → Text → Action SharedTask
unfolding ensure_workspace_access
create workspace_id user_id id title = do
  ensure_workspace_access workspace_id user_id
  let t : SharedTask = record {
    id = id;
    workspace_id = workspace_id;
    created_by_id = some user_id;
    title = title;
    status = TaskStatus.todo;
  }
  modify λ db. record db { shared_tasks = db.shared_tasks ++ t ∷ [] }
  pure t

unfoldable pub update : Text → Text → TaskChange → Action Unit
unfolding ensure_workspace_access
update task_id user_id c = do
  tasks ← gets (λ db. db.shared_tasks)
  t ← or_throw (find (is_shared task_id) tasks) not_found Reason.task_not_found
  ensure_workspace_access t.workspace_id user_id
  modify λ db. record db {
    shared_tasks = update_where (is_shared task_id) (change_shared c) db.shared_tasks;
  }

-- The creator and the owner of the workspace may delete; the row of the workspace exists, since
-- the task refers to it.
unfoldable pub remove : Text → Text → Action Unit
unfolding get_workspace
remove task_id user_id = do
  tasks ← gets (λ db. db.shared_tasks)
  t ← or_throw (find (is_shared task_id) tasks) not_found Reason.task_not_found
  w ← get_workspace t.workspace_id
  throw_if (not (is_by user_id t.created_by_id) && not (w.owner_id == user_id)) forbidden
      Reason.creator_or_owner_only
  modify λ db. record db { shared_tasks = delete_where (is_shared task_id) db.shared_tasks }

-- ===== src/Teams/Tasks/Private.antt =====
-- src/private-task/private-task.service.ts
pub mod Isolation
use workspacebridge_backend.Base.{
  Bool, true, false, not, ◌&&◌, ◌||◌, Option, none, some, List, [], ◌∷◌, ◌++◌, reverse, ◌==◌,
  if◌then◌else◌, or_else, find, select, update_where, delete_where, pure, gets, or_throw, ◌>>=◌,
  ◌>>◌, throw_if, modify, forbidden, not_found,
}
use workspacebridge_backend.Store.{
  Text, TaskStatus, Workspace, SharedTask, PrivateTask, Db, Action, Reason,
}
use workspacebridge_backend.Teams.Workspaces.{is_workspace, get_workspace, ensure_workspace_access}
use workspacebridge_backend.Teams.Tasks.{
  TaskChange, is_shared, is_private, change_shared, change_private, is_by,
}

unfoldable pub ensure_workspace_owner : Text → Text → Action Unit
unfolding get_workspace
ensure_workspace_owner workspace_id user_id = do
  w ← get_workspace workspace_id
  throw_if (not (w.owner_id == user_id)) forbidden Reason.owner_only

abbrev pub is_listed : Text → Text → PrivateTask → Bool
is_listed user_id workspace_id t = t.user_id == user_id && is_by workspace_id t.workspace_id

unfoldable pub list : Text → Text → Action (List PrivateTask)
unfolding ensure_workspace_owner
list workspace_id user_id = do
  ensure_workspace_owner workspace_id user_id
  gets (λ db. reverse (select (is_listed user_id workspace_id) db.private_tasks))

abbrev pub new_task : Text → Text → Text → Text → PrivateTask
new_task workspace_id user_id id title = record {
  id = id;
  user_id = user_id;
  workspace_id = some workspace_id;
  title = title;
  status = TaskStatus.todo;
}

unfoldable pub create : Text → Text → Text → Text → Action PrivateTask
unfolding ensure_workspace_owner
create workspace_id user_id id title = do
  ensure_workspace_owner workspace_id user_id
  let t = new_task workspace_id user_id id title
  modify λ db. record db { private_tasks = db.private_tasks ++ t ∷ [] }
  pure t

unfoldable pub update : Text → Text → TaskChange → Action Unit
update task_id user_id c = do
  tasks ← gets (λ db. db.private_tasks)
  t ← or_throw (find (is_private task_id) tasks) not_found Reason.task_not_found
  throw_if (not (t.user_id == user_id)) forbidden Reason.not_your_task
  modify λ db. record db {
    private_tasks = update_where (is_private task_id) (change_private c) db.private_tasks;
  }

unfoldable pub remove : Text → Text → Action Unit
remove task_id user_id = do
  tasks ← gets (λ db. db.private_tasks)
  t ← or_throw (find (is_private task_id) tasks) not_found Reason.task_not_found
  throw_if (not (t.user_id == user_id)) forbidden Reason.not_your_task
  modify λ db. record db { private_tasks = delete_where (is_private task_id) db.private_tasks }

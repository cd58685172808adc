-- ===== src/Teams/Tasks/Private/Isolation.antt =====
-- Private tasks stay private: src/private-task/private-task.service.ts.
use workspacebridge_backend.Base.{
  ◌≡◌, true, some, List, reverse, arith, inl, inr, ok, find, select, ◌==◌, Option-cases,
  select-append_other, ◌≢◌, IsKeyed, select-delete_key, select-update_key,
}
use workspacebridge_backend.Store.{Text, Workspace, PrivateTask, Db}
use workspacebridge_backend.Teams.Workspaces.{is_workspace}
use workspacebridge_backend.Teams.Tasks.{TaskChange, is_private, change_private}
use workspacebridge_backend.Teams.Tasks.Private.{
  list, create, new_task, update, remove, is_listed, ensure_workspace_owner,
}

-- The private tasks of a user.
abbrev pub tasks_of : Text → Db → List PrivateTask
tasks_of user_id db = select (λ t. t.user_id == user_id) db.private_tasks

-- Whatever another user does to private tasks, and whether it is refused or not, a user's private
-- tasks stay as they are, the ids of the tasks being unique.
pub others_keep_private_tasks :
    (me you id workspace_id title : Text) (c : TaskChange) (db : Db)
    → me ≢ you
    → IsKeyed (λ t. t.id) db.private_tasks
    → (tasks_of me (create workspace_id you id title db).1 ≡ tasks_of me db)
      × (tasks_of me (update id you c db).1 ≡ tasks_of me db)
      × (tasks_of me (remove id you db).1 ≡ tasks_of me db)
unfolding create update remove ensure_workspace_owner
others_keep_private_tasks me you id workspace_id title c db ne keyed = (
  elim (Option-cases (find (is_workspace workspace_id) db.workspaces)) [
    | inl gone ↦ ground arith
    | inr (w, f) ↦ ground (
      arith,
      select-append_other (λ (t : PrivateTask). t.user_id == me) db.private_tasks
          (new_task workspace_id you id title),
    )
  ],
  elim (Option-cases (find (is_private id) db.private_tasks)) [
    | inl gone ↦ ground arith
    | inr (t, f) ↦ ground (
      arith,
      select-update_key (λ (t : PrivateTask). t.id) (λ t. t.user_id == me) (change_private c) id
          db.private_tasks t keyed f,
    )
  ],
  elim (Option-cases (find (is_private id) db.private_tasks)) [
    | inl gone ↦ ground arith
    | inr (t, f) ↦ ground (
      arith,
      select-delete_key (λ (t : PrivateTask). t.id) (λ t. t.user_id == me) id db.private_tasks t
          keyed f,
    )
  ],
)

-- A list of private tasks goes to the owner of the workspace only, and holds only their own.
pub list_is_own :
    (workspace_id user_id : Text) (db db' : Db) (ts : List PrivateTask)
    → list workspace_id user_id db ≡ (ok ts, db')
    → (db' ≡ db)
      × ((w : Workspace) × (find (is_workspace workspace_id) db.workspaces ≡ some w)
          × ((w.owner_id == user_id) ≡ true))
      × (ts ≡ reverse (select (is_listed user_id workspace_id) db.private_tasks))
unfolding list ensure_workspace_owner
list_is_own workspace_id user_id db db' ts e =
    elim (Option-cases (find (is_workspace workspace_id) db.workspaces)) [
      | inl gone ↦ ground arith
      | inr (w, f) ↦ ground arith
    ]

-- ===== src/Teams/Tasks/Shared/Access.antt =====
-- Who reaches the shared tasks of a workspace: src/shared-task/shared-task.service.ts.
use workspacebridge_backend.Base.{
  ◌≡◌, false, not, ◌&&◌, some, arith, inl, inr, ok, err, forbidden, find, ◌==◌, Option-cases,
}
use workspacebridge_backend.Store.{Text, Workspace, SharedTask, Db, Reason}
use workspacebridge_backend.Teams.Workspaces.{
  is_workspace, is_member, ensure_workspace_access, get_workspace,
}
use workspacebridge_backend.Teams.Tasks.{TaskChange, is_shared, is_by}
use workspacebridge_backend.Teams.Tasks.Shared.{list, create, update, remove}

-- A stranger to a workspace neither owns it nor belongs to it.
pub record IsStranger (user_id workspace_id : Text) (db : Db) (w : Workspace) : Type 0 where
  pub exists : find (is_workspace workspace_id) db.workspaces ≡ some w
  pub not_owner : (w.owner_id == user_id) ≡ false
  pub not_member : is_member workspace_id user_id db ≡ false

-- Who neither owns a workspace nor belongs to it, nor created the task, is refused when they list,
-- create, update or delete its shared tasks, and changes nothing.
pub stranger_refused :
    (user_id id title : Text) (c : TaskChange) (db : Db) (w : Workspace) (t : SharedTask)
    → IsStranger user_id t.workspace_id db w
    → find (is_shared id) db.shared_tasks ≡ some t
    → is_by user_id t.created_by_id ≡ false
    → (list t.workspace_id user_id db ≡ (err forbidden Reason.not_member, db))
      × (create t.workspace_id user_id id title db ≡ (err forbidden Reason.not_member, db))
      × (update id user_id c db ≡ (err forbidden Reason.not_member, db))
      × (remove id user_id db ≡ (err forbidden Reason.creator_or_owner_only, db))
unfolding list create update remove ensure_workspace_access get_workspace
stranger_refused user_id id title c db w t h f b =
    let e = h.exists in
    let o = h.not_owner in
    let m = h.not_member in (ground arith, ground arith, ground arith, ground arith)

-- A task is deleted by its creator or by the owner of its workspace, and by nobody else.
pub removed_by_creator_or_owner :
    (user_id id : Text) (db db' : Db)
    → remove id user_id db ≡ (ok tt, db')
    → (t : SharedTask) × (w : Workspace) × (find (is_shared id) db.shared_tasks ≡ some t)
      × (find (is_workspace t.workspace_id) db.workspaces ≡ some w)
      × ((not (is_by user_id t.created_by_id) && not (w.owner_id == user_id)) ≡ false)
unfolding remove get_workspace
removed_by_creator_or_owner user_id id db db' e =
    elim (Option-cases (find (is_shared id) db.shared_tasks)) [
      | inl gone ↦ ground arith
      | inr (t, f) ↦ elim (Option-cases (find (is_workspace t.workspace_id) db.workspaces)) [
        | inl gone ↦ ground arith
        | inr (w, g) ↦ (t, w, f, g, ground arith)
      ]
    ]

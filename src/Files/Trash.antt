-- ===== src/Files/Trash.antt =====
-- The trash: remove, restore and purge of src/file/file.service.ts.
use workspacebridge_backend.Base.{
  ◌+◌, ◌≤◌, ◌≡◌, refl, Bool, true, false, not, ◌&&◌, none, some, List, [], ◌∷◌, arith, ap, ◌∙◌, ok,
  err, forbidden, ◌==◌, find, update_where, IsKeyed, find-update_where_hit, find-fits,
}
use workspacebridge_backend.Store.{Text, Time, User, Workspace, File, Db, Reason}
use workspacebridge_backend.Auth.Login.{is_user}
use workspacebridge_backend.Teams.Workspaces.{is_workspace}
use workspacebridge_backend.Teams.Tasks.{is_by}
use workspacebridge_backend.Files.{
  is_file, is_live, is_kept, set_deleted, usage, storage_limit, trash_retention_ms, find_file,
  ensure_uploader_or_owner, owner_of_workspace, restore, start_restore, commit_restore, purge,
  remove, start_remove, commit_remove,
}
use workspacebridge_backend.Files.Quota.Usage.{usage-update, usage_later}

update_where_absent :
    (id : Text) (g : File → File) (fs : List File)
    → find (is_file id) fs ≡ none
    → update_where (is_file id) g fs ≡ fs
unfolding find update_where
update_where_absent id g [] e = refl
update_where_absent id g (f ∷ fs) e = ground (arith, update_where_absent id g fs)

-- Deleting a live file and taking the deletion back leaves the table as it was.
undo :
    (id : Text) (now : Time) (fs : List File) (f : File)
    → IsKeyed (λ f. f.id) fs
    → find (is_file id) fs ≡ some f
    → f.deleted_at ≡ none
    → update_where
        (is_file id)
        (set_deleted none)
        (update_where (is_file id) (set_deleted (some now)) fs)
      ≡ fs
unfolding find update_where
undo id now [] f u e l = ground arith
undo id now (g ∷ fs) f u e l = ground (
  arith,
  undo id now fs f u.1,
  update_where_absent id (set_deleted (some now)) fs,
  update_where_absent id (set_deleted none) fs,
)

-- The user may touch the file: they uploaded it, or own its workspace.
pub record MayTouch (f : File) (user_id : Text) (db : Db) (w : Workspace) : Type 0 where
  pub exists : find (is_workspace f.workspace_id) db.workspaces ≡ some w
  pub allowed : (not (is_by user_id f.uploaded_by_id) && not (w.owner_id == user_id)) ≡ false

remove_lem :
    (id user_id : Text) (now : Time) (db : Db) (f : File) (w : Workspace)
    → find (is_file id) db.files ≡ some f
    → f.deleted_at ≡ none
    → MayTouch f user_id db w
    → remove id user_id now db
      ≡ (ok tt, record db { files = update_where (is_file id) (set_deleted (some now)) db.files })
unfolding remove start_remove commit_remove find_file ensure_uploader_or_owner owner_of_workspace
remove_lem id user_id now db f w e l m = ground (arith, m.exists, m.allowed)

restore_lem :
    (id user_id : Text) (now : Time) (db : Db) (f : File) (w : Workspace) (u : User)
    → find (is_file id) db.files ≡ some f
    → is_live f ≡ false
    → is_kept now f ≡ true
    → MayTouch f user_id db w
    → find (is_user w.owner_id) db.users ≡ some u
    → usage now f.workspace_id db.files ≤ storage_limit u.plan
    → restore id user_id now db
      ≡ (ok tt, record db { files = update_where (is_file id) (set_deleted none) db.files })
unfolding restore start_restore commit_restore find_file ensure_uploader_or_owner owner_of_workspace
restore_lem id user_id now db f w u e l k m o fits = ground (arith, m.exists, m.allowed)

-- A live file that its uploader or the workspace owner deletes can be restored by the same user
-- for thirty days: in a workspace within its quota, with unique file ids, the two together change
-- nothing.
pub restore-remove :
    (id user_id : Text) (now later : Time) (db : Db) (f : File) (w : Workspace) (u : User)
    → IsKeyed (λ f. f.id) db.files
    → find (is_file id) db.files ≡ some f
    → f.deleted_at ≡ none
    → MayTouch f user_id db w
    → find (is_user w.owner_id) db.users ≡ some u
    → usage now f.workspace_id db.files ≤ storage_limit u.plan
    → now ≤ later
    → later ≤ now + trash_retention_ms
    → restore id user_id later (remove id user_id now db).1 ≡ (ok tt, db)
restore-remove id user_id now later db f w u keyed e l m o fits after soon =
    let files = update_where (is_file id) (set_deleted (some now)) db.files in
    let gone = set_deleted (some now) f in
    let found : find (is_file id) files ≡ some gone =
      find-update_where_hit (is_file id) (is_file id) (set_deleted (some now)) db.files f
        (λ k. refl) e (find-fits (is_file id) db.files f e) in
    let kept : is_kept later gone ≡ true = ground arith in
    let shrinks : usage now f.workspace_id files ≤ usage now f.workspace_id db.files =
      usage-update now f.workspace_id id (set_deleted (some now)) db.files f keyed e
        (ground arith) in
    rw (remove_lem id user_id now db f w e l m) (
      restore_lem id user_id later (record db { files = files }) gone w u found refl kept
        (record { exists = m.exists; allowed = m.allowed }) o
        (omega (arith, fits, shrinks, usage_later now later f.workspace_id files after))
      ∙ ap (λ fs. (ok tt, record db { files = fs })) (undo id now db.files f keyed e l))

-- Who neither uploaded a file nor owns its workspace does not delete it, nor restore or purge it from
-- the trash; nothing is written.
pub stranger_keeps_out :
    (id user_id : Text) (now : Time) (deleted : Bool) (db : Db) (f : File) (w : Workspace)
    → find (is_file id) db.files ≡ some f
    → find (is_workspace f.workspace_id) db.workspaces ≡ some w
    → (not (is_by user_id f.uploaded_by_id) && not (w.owner_id == user_id)) ≡ true
    → (is_live f ≡ true
        → remove id user_id now db ≡ (err forbidden Reason.uploader_or_owner_only, db))
      × (is_live f ≡ false
          → is_kept now f ≡ true
          → restore id user_id now db ≡ (err forbidden Reason.uploader_or_owner_only, db))
      × (is_live f ≡ false
          → purge id user_id deleted db ≡ (err forbidden Reason.uploader_or_owner_only, db))
unfolding remove start_remove restore start_restore purge find_file ensure_uploader_or_owner
    owner_of_workspace
stranger_keeps_out id user_id now deleted db f w e g s =
    ((λ live. ground arith), (λ dead kept. ground arith), (λ dead. ground arith))

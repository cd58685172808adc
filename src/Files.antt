-- ===== src/Files.antt =====
-- Files of a workspace: src/file/file.service.ts and src/file/file.constants.ts.
pub mod Names
pub mod Quota
pub mod Trash
pub mod Uploads
pub mod Sweep
use workspacebridge_backend.Base.{
  ℕ, ◌+◌, ◌-◌, ◌*◌, Bool, true, false, not, ◌&&◌, ◌||◌, Option, none, some, List, [], ◌∷◌, ◌++◌,
  reverse, ltb, leb, ◌==◌, if◌then◌else◌, is_some, take, find, select, count, update_where,
  delete_where, elem, pure, throw, gets, or_throw, ◌>>=◌, ◌>>◌, throw_if, modify, when, bad_request,
  forbidden, not_found, payload_too_large, internal,
}
use workspacebridge_backend.Store.{
  Text, Time, User, UserPlan, Workspace, File, Seen, Db, Action, Reason,
}
use workspacebridge_backend.Auth.Login.{is_user}
use workspacebridge_backend.Teams.Workspaces.{is_workspace, ensure_workspace_access}
use workspacebridge_backend.Teams.Tasks.{is_by}
use workspacebridge_backend.Files.Names.{sanitize_filename}

-- `TRASH_RETENTION_DAYS`, in milliseconds.
abbrev pub trash_retention_ms : ℕ
trash_retention_ms = 30 * 24 * 60 * 60 * 1000

abbrev pub null_byte_sample_size : ℕ
null_byte_sample_size = 8192

abbrev pub megabytes : ℕ → ℕ
megabytes n = n * 1024 * 1024

abbrev pub file_size_limit : UserPlan → ℕ
file_size_limit UserPlan.free = megabytes 25
file_size_limit UserPlan.pro = megabytes 100
file_size_limit UserPlan.business = megabytes 500

unfoldable pub storage_limit : UserPlan → ℕ
storage_limit UserPlan.free = megabytes 500
storage_limit UserPlan.pro = megabytes (10 * 1024)
storage_limit UserPlan.business = megabytes (50 * 1024)

abbrev pub is_file : Text → File → Bool
is_file id f = f.id == id

-- `deletedAt: null`
abbrev pub is_live : File → Bool
is_live f = not (is_some f.deleted_at)

-- `OR: [{ deletedAt: null }, { deletedAt: { gte: cutoff } }]`
abbrev pub is_kept : Time → File → Bool
is_kept now f = elim f.deleted_at [ none ↦ true | some t ↦ leb (now - trash_retention_ms) t ]

-- The bytes of a workspace that count: its live files, and those that the trash still keeps.
unfoldable pub usage : Time → Text → List File → ℕ
usage now workspace_id [] = 0
usage now workspace_id (f ∷ fs) =
    let rest = usage now workspace_id fs in
    if f.workspace_id == workspace_id && is_kept now f then f.size + rest else rest

-- What multer hands over: the buffer is its list of bytes.
pub record Upload : Type 0 where
  pub original_name : List ℕ
  pub mime_type : Text
  pub size : ℕ
  pub buffer : List ℕ

-- The libraries that look into names and contents, and the allowlists of src/file/file.constants.ts.
pub record Formats : Type 0 where
  pub extname : List ℕ → List ℕ
  pub to_lower_case : List ℕ → Text
  pub detect_file_type : List ℕ → Option Text
  pub storage_key : Text → Text → Text → Text
  pub allowed_extensions : List Text
  pub allowed_mime_types : List Text
  pub text_based_extensions : List Text
  pub text_based_mime_types : List Text

-- An upload whose bytes are in the storage and whose row is not written yet.
pub record Pending : Type 0 where
  pub file_id : Text
  pub workspace_id : Text
  pub user_id : Text
  pub name : List ℕ
  pub size : ℕ
  pub storage_key : Text
  pub limit : ℕ

unfoldable pub list : Text → Text → Action (List File)
list workspace_id user_id = do
  ensure_workspace_access workspace_id user_id
  gets λ db. reverse (select (λ f. f.workspace_id == workspace_id && is_live f) db.files)

abbrev pub is_view_of : Text → Text → Seen → Bool
is_view_of workspace_id user_id v = v.workspace_id == workspace_id && v.user_id == user_id

-- A live file of another user (the uploader is known) that is newer than the last view.
abbrev pub is_new_for : Text → Text → Option Seen → File → Bool
is_new_for workspace_id user_id view f =
    f.workspace_id == workspace_id
    && is_live f
    && (elim f.uploaded_by_id [ none ↦ false | some u ↦ not (u == user_id) ])
    && (elim view [ none ↦ true | some v ↦ ltb v.at f.created_at ])

unfoldable pub has_new_files : Text → Text → Action Bool
has_new_files workspace_id user_id = do
  ensure_workspace_access workspace_id user_id
  gets λ db.
      let view = find (is_view_of workspace_id user_id) db.file_views in
      ltb 0 (count (is_new_for workspace_id user_id view) db.files)

abbrev pub seen_at : Time → Seen → Seen
seen_at now v = record v { at = now }

-- `upsert` of the row with this workspace and user.
unfoldable pub upsert_view : Text → Text → Time → List Seen → List Seen
upsert_view workspace_id user_id now views =
    if is_some (find (is_view_of workspace_id user_id) views)
    then update_where (is_view_of workspace_id user_id) (seen_at now) views
    else views ++ record { workspace_id = workspace_id; user_id = user_id; at = now } ∷ []

unfoldable pub mark_files_seen : Text → Text → Time → Action Unit
mark_files_seen workspace_id user_id now = do
  ensure_workspace_access workspace_id user_id
  modify λ db. record db { file_views = upsert_view workspace_id user_id now db.file_views }

abbrev pub drop_object : Text → Action Unit
drop_object key = modify λ db. record db { objects = delete_where (λ k. k == key) db.objects }

module _ (x : Formats) where
  unfoldable pub verify_mime_type : Upload → Text → Action Text
  verify_mime_type f ext = elim (x.detect_file_type f.buffer) [
    | some mime ↦
        throw_if (not (elem mime x.allowed_mime_types)) bad_request Reason.mime_not_allowed
        >> pure mime
    | none ↦ do
      throw_if (not (elem ext x.text_based_extensions)) bad_request Reason.unknown_content
      throw_if (not (elem f.mime_type x.text_based_mime_types)) bad_request Reason.mime_not_allowed
      throw_if (elem 0 (take null_byte_sample_size f.buffer)) bad_request Reason.binary_content
      pure f.mime_type
  ]

  -- The checks of `upload` and the transfer to the storage, which may fail.
  unfoldable pub start_upload : Text → Text → Option Upload → Text → Bool → Time → Action Pending
  start_upload workspace_id user_id file file_id stored now = do
    f ← or_throw file bad_request Reason.file_required
    w ← ensure_workspace_access workspace_id user_id
    users ← gets (λ db. db.users)
    owner ← or_throw (find (is_user w.owner_id) users) internal Reason.record_not_found
    name ←
        or_throw (sanitize_filename x.extname f.original_name) bad_request Reason.filename_required
    let ext = x.to_lower_case (x.extname name)
    throw_if (not (elem ext x.allowed_extensions)) bad_request Reason.extension_not_allowed
    verify_mime_type f ext
    throw_if (ltb (file_size_limit owner.plan) f.size) payload_too_large Reason.file_too_large
    files ← gets (λ db. db.files)
    throw_if (ltb (storage_limit owner.plan) (usage now workspace_id files + f.size))
        payload_too_large Reason.storage_limit
    let key = x.storage_key workspace_id file_id ext
    throw_if (not stored) internal Reason.storage_failed
    modify λ db. record db { objects = db.objects ++ key ∷ [] }
    pure (record {
      file_id = file_id;
      workspace_id = workspace_id;
      user_id = user_id;
      name = name;
      size = f.size;
      storage_key = key;
      limit = storage_limit owner.plan;
    })

abbrev pub file_row : Pending → Time → File
file_row p now = record {
  id = p.file_id;
  workspace_id = p.workspace_id;
  uploaded_by_id = some p.user_id;
  name = p.name;
  size = p.size;
  storage_key = p.storage_key;
  deleted_at = none;
  created_at = now;
}

-- The transaction of `upload` under the lock of the workspace; a refusal takes the bytes back, if
-- the storage lets it.
unfoldable pub commit_upload : Pending → Bool → Time → Action File
commit_upload p cleaned now = do
  files ← gets (λ db. db.files)
  if ltb p.limit (usage now p.workspace_id files + p.size)
      then when cleaned (drop_object p.storage_key) >> throw payload_too_large Reason.storage_limit
      else modify (λ db. record db { files = db.files ++ file_row p now ∷ [] })
        >> pure (file_row p now)

-- The owner of the workspace of a file: the relation is a foreign key.
unfoldable pub owner_of_workspace : Text → Action Text
owner_of_workspace workspace_id = do
  workspaces ← gets (λ db. db.workspaces)
  w ← or_throw (find (is_workspace workspace_id) workspaces) internal Reason.record_not_found
  pure w.owner_id

unfoldable pub find_file : Text → Action File
find_file id = do
  files ← gets (λ db. db.files)
  or_throw (find (is_file id) files) not_found Reason.file_not_found

-- Only the uploader and the owner of the workspace may delete, restore and purge.
unfoldable pub ensure_uploader_or_owner : File → Text → Action Text
ensure_uploader_or_owner f user_id = do
  owner_id ← owner_of_workspace f.workspace_id
  throw_if (not (is_by user_id f.uploaded_by_id) && not (owner_id == user_id)) forbidden
      Reason.uploader_or_owner_only
  pure owner_id

unfoldable pub get_download_url : Text → Text → Action Text
get_download_url id user_id = do
  f ← find_file id
  throw_if (not (is_live f)) not_found Reason.file_not_found
  ensure_workspace_access f.workspace_id user_id
  pure f.storage_key

-- The rows that the trash shows; their order, by the time of deletion, is left out.
unfoldable pub list_trash : Text → Text → Time → Action (List File)
list_trash workspace_id user_id now = do
  ensure_workspace_access workspace_id user_id
  gets λ db.
      select (λ f. f.workspace_id == workspace_id && (not (is_live f) && is_kept now f)) db.files

abbrev pub set_deleted : Option Time → File → File
set_deleted t f = record f { deleted_at = t }

-- A restoration that has passed its checks and waits for the lock of the workspace.
pub record PendingRestore : Type 0 where
  pub file_id : Text
  pub workspace_id : Text
  pub limit : ℕ

-- The checks of `restore`, before the lock.
unfoldable pub start_restore : Text → Text → Time → Action PendingRestore
start_restore id user_id now = do
  f ← find_file id
  throw_if (is_live f || not (is_kept now f)) not_found Reason.file_not_found
  owner_id ← ensure_uploader_or_owner f user_id
  users ← gets (λ db. db.users)
  owner ← or_throw (find (is_user owner_id) users) internal Reason.record_not_found
  pure (record { file_id = id; workspace_id = f.workspace_id; limit = storage_limit owner.plan })

-- The transaction of `restore`, under the lock: the quota, and the row if it is still there.
unfoldable pub commit_restore : PendingRestore → Time → Action Unit
commit_restore p now = do
  files ← gets (λ db. db.files)
  throw_if (ltb p.limit (usage now p.workspace_id files)) payload_too_large Reason.storage_limit
  throw_if (not (is_some (find (is_file p.file_id) files))) internal Reason.record_not_found
  modify λ db. record db { files = update_where (is_file p.file_id) (set_deleted none) db.files }

-- A restoration that nothing overtakes.
unfoldable pub restore : Text → Text → Time → Action Unit
unfolding start_restore commit_restore
restore id user_id now = do p ← start_restore id user_id now; commit_restore p now

-- A file row goes, and its comments with it (ON DELETE CASCADE).
abbrev pub delete_file : Text → Db → Db
delete_file id db = record db {
  files = delete_where (is_file id) db.files;
  file_comments = delete_where (λ c. c.file_id == id) db.file_comments;
}

-- The object first, then the row; `deleted` says whether the storage obeys.
unfoldable pub purge : Text → Text → Bool → Action Unit
purge id user_id deleted = do
  f ← find_file id
  throw_if (is_live f) not_found Reason.file_not_found
  ensure_uploader_or_owner f user_id
  throw_if (not deleted) internal Reason.storage_failed
  drop_object f.storage_key
  modify (delete_file id)

-- The checks of `remove`.
unfoldable pub start_remove : Text → Text → Action Unit
start_remove id user_id = do
  f ← find_file id
  throw_if (not (is_live f)) not_found Reason.file_not_found
  ensure_uploader_or_owner f user_id
  pure tt

-- Its write, if the row is still there.
unfoldable pub commit_remove : Text → Time → Action Unit
commit_remove id now = do
  files ← gets (λ db. db.files)
  throw_if (not (is_some (find (is_file id) files))) internal Reason.record_not_found
  modify λ db. record db { files = update_where (is_file id) (set_deleted (some now)) db.files }

unfoldable pub remove : Text → Text → Time → Action Unit
unfolding start_remove commit_remove
remove id user_id now = do start_remove id user_id; commit_remove id now

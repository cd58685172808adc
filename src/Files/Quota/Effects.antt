-- ===== src/Files/Quota/Effects.antt =====
-- What each handler of src/file/file.service.ts does to the table of files.
use workspacebridge_backend.Base.{
  ◌+◌, ◌≤◌, ◌≡◌, Bool, true, not, ◌&&◌, ◌||◌, none, some, [], ◌∷◌, ◌++◌, arith, ◌⊎◌, inl, inr, ok,
  ltb, ◌==◌, find, update_where, delete_where, Option-cases, err, Status, internal, forbidden,
  Bool-cases,
}
use workspacebridge_backend.Store.{Text, Time, File, Db, Reason}
use workspacebridge_backend.Auth.Login.{is_user}
use workspacebridge_backend.Teams.Workspaces.{is_workspace}
use workspacebridge_backend.Teams.Tasks.{is_by}
use workspacebridge_backend.Files.{
  storage_limit, is_file, is_live, is_kept, usage, Pending, file_row, commit_upload, set_deleted,
  restore, start_restore, commit_restore, PendingRestore, purge, remove, start_remove,
  commit_remove, find_file, ensure_uploader_or_owner, owner_of_workspace,
}

pub committed :
    (p : Pending) (cleaned : Bool) (now : Time) (db : Db)
    → let out = (commit_upload p cleaned now db).1.files in
      (out ≡ db.files)
      ⊎ ((usage now p.workspace_id db.files + p.size ≤ p.limit)
          × (out ≡ db.files ++ file_row p now ∷ []))
unfolding commit_upload
committed p cleaned now db =
    elim (Bool-cases (ltb p.limit (usage now p.workspace_id db.files + p.size))) [
      | inl full ↦ inl (ground arith)
      | inr room ↦ inr (ground arith, rw room)
    ]

ensure-cases :
    (f : File) (user_id : Text) (db : Db)
    → ((c : Status) × (r : Reason) × (ensure_uploader_or_owner f user_id db ≡ (err c r, db)))
      ⊎ ((o : Text) × (ensure_uploader_or_owner f user_id db ≡ (ok o, db)))
unfolding ensure_uploader_or_owner owner_of_workspace
ensure-cases f user_id db = elim (Option-cases (find (is_workspace f.workspace_id) db.workspaces)) [
  | inl gone ↦ inl (internal, Reason.record_not_found, ground arith)
  | inr (w, e) ↦
      elim (Bool-cases (not (is_by user_id f.uploaded_by_id) && not (w.owner_id == user_id))) [
        | inl stranger ↦ inl (forbidden, Reason.uploader_or_owner_only, ground arith)
        | inr allowed ↦ inr (w.owner_id, ground arith)
      ]
]

-- The write of a deletion, whenever it comes.
pub remove_committed :
    (id : Text) (now : Time) (db : Db)
    → let out = (commit_remove id now db).1.files in
      (out ≡ db.files)
      ⊎ ((f : File) × (find (is_file id) db.files ≡ some f)
          × (out ≡ update_where (is_file id) (set_deleted (some now)) db.files))
unfolding commit_remove
remove_committed id now db = elim (Option-cases (find (is_file id) db.files)) [
  | inl gone ↦ inl (ground arith)
  | inr (f, e) ↦ inr (f, e, ground arith)
]

-- The transaction of a restoration, whenever it gets the lock.
pub restore_committed :
    (p : PendingRestore) (now : Time) (db : Db)
    → let out = (commit_restore p now db).1.files in
      (out ≡ db.files)
      ⊎ ((f : File) × (find (is_file p.file_id) db.files ≡ some f)
          × (out ≡ update_where (is_file p.file_id) (set_deleted none) db.files))
unfolding commit_restore
restore_committed p now db = elim (Bool-cases (ltb p.limit (usage now p.workspace_id db.files))) [
  | inl full ↦ inl (ground arith)
  | inr room ↦ elim (Option-cases (find (is_file p.file_id) db.files)) [
    | inl gone ↦ inl (ground arith)
    | inr (f, e) ↦ inr (f, e, ground arith)
  ]
]

pub removed :
    (id user_id : Text) (now : Time) (db : Db)
    → let out = (remove id user_id now db).1.files in
      (out ≡ db.files)
      ⊎ ((f : File) × (find (is_file id) db.files ≡ some f)
          × (is_live f ≡ true)
          × (out ≡ update_where (is_file id) (set_deleted (some now)) db.files))
unfolding remove start_remove commit_remove find_file
removed id user_id now db = elim (Option-cases (find (is_file id) db.files)) [
  | inl gone ↦ inl (ground arith)
  | inr (f, e) ↦ elim (Bool-cases (is_live f)) [
    | inl live ↦ elim (ensure-cases f user_id db) [
      | inl (c, r, no_way) ↦ inl (ground arith)
      | inr (o, allowed) ↦ inr (f, e, live, ground arith)
    ]
    | inr dead ↦ inl (ground arith)
  ]
]

pub restored :
    (id user_id : Text) (now : Time) (db : Db)
    → let out = (restore id user_id now db).1.files in
      (out ≡ db.files)
      ⊎ ((f : File) × (find (is_file id) db.files ≡ some f)
          × (is_kept now f ≡ true)
          × (out ≡ update_where (is_file id) (set_deleted none) db.files))
unfolding restore start_restore commit_restore find_file
restored id user_id now db = elim (Option-cases (find (is_file id) db.files)) [
  | inl gone ↦ inl (ground arith)
  | inr (f, e) ↦ elim (Bool-cases (is_live f || not (is_kept now f))) [
    | inl out ↦ inl (ground arith)
    | inr in_trash ↦ elim (ensure-cases f user_id db) [
      | inl (c, r, no_way) ↦ inl (ground arith)
      | inr (o, allowed) ↦ elim (Option-cases (find (is_user o) db.users)) [
        | inl gone ↦ inl (ground arith)
        | inr (u, g) ↦
            elim (Bool-cases (ltb (storage_limit u.plan) (usage now f.workspace_id db.files))) [
              | inl full ↦ inl (ground arith)
              | inr room ↦ inr (f, e, ground arith, ground arith)
            ]
      ]
    ]
  ]
]

pub purged :
    (id user_id : Text) (deleted : Bool) (db : Db)
    → let out = (purge id user_id deleted db).1.files in
      (out ≡ db.files) ⊎ (out ≡ delete_where (is_file id) db.files)
unfolding purge find_file
purged id user_id deleted db = elim (Option-cases (find (is_file id) db.files)) [
  | inl gone ↦ inl (ground arith)
  | inr (f, e) ↦ elim (Bool-cases (is_live f)) [
    | inl live ↦ inl (ground arith)
    | inr dead ↦ elim (ensure-cases f user_id db) [
      | inl (c, r, no_way) ↦ inl (ground arith)
      | inr (o, allowed) ↦ elim (Bool-cases deleted) [
        | inl obeyed ↦ inr (ground arith)
        | inr refused ↦ inl (ground arith)
      ]
    ]
  ]
]

-- ===== src/Files/Quota.antt =====
-- The storage quota of a workspace, whatever uploads run at the same time: src/file/file.service.ts.
pub mod Effects
pub mod Usage
pub mod Overtaken
use workspacebridge_backend.Base.{
  ℕ, ◌+◌, ◌≤◌, ◌≡◌, refl, sym, subst, Bool, true, false, not, ◌&&◌, ◌||◌, Option, none, some, List,
  [], ◌∷◌, ◌++◌, arith, ◌⊎◌, inl, inr, ok, ltb, ◌==◌, if◌then◌else◌, find, update_where,
  delete_where, IsKeyed, append-IsKeyed, delete_where-IsKeyed, update_where-IsKeyed, Option-cases,
  err, Status, internal, forbidden, ==_iff, Bool-cases,
}
use workspacebridge_backend.Store.{Text, Time, File, Db, Reason}
use workspacebridge_backend.Auth.Login.{is_user}
use workspacebridge_backend.Teams.Workspaces.{is_workspace}
use workspacebridge_backend.Teams.Tasks.{is_by}
use workspacebridge_backend.Files.Quota.Effects.{
  committed, removed, restored, purged, remove_committed, restore_committed,
}
use workspacebridge_backend.Files.Sweep.{erase}
use workspacebridge_backend.Files.{
  storage_limit, is_file, is_live, is_kept, usage, Pending, file_row, commit_upload, set_deleted,
  restore, commit_restore, PendingRestore, purge, remove, commit_remove, find_file,
  ensure_uploader_or_owner, owner_of_workspace,
}
use workspacebridge_backend.Files.Quota.Usage.{
  bytes, usage-append, usage-delete_where-le, usage_later, usage-update_absent, usage-update,
}

-- What changes the files: the end of an upload, a deletion, a restoration, a purge, and one step of the
-- sweep. Requests that overlap are their writes, in some order: a deletion or a restoration whose write
-- comes later than its checks is one of the late events.
pub data FileEvent : Type 0 where
  commits : Pending → Bool → FileEvent
  removes restores : Text → Text → FileEvent
  removes_late : Text → FileEvent
  restores_late : PendingRestore → FileEvent
  purges : Text → Text → Bool → FileEvent
  erases : File → FileEvent

abbrev pub handle : FileEvent → Time → Db → Db
handle (FileEvent.commits p cleaned) now db = (commit_upload p cleaned now db).1
handle (FileEvent.removes id user_id) now db = (remove id user_id now db).1
handle (FileEvent.restores id user_id) now db = (restore id user_id now db).1
handle (FileEvent.removes_late id) now db = (commit_remove id now db).1
handle (FileEvent.restores_late p) now db = (commit_restore p now db).1
handle (FileEvent.purges id user_id deleted) now db = (purge id user_id deleted db).1
handle (FileEvent.erases f) now db = erase f db

module _ (w : Text) (limit : ℕ) where
  -- An upload has drawn a fresh id, and has read a limit of the workspace that still holds; the write of
  -- a deletion or a restoration that comes late still finds the file within its thirty days, if at all.
  abbrev pub IsFair : FileEvent → Time → Db → Type 0
  IsFair (FileEvent.commits p cleaned) now db =
      (find (is_file p.file_id) db.files ≡ none) × (p.workspace_id ≡ w → p.limit ≤ limit)
  IsFair (FileEvent.removes_late id) now db =
      (f : File) → find (is_file id) db.files ≡ some f → is_kept now f ≡ true
  IsFair (FileEvent.restores_late p) now db =
      (f : File) → find (is_file p.file_id) db.files ≡ some f → is_kept now f ≡ true
  IsFair _ now db = Unit

  -- The states that a run of events reaches, each event at its time.
  pub data Reaches : Time → Db → Time → Db → Type 0 where
    start : {t : Time} {db : Db} → Reaches t db t db
    next :
        {t t' : Time} {db db' : Db}
        → Reaches t db t' db'
        → (e : FileEvent) (now : Time) → t' ≤ now
        → IsFair e now db'
        → Reaches t db now (handle e now db')

  -- The ids are unique and the bytes of the workspace are within the limit.
  pub record IsWithin (now : Time) (files : List File) : Type 0 where
    pub keyed : IsKeyed (λ f. f.id) files
    pub fits : usage now w files ≤ limit

  commit-IsWithin :
      (p : Pending) (cleaned : Bool) (now : Time) (db : Db)
      → IsWithin now db.files
      → find (is_file p.file_id) db.files ≡ none
      → (p.workspace_id ≡ w → p.limit ≤ limit)
      → IsWithin now (commit_upload p cleaned now db).1.files
  commit-IsWithin p cleaned now db h fresh l =
      let keyed = append-IsKeyed (λ f. f.id) db.files (file_row p now) h.keyed fresh in
      elim (committed p cleaned now db) [
        | inl same ↦ subst (IsWithin now) (sym same) h
        | inr (fits, added) ↦ subst (IsWithin now) (sym added) (record {
          keyed = keyed;
          fits = ground (
            arith,
            fits,
            h.fits,
            l,
            usage-append now w db.files (file_row p now),
            ==_iff p.workspace_id w,
          );
        })
      ]

  update-IsWithin :
      (id : Text) (t : Option Time) (now : Time) (files : List File) (f : File)
      → IsWithin now files
      → find (is_file id) files ≡ some f
      → bytes now w (set_deleted t f) ≤ bytes now w f
      → IsWithin now (update_where (is_file id) (set_deleted t) files)
  update-IsWithin id t now files f h e b = record {
    keyed = update_where-IsKeyed (λ f. f.id) (is_file id) (set_deleted t) files (λ x. refl) h.keyed;
    fits = omega (arith, h.fits, usage-update now w id (set_deleted t) files f h.keyed e b);
  }

  delete-IsWithin :
      (q : File → Bool) (now : Time) (files : List File)
      → IsWithin now files
      → IsWithin now (delete_where q files)
  delete-IsWithin q now files h = record {
    keyed = delete_where-IsKeyed (λ f. f.id) q files h.keyed;
    fits = omega (arith, h.fits, usage-delete_where-le now w q files);
  }

  remove-IsWithin :
      (id user_id : Text) (now : Time) (db : Db)
      → IsWithin now db.files
      → IsWithin now (remove id user_id now db).1.files
  remove-IsWithin id user_id now db h = elim (removed id user_id now db) [
    | inl same ↦ subst (IsWithin now) (sym same) h
    | inr (f, e, live, changed) ↦
        subst (IsWithin now) (sym changed)
          (update-IsWithin id (some now) now db.files f h e (ground arith))
  ]

  restore-IsWithin :
      (id user_id : Text) (now : Time) (db : Db)
      → IsWithin now db.files
      → IsWithin now (restore id user_id now db).1.files
  restore-IsWithin id user_id now db h = elim (restored id user_id now db) [
    | inl same ↦ subst (IsWithin now) (sym same) h
    | inr (f, e, kept, changed) ↦
        subst (IsWithin now) (sym changed)
          (update-IsWithin id none now db.files f h e (ground arith))
  ]

  late_remove-IsWithin :
      (id : Text) (now : Time) (db : Db)
      → ((f : File) → find (is_file id) db.files ≡ some f → is_kept now f ≡ true)
      → IsWithin now db.files
      → IsWithin now (commit_remove id now db).1.files
  late_remove-IsWithin id now db fair h = elim (remove_committed id now db) [
    | inl same ↦ subst (IsWithin now) (sym same) h
    | inr (f, e, changed) ↦
        subst (IsWithin now) (sym changed)
          (update-IsWithin id (some now) now db.files f h e (ground (arith, fair f e)))
  ]

  late_restore-IsWithin :
      (p : PendingRestore) (now : Time) (db : Db)
      → ((f : File) → find (is_file p.file_id) db.files ≡ some f → is_kept now f ≡ true)
      → IsWithin now db.files
      → IsWithin now (commit_restore p now db).1.files
  late_restore-IsWithin p now db fair h = elim (restore_committed p now db) [
    | inl same ↦ subst (IsWithin now) (sym same) h
    | inr (f, e, changed) ↦
        subst (IsWithin now) (sym changed)
          (update-IsWithin p.file_id none now db.files f h e (ground (arith, fair f e)))
  ]

  purge-IsWithin :
      (id user_id : Text) (deleted : Bool) (now : Time) (db : Db)
      → IsWithin now db.files
      → IsWithin now (purge id user_id deleted db).1.files
  purge-IsWithin id user_id deleted now db h = elim (purged id user_id deleted db) [
    | inl same ↦ subst (IsWithin now) (sym same) h
    | inr changed ↦ subst (IsWithin now) (sym changed) (delete-IsWithin (is_file id) now db.files h)
  ]

  handle-IsWithin :
      (e : FileEvent) (now : Time) (db : Db)
      → IsFair e now db
      → IsWithin now db.files
      → IsWithin now (handle e now db).files
  handle-IsWithin (FileEvent.commits p cleaned) now db fair h =
      commit-IsWithin p cleaned now db h fair.0 fair.1
  handle-IsWithin (FileEvent.removes id user_id) now db fair h = remove-IsWithin id user_id now db h
  handle-IsWithin (FileEvent.restores id user_id) now db fair h =
      restore-IsWithin id user_id now db h
  handle-IsWithin (FileEvent.removes_late id) now db fair h = late_remove-IsWithin id now db fair h
  handle-IsWithin (FileEvent.restores_late p) now db fair h = late_restore-IsWithin p now db fair h
  handle-IsWithin (FileEvent.purges id user_id deleted) now db fair h =
      purge-IsWithin id user_id deleted now db h
  handle-IsWithin (FileEvent.erases f) now db fair h = delete-IsWithin (is_file f.id) now db.files h

  -- Whatever uploads, deletions, restorations, purges and sweeps run one after the other or at
  -- the same time, a workspace that starts within its storage limit stays within it, if the ids
  -- are unique, if each upload has a fresh id and has read no larger limit, and if no file runs
  -- out of its thirty days between the checks of a deletion or a restoration and its write.
  pub quota_kept :
      (t t' : Time) (db db' : Db)
      → Reaches t db t' db'
      → IsWithin t db.files
      → IsWithin t' db'.files
  quota_kept t t' db db' Reaches.start h = h
  quota_kept t t' db db' (Reaches.next {t' = before} {db' = between} run e now later fair) h =
      let k = quota_kept t before db between run h in
      handle-IsWithin e now between fair (record {
        keyed = k.keyed;
        fits = omega (arith, k.fits, usage_later before now w between.files later);
      })

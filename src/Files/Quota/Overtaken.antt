-- ===== src/Files/Quota/Overtaken.antt =====
-- A restoration that writes when its file has run out of its days: restore of src/file/file.service.ts.
use workspacebridge_backend.Base.{
  ◌+◌, ◌≤◌, ◌≡◌, false, none, some, List, [], ◌∷◌, arith, find, update_where, IsKeyed, ==_iff,
}
use workspacebridge_backend.Store.{Text, Time, File, Db}
use workspacebridge_backend.Files.{
  is_file, is_kept, usage, set_deleted, commit_restore, PendingRestore,
}
use workspacebridge_backend.Files.Quota.Usage.{usage-update_absent}

-- A file that has run out of its thirty days does not count; given back, it counts with its bytes.
usage-given_back :
    (now : Time) (w id : Text) (fs : List File) (f : File)
    → IsKeyed (λ f. f.id) fs
    → find (is_file id) fs ≡ some f
    → f.workspace_id ≡ w
    → is_kept now f ≡ false
    → usage now w (update_where (is_file id) (set_deleted none) fs) ≡ usage now w fs + f.size
unfolding usage update_where find
usage-given_back now w id [] f u e same aged = ground arith
usage-given_back now w id (k ∷ fs) f u e same aged = ground (
  arith,
  usage-given_back now w id fs f u.1,
  usage-update_absent now w id (set_deleted none) fs,
  ==_iff f.workspace_id w,
)

-- Without that condition the limit may be passed: a restoration that writes when its file has run out of
-- its days does not count the file in the quota, and adds its bytes.
pub late_restore_exceeds :
    (p : PendingRestore) (now : Time) (db : Db) (f : File)
    → IsKeyed (λ f. f.id) db.files
    → find (is_file p.file_id) db.files ≡ some f
    → f.workspace_id ≡ p.workspace_id
    → is_kept now f ≡ false
    → usage now p.workspace_id db.files ≤ p.limit
    → usage now p.workspace_id (commit_restore p now db).1.files
      ≡ usage now p.workspace_id db.files + f.size
unfolding commit_restore
late_restore_exceeds p now db f keyed e same aged fits =
    ground (arith, fits, usage-given_back now p.workspace_id p.file_id db.files f keyed e same aged)

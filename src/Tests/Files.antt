-- ===== src/Tests/Files.antt =====
-- Files at concrete inputs.
use workspacebridge_backend.Base.{
  ℕ, zero, suc, All, ◌+◌, ◌≡◌, refl, true, false, none, some, List, [], ◌∷◌, arith, ok, find, count,
  elem,
}
use workspacebridge_backend.Store.{Text, File, Db}
use workspacebridge_backend.Files.{
  usage, storage_limit, Upload, Formats, Pending, commit_upload, start_upload, verify_mime_type,
  remove, restore, start_remove, commit_remove, find_file, ensure_uploader_or_owner,
  owner_of_workspace,
}
use workspacebridge_backend.Files.Names.{
  trimmed_name, sanitize_filename, strip, trim_start, trim_end, truncate, slice_base, node_extname,
  last_part, from_last_dot,
}
use workspacebridge_backend.Files.Names.Safety.{IsSafe, sanitize_filename-IsSafe}
use workspacebridge_backend.Files.Uploads.{IsChecked, start_upload-IsChecked}
use workspacebridge_backend.Files.Trash.{restore-remove}
use workspacebridge_backend.Files.Quota.{FileEvent, handle, Reaches, IsWithin, IsFair, quota_kept}
use workspacebridge_backend.Files.Sweep.{process_expired, refused_batch_never_ends, next_batch}
use workspacebridge_backend.Files.Sweep.Ending.{IsSwept, sweep_ends}
use workspacebridge_backend.Teams.Workspaces.{ensure_workspace_access, get_workspace}
use workspacebridge_backend.Tests.Fixtures.{world, ana, office}

-- An `extname` that finds no extension.
abbrev no_extension : List ℕ → List ℕ
no_extension name = []

-- So many times the letter a, before a text.
abbrev letters : ℕ → List ℕ → List ℕ
letters zero text = text
letters (suc n) text = 97 ∷ letters n text

-- '.txt', behind a name that is cut to the limit of 255.
abbrev dot_txt : List ℕ
dot_txt = 46 ∷ 116 ∷ 120 ∷ 116 ∷ []

sanitize_filename-IsSafe_example :
    IsSafe node_extname (trimmed_name (32 ∷ letters 260 dot_txt)) (letters 251 dot_txt)
unfolding sanitize_filename trimmed_name strip trim_start trim_end truncate slice_base node_extname
    last_part from_last_dot elem
sanitize_filename-IsSafe_example =
    sanitize_filename-IsSafe (32 ∷ letters 260 dot_txt) (letters 251 dot_txt) refl

abbrev formats : Formats
formats = record {
  extname = no_extension;
  to_lower_case = λ name. 7;
  detect_file_type = λ buffer. none;
  storage_key = λ workspace_id file_id ext. file_id + 1000;
  allowed_extensions = 7 ∷ [];
  allowed_mime_types = [];
  text_based_extensions = 7 ∷ [];
  text_based_mime_types = 8 ∷ [];
}

abbrev note : Upload
note = record { original_name = 97 ∷ []; mime_type = 8; size = 3; buffer = 97 ∷ 98 ∷ 99 ∷ [] }

abbrev pending : Text → ℕ → Pending
pending id size = record {
  file_id = id;
  workspace_id = 30;
  user_id = 1;
  name = 97 ∷ [];
  size = size;
  storage_key = id + 1000;
  limit = 600;
}

start_upload-IsChecked_example :
    IsChecked formats 30 1 note 1000 world (record (pending 5 3) { limit = 524288000 })
unfolding start_upload ensure_workspace_access get_workspace verify_mime_type find elem
    sanitize_filename trimmed_name strip trim_start trim_end usage storage_limit
start_upload-IsChecked_example =
    start_upload-IsChecked formats 30 1 5 note true 1000 world
      (start_upload formats 30 1 (some note) 5 true 1000 world).1
      (record (pending 5 3) { limit = 524288000 }) refl

abbrev first : FileEvent
first = FileEvent.commits (pending 5 400) true

abbrev second : FileEvent
second = FileEvent.commits (pending 6 300) true

abbrev one_upload : Reaches 30 600 9 world 10 (handle first 10 world)
one_upload =
    let fair : IsFair 30 600 first 10 world = (unfold find in refl, λ e. omega arith) in
    Reaches.next Reaches.start first 10 (omega arith) fair

abbrev two_uploads : Reaches 30 600 9 world 11 (handle second 11 (handle first 10 world))
two_uploads =
    let fair : IsFair 30 600 second 11 (handle first 10 world) =
      (unfold commit_upload find usage in refl, λ e. omega arith) in
    Reaches.next one_upload second 11 (omega arith) fair

-- The first file is deleted, and a restoration that has waited for the lock gives it back.
abbrev third : FileEvent
third = FileEvent.removes 5 1

abbrev fourth : FileEvent
fourth = FileEvent.restores_late (record { file_id = 5; workspace_id = 30; limit = 600 })

abbrev in_trash : Db
in_trash = handle third 12 (handle second 11 (handle first 10 world))

fourth-IsFair : IsFair 30 600 fourth 13 in_trash
unfolding commit_upload remove start_remove commit_remove find_file ensure_uploader_or_owner
    owner_of_workspace find usage
fourth-IsFair = λ f e. ground arith

abbrev all_four : Reaches 30 600 9 world 13 (handle fourth 13 in_trash)
all_four =
    Reaches.next (Reaches.next two_uploads third 12 (omega arith) tt) fourth 13 (omega arith)
      fourth-IsFair

quota_kept_example : IsWithin 30 600 13 (handle fourth 13 in_trash).files
unfolding usage
quota_kept_example =
    quota_kept 30 600 9 13 world (handle fourth 13 in_trash) all_four
      (record { keyed = tt; fits = omega arith })

abbrev file : File
file = record {
  id = 5;
  workspace_id = 30;
  uploaded_by_id = some 1;
  name = 97 ∷ [];
  size = 3;
  storage_key = 1005;
  deleted_at = none;
  created_at = 100;
}

abbrev file_world : Db
file_world = record world { files = file ∷ [] }

restore-remove_example : restore 5 1 3000 (remove 5 1 2000 file_world).1 ≡ (ok tt, file_world)
restore-remove_example =
    restore-remove 5 1 2000 3000 file_world file office ana (unfold find in (refl, tt))
      (unfold find in refl) refl (record { exists = unfold find in refl; allowed = refl })
      (unfold find in refl) (unfold usage storage_limit in omega arith) (omega arith) (omega arith)

abbrev old_file : File
old_file = record file { deleted_at = some 200 }

abbrev old_world : Db
old_world = record world { files = old_file ∷ [] }

sweep_ends_example :
    (db' : Db) × (process_expired 2 (λ k. false) 3000000000 old_world ≡ some db')
    × IsSwept 3000000000 old_world db'
sweep_ends_example =
    sweep_ends (λ k. false) (λ k. refl) 3000000000 2 old_world (unfold find in (refl, tt))
      (unfold count in omega arith)

abbrev copies : ℕ → List File
copies zero = []
copies (suc n) = old_file ∷ copies n

-- A hundred files, all past their time.
abbrev full_world : Db
full_world = record world { files = copies 100 }

All-refused : (fs : List File) → All (λ f. true ≡ true) fs
All-refused [] = tt
All-refused (f ∷ fs) = (refl, All-refused fs)

refused_batch_never_ends_example : process_expired 1000 (λ k. true) 3000000000 full_world ≡ none
refused_batch_never_ends_example =
    refused_batch_never_ends (λ k. true) 3000000000 full_world 1000 (unfold count in omega arith)
      (All-refused (next_batch 3000000000 full_world))

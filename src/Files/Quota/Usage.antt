-- ===== src/Files/Quota/Usage.antt =====
-- The bytes that count in the quota of a workspace: getWorkspaceUsage of src/file/file.service.ts.
use workspacebridge_backend.Base.{
  ℕ, ◌+◌, ◌≤◌, ◌≡◌, refl, Bool, true, ◌&&◌, none, some, List, [], ◌∷◌, ◌++◌, arith, ◌==◌,
  if◌then◌else◌, find, update_where, delete_where, IsKeyed,
}
use workspacebridge_backend.Store.{Text, Time, File}
use workspacebridge_backend.Files.{is_file, is_kept, usage}

-- The bytes that a file takes of the quota of a workspace.
abbrev pub bytes : Time → Text → File → ℕ
bytes now w f = if f.workspace_id == w && is_kept now f then f.size else 0

pub usage-append :
    (now : Time) (w : Text) (fs : List File) (f : File)
    → usage now w (fs ++ f ∷ []) ≡ usage now w fs + bytes now w f
unfolding usage
usage-append now w [] f = ground arith
usage-append now w (g ∷ fs) f = ground (arith, usage-append now w fs f)

pub usage-delete_where-le :
    (now : Time) (w : Text) (q : File → Bool) (fs : List File)
    → usage now w (delete_where q fs) ≤ usage now w fs
unfolding usage delete_where
usage-delete_where-le now w q [] = omega arith
usage-delete_where-le now w q (f ∷ fs) = ground (arith, usage-delete_where-le now w q fs)

kept_before :
    (now later : Time) (f : File) → now ≤ later → is_kept later f ≡ true → is_kept now f ≡ true
kept_before now later f h k = ground arith

-- What is in the trash counts less and less.
pub usage_later :
    (now later : Time) (w : Text) (fs : List File) → now ≤ later → usage later w fs ≤ usage now w fs
unfolding usage
usage_later now later w [] h = omega arith
usage_later now later w (f ∷ fs) h =
    ground (arith, usage_later now later w fs h, kept_before now later f h)

pub usage-update_absent :
    (now : Time) (w id : Text) (g : File → File) (fs : List File)
    → find (is_file id) fs ≡ none
    → usage now w (update_where (is_file id) g fs) ≡ usage now w fs
unfolding usage update_where find
usage-update_absent now w id g [] e = refl
usage-update_absent now w id g (f ∷ fs) e = ground (arith, usage-update_absent now w id g fs)

-- A change of one file that takes no more bytes takes no more in all.
pub usage-update :
    (now : Time) (w id : Text) (g : File → File) (fs : List File) (f : File)
    → IsKeyed (λ f. f.id) fs
    → find (is_file id) fs ≡ some f
    → bytes now w (g f) ≤ bytes now w f
    → usage now w (update_where (is_file id) g fs) ≤ usage now w fs
unfolding usage update_where find
usage-update now w id g [] f u e h = ground arith
usage-update now w id g (k ∷ fs) f u e h =
    ground (arith, usage-update now w id g fs f u.1, usage-update_absent now w id g fs)

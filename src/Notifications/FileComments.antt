-- ===== src/Notifications/FileComments.antt =====
-- Comments on files: src/file/file-comment.service.ts.
pub mod Access
use workspacebridge_backend.Base.{
  ℕ, Bool, not, ◌&&◌, ◌||◌, Option, none, some, List, [], ◌∷◌, ◌++◌, ◌==◌, if◌then◌else◌, find,
  select, delete_where, pure, gets, or_throw, ◌>>=◌, ◌>>◌, throw_if, modify, bad_request, forbidden,
  not_found, internal,
}
use workspacebridge_backend.Store.{
  Text, File, FileComment, Db, Action, Reason, Room, Event, emit, forget_errors,
}
use workspacebridge_backend.Teams.Workspaces.{is_workspace, is_member}
use workspacebridge_backend.Teams.Tasks.{is_by}
use workspacebridge_backend.Files.Names.{is_empty}
use workspacebridge_backend.Files.{is_file, is_live, owner_of_workspace}
use workspacebridge_backend.Presence.{Registry}
use workspacebridge_backend.Notifications.{trim, notify_file_comment}

abbrev pub is_comment : Text → FileComment → Bool
is_comment id c = c.id == id

-- The workspace of a live file, for its owner and its members.
unfoldable pub ensure_file_access : Text → Text → Action Text
ensure_file_access file_id user_id = do
  files ← gets (λ db. db.files)
  f ← or_throw (find (is_file file_id) files) not_found Reason.file_not_found
  throw_if (not (is_live f)) not_found Reason.file_not_found
  owner_id ← owner_of_workspace f.workspace_id
  member ← gets (is_member f.workspace_id user_id)
  throw_if (not (owner_id == user_id) && not member) forbidden Reason.not_member
  pure f.workspace_id

unfoldable pub list : Text → Text → Action (List FileComment)
list file_id user_id = do
  ensure_file_access file_id user_id
  gets (λ db. select (λ c. c.file_id == file_id) db.file_comments)

-- The id of the comment, and those of the notifications, are drawn by the database. The event goes
-- out before the first query of the notifications is answered.
unfoldable pub create : (Text → Text) → Registry → Text → Text → Text → List ℕ → Action FileComment
create ids online id file_id user_id text = do
  workspace_id ← ensure_file_access file_id user_id
  let body = trim text
  throw_if (is_empty body) bad_request Reason.empty_body
  let c : FileComment = record { id = id; file_id = file_id; author_id = some user_id; body = body }
  modify λ db. record db { file_comments = db.file_comments ++ c ∷ [] }
  emit (Room.files_room workspace_id) (Event.comment_created id)
  forget_errors (notify_file_comment ids online file_id user_id body)
  pure c

-- The file of a comment: the relation is a foreign key.
unfoldable pub file_of : FileComment → Action File
file_of c = do
  files ← gets (λ db. db.files)
  or_throw (find (is_file c.file_id) files) internal Reason.record_not_found

unfoldable pub delete : Text → Text → Action Unit
unfolding file_of
delete comment_id user_id = do
  comments ← gets (λ db. db.file_comments)
  c ← or_throw (find (is_comment comment_id) comments) not_found Reason.comment_not_found
  f ← file_of c
  owner_id ← owner_of_workspace f.workspace_id
  throw_if (not (is_by user_id c.author_id) && not (owner_id == user_id)) forbidden
      Reason.author_or_owner_only
  modify λ db. record db { file_comments = delete_where (is_comment comment_id) db.file_comments }
  emit (Room.files_room f.workspace_id) (Event.comment_deleted comment_id)

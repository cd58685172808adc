-- ===== src/Admin.antt =====
-- The pages of an administrator: src/admin/admin.service.ts. The role guard stands before them.
pub mod Suspending
pub mod Resetting
pub mod Deleting
use workspacebridge_backend.Base.{
  ℕ, ◌+◌, Bool, true, false, not, ◌&&◌, ◌||◌, Option, none, some, List, [], ◌∷◌, ◌++◌, reverse,
  ◌==◌, if◌then◌else◌, is_some, take, find, select, count, update_where, delete_where, pure, gets,
  or_throw, ◌>>=◌, ◌>>◌, throw_if, modify, not_found, internal,
}
use workspacebridge_backend.Store.{
  Text, Time, User, UserRole, UserStatus, is_active, is_password_reset, Session, Token, TokenType,
  File, AuditEntry, Workspace, Db, Action, Reason, AdminAction, AuditAction, write_audit_log,
  send_mail,
}
use workspacebridge_backend.Auth.Login.{is_user, update_user}
use workspacebridge_backend.Auth.Sessions.{has_id, owned_by}
use workspacebridge_backend.Auth.EmailTokens.{reset_ttl_ms}
use workspacebridge_backend.Teams.Workspaces.{is_workspace, delete_workspace}
use workspacebridge_backend.Files.{is_file, is_live, delete_file, drop_object}
use workspacebridge_backend.Accounts.{is_owned_by}
use workspacebridge_backend.Accounts

abbrev pub audit : Text → AdminAction → Action Unit
audit actor action = write_audit_log (AuditAction.by_admin action) actor none

-- `user.findUnique` and its exception.
unfoldable pub get_user : Text → Action User
get_user id = do
  users ← gets (λ db. db.users)
  or_throw (find (is_user id) users) not_found Reason.user_not_found

abbrev pub set_role : UserRole → User → User
set_role role u = record u { role = role }

unfoldable pub update_user_role : Text → UserRole → Text → Action User
unfolding get_user
update_user_role id role actor = do
  u ← get_user id
  update_user id (set_role role)
  audit actor AdminAction.role_change
  pure (set_role role u)

-- What keeps the database from deleting a user: ON DELETE RESTRICT of the sessions, the accounts of
-- other providers and the workspaces.
abbrev pub is_referenced : Text → Db → Bool
is_referenced id db =
    is_some (find (owned_by id) db.sessions)
    || is_some (find (λ a. a.user_id == id) db.accounts)
    || is_some (find (is_owned_by id) db.workspaces)

unfoldable pub delete_user : Text → Text → Action Unit
unfolding get_user
delete_user id actor = do
  u ← get_user id
  referenced ← gets (is_referenced id)
  throw_if referenced internal Reason.still_referenced
  modify (Accounts.delete_user id)
  audit actor AdminAction.user_deletion

abbrev pub set_status : UserStatus → User → User
set_status status u = record u { status = status }

unfoldable pub update_user_status : Text → UserStatus → Text → Action User
unfolding get_user
update_user_status id status actor = do
  u ← get_user id
  update_user id (set_status status)
  modify λ db. record db {
    sessions = if is_active status then db.sessions else delete_where (owned_by id) db.sessions;
  }
  audit actor AdminAction.status_change
  pure (set_status status u)

abbrev pub is_reset_of : Text → Token → Bool
is_reset_of email t = t.email == email && is_password_reset t.type

-- The row that `adminResetPassword` writes: the token itself, not its hash.
abbrev pub plain_token : Text → Text → Time → Token
plain_token email token now = record {
  email = email;
  token = token;
  type = TokenType.password_reset;
  expires_in = now + reset_ttl_ms;
  user_id = none;
}

unfoldable pub admin_reset_password : Text → Text → Time → Text → Action Unit
unfolding get_user
admin_reset_password id token now actor = do
  u ← get_user id
  modify λ db. record db {
    tokens = delete_where (is_reset_of u.email) db.tokens ++ plain_token u.email token now ∷ [];
  }
  send_mail u.email (some token)
  audit actor AdminAction.reset_sent

abbrev pub set_verified : User → User
set_verified u = record u { is_verified = true }

unfoldable pub force_verify_user : Text → Text → Action User
unfolding get_user
force_verify_user id actor = do
  u ← get_user id
  update_user id set_verified
  audit actor AdminAction.force_verify
  pure (set_verified u)

unfoldable pub remove_workspace : Text → Text → Action Unit
remove_workspace id actor = do
  workspaces ← gets (λ db. db.workspaces)
  w ← or_throw (find (is_workspace id) workspaces) not_found Reason.workspace_not_found
  modify (delete_workspace id)
  audit actor AdminAction.workspace_deletion

unfoldable pub delete_session : Text → Text → Action Unit
delete_session id actor = do
  sessions ← gets (λ db. db.sessions)
  s ← or_throw (find (has_id id) sessions) not_found Reason.session_not_found
  modify λ db. record db { sessions = delete_where (has_id id) db.sessions }
  audit actor AdminAction.session_revoke

-- A storage that refuses is ignored; `deleted` says whether it obeys.
unfoldable pub remove_file : Text → Text → Bool → Action Unit
remove_file id actor deleted = do
  files ← gets (λ db. db.files)
  f ← or_throw (find (is_file id) files) not_found Reason.file_not_found
  (if deleted then drop_object f.storage_key else pure tt)
  modify (delete_file id)
  audit actor AdminAction.file_deletion

abbrev pub total_size : List File → ℕ
total_size [] = 0
total_size (f ∷ fs) = f.size + total_size fs

-- `getFileStats`: the files that are not in the trash, and their size.
unfoldable pub get_file_stats : Db → ℕ × ℕ
get_file_stats db = (count is_live db.files, total_size (select is_live db.files))

unfoldable pub get_audit_log : Db → List AuditEntry
get_audit_log db = take 200 (reverse db.audit_log)

-- ===== src/Accounts.antt =====
-- A user's own account: deleteOwnAccount, exportOwnData and getActivity of src/user/user.service.ts, with
-- the deletion rules of prisma/schema.prisma.
pub mod Deletion
pub mod Activity
use workspacebridge_backend.Base.{
  ℕ, ◌+◌, ◌-◌, ◌*◌, Bool, true, false, not, ◌&&◌, Option, none, some, List, [], ◌∷◌, ◌++◌, map,
  reverse, ltb, leb, ◌==◌, if◌then◌else◌, is_some, or_else, truthy, length, take, drop, find,
  select, count, update_where, delete_where, pure, gets, or_throw, ◌>>=◌, ◌>>◌, throw_if, modify,
  bad_request, unauthorized, not_found,
}
use workspacebridge_backend.Store.{
  Text, Time, User, Session, Account, BackupCode, Workspace, Member, PrivateTask, File, FileComment,
  SharedLink, SharedTask, Credential, AuditEntry, Deps, Db, Action, Reason, AuditAction,
  write_audit_log, is_auth_action,
}
use workspacebridge_backend.Auth.Login.{is_user}
use workspacebridge_backend.Teams.Workspaces.{delete_workspace, joined}
use workspacebridge_backend.Teams.Tasks.{is_by}

-- The columns that a deletion of the user sets to null.
abbrev pub forget_uploader : File → File
forget_uploader f = record f { uploaded_by_id = none }

abbrev pub forget_author : FileComment → FileComment
forget_author c = record c { author_id = none }

abbrev pub forget_adder : SharedLink → SharedLink
forget_adder l = record l { added_by_id = none }

abbrev pub forget_creator : SharedTask → SharedTask
forget_creator t = record t { created_by_id = none }

-- What the database deletes with a user (ON DELETE CASCADE), and unlinks (SET NULL).
unfoldable pub delete_user : Text → Db → Db
delete_user id db = record db {
  users = delete_where (is_user id) db.users;
  backup_codes = delete_where (λ c. c.user_id == id) db.backup_codes;
  credentials = delete_where (λ c. c.user_id == id) db.credentials;
  password_history = delete_where (λ p. p.user_id == id) db.password_history;
  members = delete_where (λ m. m.user_id == id) db.members;
  messages = delete_where (λ m. m.sender_id == id) db.messages;
  private_tasks = delete_where (λ t. t.user_id == id) db.private_tasks;
  notifications = delete_where (λ n. n.user_id == id) db.notifications;
  chat_reads = delete_where (λ r. r.user_id == id) db.chat_reads;
  file_views = delete_where (λ v. v.user_id == id) db.file_views;
  whiteboard_comments = delete_where (λ c. c.author_id == id) db.whiteboard_comments;
  whiteboard_versions = delete_where (λ v. v.created_by_id == id) db.whiteboard_versions;
  files = update_where (λ f. is_by id f.uploaded_by_id) forget_uploader db.files;
  file_comments = update_where (λ c. is_by id c.author_id) forget_author db.file_comments;
  shared_links = update_where (λ l. is_by id l.added_by_id) forget_adder db.shared_links;
  shared_tasks = update_where (λ t. is_by id t.created_by_id) forget_creator db.shared_tasks;
}

-- `workspace.deleteMany({ where: { ownerId } })`
unfoldable pub delete_workspaces : List Workspace → Db → Db
delete_workspaces [] db = db
delete_workspaces (w ∷ ws) db = delete_workspaces ws (delete_workspace w.id db)

abbrev pub is_owned_by : Text → Workspace → Bool
is_owned_by user_id w = w.owner_id == user_id

-- The transaction of `deleteOwnAccount`.
unfoldable pub erase_account : User → Db → Db
unfolding delete_workspaces delete_user
erase_account u db =
    let cleared = record db {
      sessions = delete_where (λ s. s.user_id == u.id) db.sessions;
      accounts = delete_where (λ a. a.user_id == u.id) db.accounts;
    } in
    let left = delete_workspaces (select (is_owned_by u.id) db.workspaces) cleared in
    delete_user u.id (record left { tokens = delete_where (λ t. t.email == u.email) left.tokens })

module _ (d : Deps) where
  unfoldable pub delete_own_account : Text → Option Text → Action Text
  delete_own_account user_id password = do
    users ← gets (λ db. db.users)
    u ← or_throw (find (is_user user_id) users) not_found Reason.user_not_found
    throw_if (truthy u.password && not (truthy password)) bad_request Reason.password_required
    throw_if
        (truthy u.password && not (d.argon2_verify (or_else u.password 0) (or_else password 0)))
        unauthorized Reason.invalid_password
    modify (erase_account u)
    write_audit_log AuditAction.account_deleted user_id none
    pure u.email

-- `min(max(limit, 1), 100)`
abbrev pub page_size : ℕ → ℕ
page_size limit = if ltb limit 1 then 1 else if ltb 100 limit then 100 else limit

abbrev pub safe_page : ℕ → ℕ
safe_page page = if ltb page 1 then 1 else page

pub record ActivityPage : Type 0 where
  pub items : List AuditEntry
  pub total : ℕ
  pub page : ℕ
  pub limit : ℕ
  pub has_more : Bool

abbrev pub is_entry_of : Text → AuditEntry → Bool
is_entry_of user_id e = e.actor_id == user_id

-- The rows of `getActivity`.
abbrev pub is_activity_of : Text → AuditEntry → Bool
is_activity_of user_id e = is_entry_of user_id e && is_auth_action e.action

unfoldable pub get_activity : Text → ℕ → ℕ → Db → ActivityPage
get_activity user_id page limit db =
    let size = page_size limit in
    let skip = (safe_page page - 1) * size in
    let rows = take size (drop skip (reverse (select (is_activity_of user_id) db.audit_log))) in
    let total = count (is_activity_of user_id) db.audit_log in
    record {
      items = rows;
      total = total;
      page = safe_page page;
      limit = size;
      has_more = ltb (skip + length rows) total;
    }

-- The document of `exportOwnData`: of the user, whether there is a password; of the backup codes, how
-- many there are and how many are used; the hashes of sessions, passwords and codes have no field.
pub record AccountExport : Type 0 where
  pub email : Text
  pub has_password : Bool
  pub two_factor_enabled : Bool
  pub backup_codes_total : ℕ
  pub backup_codes_used : ℕ
  pub passkeys : List (Option (List ℕ))
  pub linked_accounts : List (Text × Option Text)
  pub sessions : List (Option Text × Option Text × Time)
  pub activity : List AuditEntry
  pub owned : List Workspace
  pub member_of : List Workspace
  pub private_tasks : List PrivateTask

unfoldable pub export_own_data : Text → Action AccountExport
export_own_data user_id = do
  db ← gets (λ db. db)
  u ← or_throw (find (is_user user_id) db.users) not_found Reason.user_not_found
  write_audit_log AuditAction.data_exported user_id none
  pure (record {
    email = u.email;
    has_password = truthy u.password;
    two_factor_enabled = u.is_two_factor_enabled;
    backup_codes_total = count (λ c. c.user_id == user_id) db.backup_codes;
    backup_codes_used = count (λ c. c.user_id == user_id && is_some c.used_at) db.backup_codes;
    passkeys =
        map (λ c. c.name)
          (reverse (select (λ (c : Credential). c.user_id == user_id) db.credentials));
    linked_accounts =
        map (λ a. (a.provider, a.provider_account_id))
          (reverse (select (λ (a : Account). a.user_id == user_id) db.accounts));
    sessions =
        map (λ s. (s.ip, s.user_agent, s.expires_at))
          (reverse (select (λ (s : Session). s.user_id == user_id) db.sessions));
    activity = take 1000 (reverse (select (is_entry_of user_id) db.audit_log));
    owned = reverse (select (is_owned_by user_id) db.workspaces);
    member_of = joined db.workspaces (reverse (select (λ m. m.user_id == user_id) db.members));
    private_tasks = reverse (select (λ t. t.user_id == user_id) db.private_tasks);
  })

-- ===== src/Store/State.antt =====
-- The database as one state, with the e-mails that have been sent, what has been emitted to the sockets,
-- the keys in the object storage, and the reasons that the services give in their exceptions.
use workspacebridge_backend.Base.{Bool, true, false, Option, List, [], ◌∷◌, ◌++◌, Exec, modify, ok}
use workspacebridge_backend.Store.Rows.{
  Text, User, Session, Token, ExchangeCode, Attempt, PendingSetup, BackupCode, OldPassword, Account,
  Workspace, Member, Invite, SharedTask, PrivateTask, File, Message, Seen, Notification,
  FileComment, SharedLink, Whiteboard, WhiteboardComment, WhiteboardVersion, Credential,
}

pub data Reason : Type 0 where
  invalid_credentials account_locked too_many_attempts account_suspended not_verified : Reason
  invalid_refresh_token refresh_token_not_found refresh_token_expired : Reason
  invalid_exchange_code user_gone : Reason
  no_code_given invalid_session invalid_token_type two_factor_not_configured : Reason
  two_factor_not_enabled invalid_backup_code invalid_auth_code : Reason
  setup_missing setup_expired no_password_set invalid_password : Reason
  breached_password reused_current reused_recent wrong_account_type wrong_current_password : Reason
  password_already_set password_required invalid_verification_token verification_expired : Reason
  invalid_reset_token reset_token_expired invalid_email_link email_link_expired : Reason
  account_not_found same_email email_taken : Reason
  google_no_email google_unverified_email unverified_local_account : Reason
  workspace_not_found access_denied member_not_found not_member task_not_found not_your_task :
      Reason
  owner_only creator_or_owner_only invite_not_found invite_used invite_expired email_missing :
      Reason
  account_exists user_not_found session_not_found provider_not_linked last_sign_in_method : Reason
  file_required filename_required extension_not_allowed mime_not_allowed unknown_content : Reason
  binary_content file_too_large storage_limit file_not_found uploader_or_owner_only : Reason
  storage_failed notification_not_found record_not_found : Reason
  empty_body comment_not_found author_or_owner_only author_only : Reason
  link_not_found board_not_found version_not_found empty_name : Reason
  passkey_not_found passkey_unknown passkey_failed passkey_challenge_missing passkey_exists : Reason
  still_referenced : Reason

pub record Mail : Type 0 where
  pub to : Text
  pub token : Option Text

-- The actions that src/admin/admin.service.ts writes; none begins with 'auth.'.
pub data AdminAction : Type 0 where
  role_change user_deletion status_change reset_sent force_verify : AdminAction
  workspace_deletion session_revoke file_deletion : AdminAction

-- src/libs/common/audit/audit-actions.ts
pub data AuditAction : Type 0 where
  login google_login two_factor_login passkey_login new_device_login : AuditAction
  login_failed account_locked : AuditAction
  register google_register register_duplicate verification_resent : AuditAction
  account_linked provider_disconnected password_set : AuditAction
  email_change_requested email_changed : AuditAction
  backup_codes_regenerated backup_code_used passkey_registered passkey_removed : AuditAction
  account_deleted data_exported : AuditAction
  by_admin : AdminAction → AuditAction

-- The actions of `LOGIN_ACTIONS`, which represent a completed login.
abbrev pub is_login_action : AuditAction → Bool
is_login_action AuditAction.login = true
is_login_action AuditAction.google_login = true
is_login_action AuditAction.two_factor_login = true
is_login_action AuditAction.passkey_login = true
is_login_action _ = false

-- `startsWith: 'auth.'`
abbrev pub is_auth_action : AuditAction → Bool
is_auth_action (AuditAction.by_admin a) = false
is_auth_action _ = true

-- A row of the audit log: the columns that the login alerts query.
pub record AuditEntry : Type 0 where
  pub action : AuditAction
  pub actor_id : Text
  pub user_agent : Option Text

-- A room of the socket server, and what is emitted to it.
pub data Room : Type 0 where
  user_room chat_room files_room links_room board_room boards_room : Text → Room

pub data Event : Type 0 where
  notification comment_created comment_deleted link_created link_deleted : Text → Event
  board_created board_renamed board_deleted board_restored board_presented : Text → Event
  scene_updated new_message user_typing read_receipt : Text → Event

pub record Emission : Type 0 where
  pub room : Room
  pub event : Event

pub record Db : Type 0 where
  pub users : List User
  pub sessions : List Session
  pub tokens : List Token
  pub exchange_codes : List ExchangeCode
  pub attempts : List Attempt
  pub pending_setups : List PendingSetup
  pub backup_codes : List BackupCode
  pub password_history : List OldPassword
  pub accounts : List Account
  pub audit_log : List AuditEntry
  pub workspaces : List Workspace
  pub members : List Member
  pub invites : List Invite
  pub shared_tasks : List SharedTask
  pub private_tasks : List PrivateTask
  pub files : List File
  pub messages : List Message
  pub chat_reads : List Seen
  pub file_views : List Seen
  pub notifications : List Notification
  pub file_comments : List FileComment
  pub shared_links : List SharedLink
  pub whiteboards : List Whiteboard
  pub whiteboard_comments : List WhiteboardComment
  pub whiteboard_versions : List WhiteboardVersion
  pub credentials : List Credential
  pub outbox : List Mail
  pub emitted : List Emission
  pub objects : List Text

abbrev pub empty_db : Db
empty_db = record {
  users = [];
  sessions = [];
  tokens = [];
  exchange_codes = [];
  attempts = [];
  pending_setups = [];
  backup_codes = [];
  password_history = [];
  accounts = [];
  audit_log = [];
  workspaces = [];
  members = [];
  invites = [];
  shared_tasks = [];
  private_tasks = [];
  files = [];
  messages = [];
  chat_reads = [];
  file_views = [];
  notifications = [];
  file_comments = [];
  shared_links = [];
  whiteboards = [];
  whiteboard_comments = [];
  whiteboard_versions = [];
  credentials = [];
  outbox = [];
  emitted = [];
  objects = [];
}

-- A handler over the database.
abbrev pub Action : Type 0 → Type 0
Action A = Exec Db Reason A

-- `writeAuditLog`: an entry for the actor; the write never fails the request.
abbrev pub write_audit_log : AuditAction → Text → Option Text → Action Unit
write_audit_log action actor user_agent = modify λ db. record db {
  audit_log =
      db.audit_log ++ record { action = action; actor_id = actor; user_agent = user_agent } ∷ [];
}

-- `mailService.send…`: the mail goes out; a failure to send never fails the request.
abbrev pub send_mail : Text → Option Text → Action Unit
send_mail to token =
    modify λ db. record db { outbox = db.outbox ++ record { to = to; token = token } ∷ [] }

-- `server.to(room).emit(event)`
abbrev pub emit : Room → Event → Action Unit
emit room event =
    modify λ db. record db { emitted = db.emitted ++ record { room = room; event = event } ∷ [] }

-- `void promise.catch(…)`: what the action writes stays, its exception is logged.
abbrev pub forget_errors : {A : Type 0} → Action A → Action Unit
forget_errors m db = (ok tt, (m db).1)

-- ===== src/Store/Rows.antt =====
-- prisma/schema.prisma: the enums and the rows of the tables. Ids, e-mail addresses, hashes, keys
-- and other texts that the code only compares are numbers; times are milliseconds.
use workspacebridge_backend.Base.{ℕ, Bool, true, false, Option, List}

abbrev pub Text : Type 0
Text = ℕ

abbrev pub Time : Type 0
Time = ℕ

pub data UserRole : Type 0 where
  freelancer client admin : UserRole

pub data UserPlan : Type 0 where
  free pro business : UserPlan

pub data UserStatus : Type 0 where
  active suspended : UserStatus

pub data AuthMethod : Type 0 where
  credentials google : AuthMethod

pub data TokenType : Type 0 where
  verification two_factor password_reset email_change : TokenType

pub data TaskStatus : Type 0 where
  todo in_progress done : TaskStatus

pub data MemberRole : Type 0 where
  freelancer client : MemberRole

pub record User : Type 0 where
  pub id : Text
  pub email : Text
  pub password : Option Text
  pub is_verified : Bool
  pub is_two_factor_enabled : Bool
  pub two_factor_secret : Option Text
  pub failed_login_attempts : ℕ
  pub locked_until : Option Time
  pub role : UserRole
  pub plan : UserPlan
  pub status : UserStatus
  pub method : AuthMethod

pub record Session : Type 0 where
  pub id : Text
  pub user_id : Text
  pub refresh_token : Text
  pub previous_refresh_token : Option Text
  pub token_rotated_at : Option Time
  pub ip : Option Text
  pub user_agent : Option Text
  pub expires_at : Time

pub record Token : Type 0 where
  pub email : Text
  pub token : Text
  pub type : TokenType
  pub expires_in : Time
  pub user_id : Option Text

pub record ExchangeCode : Type 0 where
  pub code : Text
  pub user_id : Text
  pub expires_at : Time

pub record Attempt : Type 0 where
  pub jti : Text
  pub user_id : Text
  pub attempts : ℕ
  pub consumed : Bool
  pub expires_at : Time

pub record PendingSetup : Type 0 where
  pub user_id : Text
  pub secret : Text
  pub expires_at : Time

pub record BackupCode : Type 0 where
  pub id : Text
  pub user_id : Text
  pub code : Text
  pub used_at : Option Time

pub record OldPassword : Type 0 where
  pub id : Text
  pub user_id : Text
  pub password : Text

pub record Account : Type 0 where
  pub provider : Text
  pub provider_account_id : Option Text
  pub user_id : Text

pub record Workspace : Type 0 where
  pub id : Text
  pub name : Text
  pub owner_id : Text

pub record Member : Type 0 where
  pub workspace_id : Text
  pub user_id : Text
  pub role : MemberRole

pub record Invite : Type 0 where
  pub token : Text
  pub email : Option Text
  pub workspace_id : Text
  pub expires_at : Time
  pub used_at : Option Time

pub record SharedTask : Type 0 where
  pub id : Text
  pub workspace_id : Text
  pub created_by_id : Option Text
  pub title : Text
  pub status : TaskStatus

pub record PrivateTask : Type 0 where
  pub id : Text
  pub user_id : Text
  pub workspace_id : Option Text
  pub title : Text
  pub status : TaskStatus

-- The name of a file is the list of its UTF-16 code units.
pub record File : Type 0 where
  pub id : Text
  pub workspace_id : Text
  pub uploaded_by_id : Option Text
  pub name : List ℕ
  pub size : ℕ
  pub storage_key : Text
  pub deleted_at : Option Time
  pub created_at : Time

-- `Message`, with its code units and the time that the unread counts compare.
pub record Message : Type 0 where
  pub id : Text
  pub workspace_id : Text
  pub sender_id : Text
  pub content : List ℕ
  pub created_at : Time

-- `ChatRead` and `FileView`: how far a user has read a workspace.
pub record Seen : Type 0 where
  pub workspace_id : Text
  pub user_id : Text
  pub at : Time

pub data NotificationType : Type 0 where
  new_message file_comment whiteboard_comment : NotificationType

-- Of the JSON column `data`, who acted and the preview.
pub record Notification : Type 0 where
  pub id : Text
  pub user_id : Text
  pub workspace_id : Text
  pub type : NotificationType
  pub actor_id : Text
  pub preview : List ℕ
  pub is_read : Bool

pub record FileComment : Type 0 where
  pub id : Text
  pub file_id : Text
  pub author_id : Option Text
  pub body : List ℕ

pub record SharedLink : Type 0 where
  pub id : Text
  pub workspace_id : Text
  pub added_by_id : Option Text
  pub url : Text
  pub title : Option Text

-- The three JSON columns of a board and of its versions; `none` is the JSON null.
pub record Scene : Type 0 where
  pub elements : Text
  pub app_state : Option Text
  pub files : Option Text

pub record Whiteboard : Type 0 where
  pub id : Text
  pub workspace_id : Text
  pub name : List ℕ
  pub scene : Scene

pub record WhiteboardComment : Type 0 where
  pub id : Text
  pub whiteboard_id : Text
  pub element_id : Text
  pub author_id : Text
  pub body : List ℕ

pub data VersionType : Type 0 where
  manual auto : VersionType

pub record WhiteboardVersion : Type 0 where
  pub id : Text
  pub whiteboard_id : Text
  pub scene : Scene
  pub label : Option (List ℕ)
  pub type : VersionType
  pub created_by_id : Text
  pub created_at : Time

-- A passkey.
pub record Credential : Type 0 where
  pub id : Text
  pub user_id : Text
  pub credential_id : Text
  pub public_key : Text
  pub counter : ℕ
  pub name : Option (List ℕ)
  pub last_used_at : Option Time

-- `status === UserStatus.ACTIVE`
abbrev pub is_active : UserStatus → Bool
is_active UserStatus.active = true
is_active UserStatus.suspended = false

-- `method === 'CREDENTIALS'`
abbrev pub is_credentials : AuthMethod → Bool
is_credentials AuthMethod.credentials = true
is_credentials AuthMethod.google = false

-- `type === t` for the two types that the handlers test.
abbrev pub is_verification : TokenType → Bool
is_verification TokenType.verification = true
is_verification _ = false

abbrev pub is_email_change : TokenType → Bool
is_email_change TokenType.email_change = true
is_email_change _ = false

abbrev pub is_password_reset : TokenType → Bool
is_password_reset TokenType.password_reset = true
is_password_reset _ = false

-- ===== src/Notifications.antt =====
-- Notifications: src/notification/notification.service.ts.
pub mod Recipients
pub mod Delivery
pub mod Own
pub mod FileComments
use workspacebridge_backend.Base.{
  ℕ, ◌-◌, Bool, true, false, not, ◌&&◌, Option, none, some, List, [], ◌∷◌, ◌++◌, reverse, ltb, ◌==◌,
  if◌then◌else◌, is_some, or_else, truthy, length, take, find, select, count, update_where,
  delete_where, elem, pure, gets, throw_if, modify, ◌>>=◌, ◌>>◌, not_found,
}
use workspacebridge_backend.Store.{
  Text, MemberRole, User, Whiteboard, Member, Notification, NotificationType, Db, Action, Reason,
  Room, Event, emit, send_mail,
}
use workspacebridge_backend.Auth.Login.{is_user}
use workspacebridge_backend.Teams.Workspaces.{is_workspace}
use workspacebridge_backend.Files.Names.{is_space, trim_start, trim_end, is_empty}
use workspacebridge_backend.Files.{is_file}
use workspacebridge_backend.Presence.{Registry, is_online}

abbrev pub default_limit : ℕ
default_limit = 20

abbrev pub preview_max_length : ℕ
preview_max_length = 140

-- `text.trim()`
unfoldable pub trim : List ℕ → List ℕ
trim text = trim_end is_space (trim_start is_space text)

-- The ellipsis, one code unit.
abbrev pub ellipsis : ℕ
ellipsis = 8230

unfoldable pub truncate : List ℕ → ℕ → List ℕ
unfolding trim
truncate text max =
    let trimmed = trim text in
    if ltb max (length trimmed) then take (max - 1) trimmed ++ ellipsis ∷ [] else trimmed

abbrev pub is_notification_of : Text → Notification → Bool
is_notification_of user_id n = n.user_id == user_id

abbrev pub is_own : Text → Text → Notification → Bool
is_own user_id id n = n.id == id && n.user_id == user_id

abbrev pub is_unread : Text → Notification → Bool
is_unread user_id n = n.user_id == user_id && not n.is_read

abbrev pub set_read : Notification → Notification
set_read n = record n { is_read = true }

-- What comes after the row of a cursor; nothing does when there is no such row.
unfoldable pub after_row : Text → List Notification → List Notification
after_row id [] = []
after_row id (n ∷ ns) = if n.id == id then ns else after_row id ns

unfoldable pub list : Text → Option ℕ → Option Text → Db → List Notification
list user_id limit cursor db =
    let newest = reverse (select (is_notification_of user_id) db.notifications) in
    take (or_else limit default_limit)
      (if truthy cursor then after_row (or_else cursor 0) newest else newest)

unfoldable pub unread_count : Text → Db → ℕ
unread_count user_id db = count (is_unread user_id) db.notifications

unfoldable pub mark_read : Text → Text → Action Unit
mark_read user_id id = do
  changed ← gets (λ db. count (is_own user_id id) db.notifications)
  modify
      λ db. record db { notifications = update_where (is_own user_id id) set_read db.notifications }
  throw_if (changed == 0) not_found Reason.notification_not_found

unfoldable pub mark_all_read : Text → Action ℕ
mark_all_read user_id = do
  changed ← gets (λ db. count (is_unread user_id) db.notifications)
  modify
      λ db. record db { notifications = update_where (is_unread user_id) set_read db.notifications }
  pure changed

-- An entry of the map from a user's id to their address and role.
pub record Recipient : Type 0 where
  pub user_id : Text
  pub email : Text
  pub role : MemberRole

abbrev pub is_recipient : Text → Recipient → Bool
is_recipient user_id r = r.user_id == user_id

-- `Map.set`: an old key keeps its place.
unfoldable pub set_recipient : Recipient → List Recipient → List Recipient
set_recipient r [] = r ∷ []
set_recipient r (x ∷ xs) = if x.user_id == r.user_id then r ∷ xs else x ∷ set_recipient r xs

-- The members of a workspace with their users, in order (the relation is a foreign key).
unfoldable pub add_members : Text → List User → List Member → List Recipient → List Recipient
unfolding set_recipient
add_members workspace_id users [] rs = rs
add_members workspace_id users (m ∷ ms) rs = add_members workspace_id users ms (
    if m.workspace_id == workspace_id
    then elim (find (is_user m.user_id) users) [
      | none ↦ rs
      | some u ↦ set_recipient (record { user_id = u.id; email = u.email; role = m.role }) rs
    ]
    else rs)

abbrev pub owner_entry : User → List Recipient
owner_entry u = record { user_id = u.id; email = u.email; role = MemberRole.freelancer } ∷ []

-- `none` when there is no such workspace.
unfoldable pub resolve_recipients : Text → Text → Db → Option (List Recipient)
unfolding add_members
resolve_recipients workspace_id exclude_user_id db =
    elim (find (is_workspace workspace_id) db.workspaces) [
      | none ↦ none
      | some w ↦ elim (find (is_user w.owner_id) db.users) [
        | none ↦ none
        | some u ↦ some (
            delete_where (is_recipient exclude_user_id)
              (add_members workspace_id db.users db.members (owner_entry u)))
      ]
    ]

-- Of a message, the workspace and what the rows share.
pub record Notice : Type 0 where
  pub workspace_id : Text
  pub type : NotificationType
  pub actor_id : Text
  pub preview : List ℕ

-- `ids` are the ids that the database gives to the rows of the recipients.
abbrev pub notification_row : (Text → Text) → Notice → Recipient → Notification
notification_row ids n r = record {
  id = ids r.user_id;
  user_id = r.user_id;
  workspace_id = n.workspace_id;
  type = n.type;
  actor_id = n.actor_id;
  preview = n.preview;
  is_read = false;
}

-- A row for the recipient, pushed live; an e-mail if they are away.
unfoldable pub deliver : (Text → Text) → Registry → Notice → Recipient → Action Unit
deliver ids online n r = do
  modify λ db. record db { notifications = db.notifications ++ notification_row ids n r ∷ [] }
  emit (Room.user_room r.user_id) (Event.notification (ids r.user_id))
  if is_online r.user_id online then pure tt else send_mail r.email none

unfoldable pub dispatch : (Text → Text) → Registry → Notice → List Recipient → Action Unit
unfolding deliver
dispatch ids online n [] = pure tt
dispatch ids online n (r ∷ rs) = do deliver ids online n r; dispatch ids online n rs

-- `recipients.delete` of each viewer.
unfoldable pub without : List Text → List Recipient → List Recipient
without [] rs = rs
without (v ∷ vs) rs = without vs (delete_where (is_recipient v) rs)

unfoldable pub notify_new_message :
    (Text → Text) → Registry → Text → Text → List ℕ → List Text → Action Unit
notify_new_message ids online workspace_id sender_id content active_viewer_ids = do
  resolved ← gets (resolve_recipients workspace_id sender_id)
  elim resolved [
    | none ↦ pure tt
    | some rs ↦
        dispatch ids online
          (record {
            workspace_id = workspace_id;
            type = NotificationType.new_message;
            actor_id = sender_id;
            preview = truncate content preview_max_length;
          })
          (without active_viewer_ids rs)
  ]

-- A comment on something in a workspace: everyone but the commenter.
unfoldable pub notify_members :
    (Text → Text) → Registry → NotificationType → Text → Text → List ℕ → Action Unit
notify_members ids online type workspace_id commenter_id body = do
  resolved ← gets (resolve_recipients workspace_id commenter_id)
  elim resolved [
    | none ↦ pure tt
    | some rs ↦
        dispatch ids online
          (record {
            workspace_id = workspace_id;
            type = type;
            actor_id = commenter_id;
            preview = truncate body preview_max_length;
          })
          rs
  ]

unfoldable pub notify_file_comment : (Text → Text) → Registry → Text → Text → List ℕ → Action Unit
unfolding notify_members
notify_file_comment ids online file_id commenter_id body = do
  files ← gets (λ db. db.files)
  elim (find (is_file file_id) files) [
    | none ↦ pure tt
    | some f ↦
        notify_members ids online NotificationType.file_comment f.workspace_id commenter_id body
  ]

abbrev pub is_board : Text → Whiteboard → Bool
is_board id b = b.id == id

unfoldable pub notify_whiteboard_comment :
    (Text → Text) → Registry → Text → Text → List ℕ → Action Unit
unfolding notify_members
notify_whiteboard_comment ids online whiteboard_id commenter_id body = do
  boards ← gets (λ db. db.whiteboards)
  elim (find (is_board whiteboard_id) boards) [
    | none ↦ pure tt
    | some b ↦
        notify_members ids online NotificationType.whiteboard_comment b.workspace_id commenter_id
          body
  ]

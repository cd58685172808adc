-- ===== src/Admin/Deleting.antt =====
-- When an administrator can delete a user: deleteUser of src/admin/admin.service.ts.
use workspacebridge_backend.Base.{
  ◌≡◌, refl, false, none, some, arith, ok, err, internal, ◌==◌, find, count, find-delete_where_self,
  find-update_where_hit, find-fits, count-delete_where_self,
}
use workspacebridge_backend.Store.{Text, User, Session, UserStatus, Db, Reason}
use workspacebridge_backend.Auth.Login.{is_user}
use workspacebridge_backend.Auth.Sessions.{owned_by}
use workspacebridge_backend.Accounts
use workspacebridge_backend.Accounts.{is_owned_by}
use workspacebridge_backend.Admin.{
  get_user, set_status, update_user_status, is_referenced, delete_user,
}
use workspacebridge_backend.Admin.Suspending.{suspended_db, suspended_lem}

-- A user with a session is not deleted: the database refuses, and nothing is written.
pub session_blocks_deletion :
    (id actor : Text) (db : Db) (u : User) (s : Session)
    → find (is_user id) db.users ≡ some u
    → find (owned_by id) db.sessions ≡ some s
    → delete_user id actor db ≡ (err internal Reason.still_referenced, db)
unfolding delete_user get_user
session_blocks_deletion id actor db u s e owned = ground arith

deleted :
    (id actor : Text) (db : Db) (u : User)
    → find (is_user id) db.users ≡ some u
    → is_referenced id db ≡ false
    → let out = delete_user id actor db in
      (out.0 ≡ ok tt)
      × (find (is_user id) out.1.users ≡ none)
      × (count (λ m. m.sender_id == id) out.1.messages ≡ 0)
unfolding delete_user get_user Accounts.delete_user
deleted id actor db u e free = (
  ground arith,
  ground (arith, find-delete_where_self (is_user id) db.users),
  ground (arith, count-delete_where_self (λ m. m.sender_id == id) db.messages),
)

-- A user with no account of another provider and no workspace is deleted once they are suspended first,
-- which ends their sessions; then neither the user nor a message of theirs is left.
pub suspend_then_delete :
    (id actor : Text) (db : Db) (u : User)
    → find (is_user id) db.users ≡ some u
    → find (λ a. a.user_id == id) db.accounts ≡ none
    → find (is_owned_by id) db.workspaces ≡ none
    → let suspended = update_user_status id UserStatus.suspended actor db in
      let out = delete_user id actor suspended.1 in
      (out.0 ≡ ok tt)
      × (find (is_user id) out.1.users ≡ none)
      × (count (λ m. m.sender_id == id) out.1.messages ≡ 0)
suspend_then_delete id actor db u e no_accounts no_workspaces = rw (suspended_lem id actor db u e) (
    deleted id actor (suspended_db id actor db) (set_status UserStatus.suspended u)
      (find-update_where_hit (is_user id) (is_user id) (set_status UserStatus.suspended) db.users u
        (λ x. refl) e (find-fits (is_user id) db.users u e))
      (rw (find-delete_where_self (owned_by id) db.sessions, no_accounts, no_workspaces) refl))

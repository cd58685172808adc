-- ===== src/Auth/Passwords.antt =====
-- Passwords: src/libs/common/services/password-history.service.ts, the check of
-- password-breach.service.ts, and the password part of src/user/user.service.ts.
pub mod History
use workspacebridge_backend.Base.{
  ℕ, Bool, true, false, not, ◌&&◌, ◌||◌, Option, none, some, List, [], ◌∷◌, ◌++◌, map, reverse, ltb,
  ◌==◌, if◌then◌else◌, or_else, truthy, take, drop, find, select, delete_where, elem, pure, gets,
  or_throw, ◌>>=◌, ◌>>◌, throw_if, modify, bad_request, not_found,
}
use workspacebridge_backend.Store.{
  Text, User, OldPassword, Deps, Action, Reason, AuditAction, write_audit_log, send_mail,
}
use workspacebridge_backend.Auth.Login.{is_user, update_user}

abbrev pub history_limit : ℕ
history_limit = 5

abbrev pub is_old_password_of : Text → OldPassword → Bool
is_old_password_of user_id o = o.user_id == user_id

-- The remembered passwords of a user, newest first.
abbrev pub newest_first : Text → List OldPassword → List OldPassword
newest_first user_id history = reverse (select (is_old_password_of user_id) history)

abbrev pub old_ids : List OldPassword → List Text
old_ids = map λ o. o.id

-- The history after an entry has been added and the user's entries beyond the limit are pruned.
unfoldable pub remember : Text → OldPassword → List OldPassword → List OldPassword
remember user_id entry history =
    let all = history ++ entry ∷ [] in
    delete_where (λ o. elem o.id (old_ids (drop history_limit (newest_first user_id all)))) all

-- `PasswordHistoryService.record`
unfoldable pub record_password : Text → Option Text → Text → Action Unit
record_password user_id replaced id =
    if not (truthy replaced)
    then pure tt
    else modify λ db. record db {
      password_history =
          remember user_id (record { id = id; user_id = user_id; password = or_else replaced 0 })
            db.password_history;
    }

abbrev pub set_hash : Text → User → User
set_hash h u = record u { password = some h }

module _ (d : Deps) where
  -- One of the hashes is that of the password.
  unfoldable pub matches_any : Text → List OldPassword → Bool
  matches_any password [] = false
  matches_any password (o ∷ os) = d.argon2_verify o.password password || matches_any password os

  unfoldable pub assert_not_reused : Text → Text → Option Text → Action Unit
  assert_not_reused user_id new_password current = do
    throw_if (truthy current && d.argon2_verify (or_else current 0) new_password) bad_request
        Reason.reused_current
    history ← gets (λ db. db.password_history)
    throw_if (matches_any new_password (take history_limit (newest_first user_id history)))
        bad_request Reason.reused_recent

  -- `isBreached`: the service answered with a count above zero.
  unfoldable pub assert_not_breached : Text → Action Unit
  assert_not_breached password =
      throw_if (ltb 0 (d.breach_count password)) bad_request Reason.breached_password

  -- `changePassword`, with the id of the history row and the salt of the new hash.
  unfoldable pub change_password : Text → Text → Text → Text → Text → Action Unit
  unfolding assert_not_breached assert_not_reused record_password
  change_password id current new entry_id salt = do
    users ← gets (λ db. db.users)
    u ← or_throw (find (is_user id) users) bad_request Reason.wrong_account_type
    throw_if (not (truthy u.password)) bad_request Reason.wrong_account_type
    throw_if (not (d.argon2_verify (or_else u.password 0) current)) bad_request
        Reason.wrong_current_password
    assert_not_breached new
    assert_not_reused id new u.password
    record_password id u.password entry_id
    update_user id (set_hash (d.argon2_hash salt new))

  -- `setPassword`, for an account that has none.
  unfoldable pub set_password : Text → Text → Text → Action Unit
  unfolding assert_not_breached
  set_password id new salt = do
    users ← gets (λ db. db.users)
    u ← or_throw (find (is_user id) users) not_found Reason.user_not_found
    throw_if (truthy u.password) bad_request Reason.password_already_set
    assert_not_breached new
    update_user id (set_hash (d.argon2_hash salt new))
    write_audit_log AuditAction.password_set id none
    send_mail u.email none

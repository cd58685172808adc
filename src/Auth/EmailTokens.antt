-- ===== src/Auth/EmailTokens.antt =====
-- The one-time tokens that go out by e-mail: verification, password reset and change of address in
-- src/auth/auth.service.ts, with registration.
pub mod Reset
pub mod Registration
use workspacebridge_backend.Base.{
  ℕ, ◌+◌, ◌*◌, Bool, true, false, not, ◌&&◌, ◌||◌, Option, none, some, List, [], ◌∷◌, ◌++◌, map,
  ltb, ◌==◌, if◌then◌else◌, is_some, or_else, truthy, find, select, update_where, delete_where,
  elem, pure, throw, gets, or_throw, ◌>>=◌, ◌>>◌, throw_if, modify, Result, ok, err, bad_request,
  unauthorized, not_found, conflict, internal,
}
use workspacebridge_backend.Store.{
  Text, Time, User, UserRole, UserPlan, UserStatus, AuthMethod, Session, Token, TokenType, Deps, Db,
  Action, Reason, AuditAction, is_verification, is_password_reset, is_email_change, is_credentials,
  write_audit_log, send_mail,
}
use workspacebridge_backend.Auth.Login.{has_email, is_user, update_user}
use workspacebridge_backend.Auth.Passwords.{
  assert_not_breached, assert_not_reused, record_password, set_hash,
}

abbrev pub verification_ttl_ms : ℕ
verification_ttl_ms = 24 * 60 * 60 * 1000

abbrev pub reset_ttl_ms : ℕ
reset_ttl_ms = 60 * 60 * 1000

abbrev pub has_token : Text → Token → Bool
has_token hash t = t.token == hash

abbrev pub add_token : Token → Action Unit
add_token t = modify λ db. record db { tokens = db.tokens ++ t ∷ [] }

abbrev pub delete_tokens : (Token → Bool) → Action Unit
delete_tokens p = modify λ db. record db { tokens = delete_where p db.tokens }

abbrev pub verify_row : User → User
verify_row u = record u { is_verified = true }

abbrev pub set_email : Text → User → User
set_email email u = record u { email = email }

-- `user.update({ where: { email } })`, which fails when there is no such row.
abbrev pub update_by_email : Text → (User → User) → Action Unit
update_by_email email f = do
  users ← gets (λ db. db.users)
  throw_if (not (is_some (find (has_email email) users))) internal Reason.record_not_found
  modify λ db. record db { users = update_where (has_email email) f db.users }

-- `session.deleteMany({ where: { user: { email } } })`
abbrev pub is_session_of : List User → Text → Session → Bool
is_session_of users email s = elem s.user_id (map (λ u. u.id) (select (has_email email) users))

abbrev pub create_user : User → Action Unit
create_user u = modify λ db. record db { users = db.users ++ u ∷ [] }

-- Work that runs in the background: the request succeeds whatever comes of it.
abbrev pub in_background : Action Unit → Action Unit
in_background m db = (ok tt, (m db).1)

-- The transaction at the end of `resetPassword`: the new hash, and every session of the address.
unfoldable pub replace_password : Text → Text → Action Unit
replace_password email hash = do
  update_by_email email (set_hash hash)
  modify λ db. record db { sessions = delete_where (is_session_of db.users email) db.sessions }

abbrev pub is_change_of : Text → Token → Bool
is_change_of user_id t =
    (elim t.user_id [ none ↦ false | some k ↦ k == user_id ]) && is_email_change t.type

-- The address is somebody else's.
abbrev pub is_taken : Text → Text → List User → Bool
is_taken email id users = elim (find (has_email email) users) [
  | none ↦ false
  | some other ↦ not (other.id == id)
]

-- The switch of the address, with the alert to the old one.
unfoldable pub switch_email : User → Text → Text → Action Unit
switch_email u new_email hash = do
  users ← gets (λ db. db.users)
  (if is_taken new_email u.id users
      then delete_tokens (has_token hash) >> throw conflict Reason.email_taken
      else pure tt)
  update_user u.id (set_email new_email)
  send_mail u.email none
  write_audit_log AuditAction.email_changed u.id none

module _ (d : Deps) where
  abbrev pub verification_token : Text → Text → Time → Token
  verification_token email plain now = record {
    email = email;
    token = d.sha256 plain;
    type = TokenType.verification;
    expires_in = now + verification_ttl_ms;
    user_id = none;
  }

  -- An older verification token of the address is dropped; only the hash is stored.
  unfoldable pub create_verification_token : Text → Text → Time → Action Unit
  create_verification_token email plain now = do
    delete_tokens (λ t. t.email == email && is_verification t.type)
    add_token (verification_token email plain now)

  unfoldable pub verify_email : Text → Time → Action Unit
  verify_email plain now = do
    tokens ← gets (λ db. db.tokens)
    t ←
        or_throw (find (has_token (d.sha256 plain)) tokens) bad_request
          Reason.invalid_verification_token
    throw_if (not (is_verification t.type)) bad_request Reason.invalid_verification_token
    (if ltb t.expires_in now
        then delete_tokens (has_token (d.sha256 plain))
          >> throw bad_request Reason.verification_expired
        else pure tt)
    update_by_email t.email verify_row
    delete_tokens (has_token (d.sha256 plain))

  -- The background work of `resendVerification`; its errors reach only the log.
  unfoldable pub process_resend_verification_work : Text → Text → Time → Action Unit
  unfolding create_verification_token
  process_resend_verification_work email plain now = do
    users ← gets (λ db. db.users)
    elim (find (has_email email) users) [
      | none ↦ pure tt
      | some u ↦
          if u.is_verified || not (is_credentials u.method)
          then pure tt
          else create_verification_token u.email plain now
            >> (send_mail u.email (some plain)
                >> write_audit_log AuditAction.verification_resent u.id none)
    ]

  unfoldable pub resend_verification : Text → Text → Time → Action Unit
  unfolding process_resend_verification_work
  resend_verification email plain now =
      in_background (process_resend_verification_work email plain now)

  -- `UserService.create` with the defaults of the schema.
  abbrev pub new_user : Text → Text → Text → Text → User
  new_user id email password salt = record {
    id = id;
    email = email;
    password = if password == 0 then none else some (d.argon2_hash salt password);
    is_verified = false;
    is_two_factor_enabled = false;
    two_factor_secret = none;
    failed_login_attempts = 0;
    locked_until = none;
    role = UserRole.freelancer;
    plan = UserPlan.free;
    status = UserStatus.active;
    method = AuthMethod.credentials;
  }

  -- `registerUser`, with the id of the new user, the salt of the hash and the plain token.
  unfoldable pub register_user : Text → Text → Text → Text → Text → Time → Action Unit
  unfolding assert_not_breached create_verification_token
  register_user email password id salt plain now = do
    assert_not_breached d password
    users ← gets (λ db. db.users)
    elim (find (has_email email) users) [
      | some u ↦ send_mail u.email none >> write_audit_log AuditAction.register_duplicate u.id none
      | none ↦
          create_user (new_user id email password salt)
          >> (create_verification_token email plain now
              >> (send_mail email (some plain) >> write_audit_log AuditAction.register id none))
    ]

  abbrev pub reset_token : Text → Text → Time → Token
  reset_token email plain now = record {
    email = email;
    token = d.sha256 plain;
    type = TokenType.password_reset;
    expires_in = now + reset_ttl_ms;
    user_id = none;
  }

  unfoldable pub process_forgot_password_work : Text → Text → Time → Action Unit
  process_forgot_password_work email plain now = do
    users ← gets (λ db. db.users)
    elim (find (has_email email) users) [
      | none ↦ pure tt
      | some u ↦
          if not u.is_verified
          then pure tt
          else delete_tokens (λ t. t.email == email && is_password_reset t.type)
            >> (add_token (reset_token email plain now) >> send_mail email (some plain))
    ]

  unfoldable pub forgot_password : Text → Text → Time → Action Unit
  unfolding process_forgot_password_work
  forgot_password email plain now = in_background (process_forgot_password_work email plain now)

  -- `resetPassword`, with the id of the history row and the salt of the new hash.
  unfoldable pub reset_password : Text → Text → Text → Text → Time → Action Unit
  unfolding assert_not_breached
  reset_password plain password entry_id salt now = do
    assert_not_breached d password
    tokens ← gets (λ db. db.tokens)
    t ← or_throw (find (has_token (d.sha256 plain)) tokens) bad_request Reason.invalid_reset_token
    throw_if (ltb t.expires_in now) bad_request Reason.reset_token_expired
    users ← gets (λ db. db.users)
    u ← or_throw (find (has_email t.email) users) bad_request Reason.invalid_reset_token
    assert_not_reused d u.id password u.password
    delete_tokens (has_token (d.sha256 plain))
    record_password u.id u.password entry_id
    replace_password t.email (d.argon2_hash salt password)

  abbrev pub email_change_token : Text → Text → Text → Time → Token
  email_change_token user_id email plain now = record {
    email = email;
    token = d.sha256 plain;
    type = TokenType.email_change;
    expires_in = now + reset_ttl_ms;
    user_id = some user_id;
  }

  unfoldable pub request_email_change : Text → Text → Text → Text → Time → Action Unit
  request_email_change user_id new_email password plain now = do
    users ← gets (λ db. db.users)
    u ← or_throw (find (is_user user_id) users) not_found Reason.user_not_found
    throw_if (not (truthy u.password)) bad_request Reason.no_password_set
    throw_if (not (d.argon2_verify (or_else u.password 0) password)) unauthorized
        Reason.invalid_password
    throw_if (new_email == u.email) bad_request Reason.same_email
    throw_if (is_some (find (has_email new_email) users)) conflict Reason.email_taken
    delete_tokens (is_change_of user_id)
    add_token (email_change_token user_id new_email plain now)
    send_mail new_email (some plain)
    write_audit_log AuditAction.email_change_requested user_id none

  unfoldable pub confirm_email_change : Text → Time → Action Unit
  unfolding switch_email
  confirm_email_change plain now = do
    tokens ← gets (λ db. db.tokens)
    t ← or_throw (find (has_token (d.sha256 plain)) tokens) bad_request Reason.invalid_email_link
    throw_if (not (is_email_change t.type) || not (truthy t.user_id)) bad_request
        Reason.invalid_email_link
    (if ltb t.expires_in now
        then delete_tokens (has_token (d.sha256 plain))
          >> throw bad_request Reason.email_link_expired
        else pure tt)
    users ← gets (λ db. db.users)
    (if is_some (find (is_user (or_else t.user_id 0)) users)
        then pure tt
        else delete_tokens (has_token (d.sha256 plain))
          >> throw bad_request Reason.account_not_found)
    u ← or_throw (find (is_user (or_else t.user_id 0)) users) bad_request Reason.account_not_found
    (if u.email == t.email then pure tt else switch_email u t.email (d.sha256 plain))
    delete_tokens (has_token (d.sha256 plain))

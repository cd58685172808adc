-- ===== src/Auth/Login.antt =====
-- Password login with lockout: registerFailedLogin and loginUser of src/auth/auth.service.ts.
pub mod Lockout
pub mod Success
use workspacebridge_backend.Base.{
  ℕ, ◌+◌, ◌*◌, ◌/◌, Bool, true, false, not, ◌&&◌, ◌||◌, Option, none, some, List, [], ◌∷◌, ◌++◌,
  ltb, leb, ◌==◌, if◌then◌else◌, is_some, or_else, truthy, find, update_where, pure, throw, gets,
  or_throw, ◌>>=◌, ◌>>◌, throw_if, modify, when, unauthorized, internal,
}
use workspacebridge_backend.Store.{
  Text, Time, User, Attempt, Deps, Db, Action, Reason, AuditAction, is_active, is_credentials,
  write_audit_log,
}
use workspacebridge_backend.Auth.Sessions.{Client, Nonce, TokenPair, access_payload, open_session}
use workspacebridge_backend.Auth.Alerts.{handle_successful_login}

abbrev pub max_failed_login_attempts : ℕ
max_failed_login_attempts = 5

abbrev pub lockout_duration_ms : ℕ
lockout_duration_ms = 15 * 60 * 1000

abbrev pub temp_token_ttl_ms : ℕ
temp_token_ttl_ms = 5 * 60 * 1000

abbrev pub has_email : Text → User → Bool
has_email email u = u.email == email

abbrev pub is_user : Text → User → Bool
is_user id u = u.id == id

abbrev pub update_user : Text → (User → User) → Action Unit
update_user id f = modify λ db. record db { users = update_where (is_user id) f db.users }

abbrev pub count_failure : User → User
count_failure u = record u { failed_login_attempts = u.failed_login_attempts + 1 }

abbrev pub lock_until : Time → User → User
lock_until t u = record u { locked_until = some t }

-- The atomic increment, then the lock once the count has reached the threshold.
unfoldable pub register_failed_login : Text → Time → Action Bool
register_failed_login id now = do
  update_user id count_failure
  users ← gets (λ db. db.users)
  u ← or_throw (find (is_user id) users) internal Reason.record_not_found
  let locked = leb max_failed_login_attempts u.failed_login_attempts
  when locked (update_user id (lock_until (now + lockout_duration_ms)))
  pure locked

abbrev pub is_locked : Time → User → Bool
is_locked now u = elim u.locked_until [ none ↦ false | some t ↦ ltb now t ]

abbrev pub clear_failures : User → User
clear_failures u = record u { failed_login_attempts = 0; locked_until = none }

pub record LoginRequest : Type 0 where
  pub email : Text
  pub password : Text
  pub remember_me : Bool
  pub client : Client

pub data LoginOutcome : Type 0 where
  two_factor_required : Text → LoginOutcome
  logged_in : TokenPair → LoginOutcome

-- The account that a password can be checked for.
unfoldable pub password_account : Text → List User → Option User
password_account email users = elim (find (has_email email) users) [
  | none ↦ none
  | some u ↦ if is_credentials u.method && truthy u.password then some u else none
]

-- The wrong-password branch of `loginUser`.
unfoldable pub reject_password : User → Client → Time → Action LoginOutcome
reject_password u c now = do
  locked ← register_failed_login u.id now
  write_audit_log (if locked then AuditAction.account_locked else AuditAction.login_failed) u.id
      c.user_agent
  throw unauthorized (if locked then Reason.too_many_attempts else Reason.invalid_credentials)

abbrev pub refuse_locked : User → Client → Action LoginOutcome
refuse_locked u c =
    write_audit_log AuditAction.login_failed u.id c.user_agent
    >> throw unauthorized Reason.account_locked

module _ (d : Deps) where
  abbrev pub temp_token : User → Bool → Text → Time → Text
  temp_token u remember_me jti now =
      d.sign d.jwt_secret
        (record (access_payload u) {
          remember_me = some remember_me;
          is_two_factor_authenticated = some false;
          jti = some jti;
        })
        (temp_token_ttl_ms / 1000) now

  -- The pre-auth token of the password step, with the row that counts its guesses.
  unfoldable pub start_two_factor : User → Bool → Text → Time → Action LoginOutcome
  start_two_factor u remember_me jti now = do
    modify λ db. record db {
      attempts =
          db.attempts
          ++ record {
            jti = jti;
            user_id = u.id;
            attempts = 0;
            consumed = false;
            expires_at = now + temp_token_ttl_ms;
          }
            ∷ [];
    }
    pure (two_factor_required (temp_token u remember_me jti now))

  -- The session of a login that needs no second factor.
  unfoldable pub finish_login : User → LoginRequest → Nonce → Time → Action LoginOutcome
  finish_login u r n now = do
    tokens ← open_session d u n r.remember_me r.client now
    handle_successful_login AuditAction.login u.id u.email r.client
    pure (logged_in tokens)

  -- What follows a correct password.
  unfoldable pub complete_login : User → LoginRequest → Nonce → Text → Time → Action LoginOutcome
  complete_login u r n jti now = do
    throw_if (not (is_active u.status)) unauthorized Reason.account_suspended
    when (ltb 0 u.failed_login_attempts || is_some u.locked_until) (update_user u.id clear_failures)
    throw_if (not u.is_verified) unauthorized Reason.not_verified
    if u.is_two_factor_enabled
        then start_two_factor u r.remember_me jti now
        else finish_login u r n now

  unfoldable pub login_user : LoginRequest → Nonce → Text → Time → Action LoginOutcome
  login_user r n jti now = do
    users ← gets (λ db. db.users)
    u ← or_throw (password_account r.email users) unauthorized Reason.invalid_credentials
    if is_locked now u
        then refuse_locked u r.client
        else if d.argon2_verify (or_else u.password 0) r.password
        then complete_login u r n jti now
        else reject_password u r.client now

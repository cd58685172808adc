-- ===== src/Auth/TwoFactor.antt =====
-- Two-factor authentication: src/auth/two-factor-auth.service.ts.
pub mod Guesses
pub mod Burn
pub mod Eviction
use workspacebridge_backend.Base.{
  ℕ, ◌+◌, ◌-◌, ◌*◌, Bool, true, false, not, ◌&&◌, ◌||◌, Option, none, some, List, [], ◌∷◌, ◌++◌,
  map, ltb, leb, ◌==◌, if◌then◌else◌, is_some, or_else, truthy, length, take, find, select,
  update_where, delete_where, pure, throw, gets, or_throw, ◌>>=◌, ◌>>◌, throw_if, modify, Exec,
  bad_request, unauthorized, internal,
}
use workspacebridge_backend.Store.{
  Text, Time, User, Session, Attempt, PendingSetup, BackupCode, Deps, Db, Action, Reason,
  AuditAction, is_active, write_audit_log,
}
use workspacebridge_backend.Auth.Sessions.{
  Client, Nonce, TokenPair, owned_by, session_ids, delete_sessions, new_session, sign_tokens,
  session_ttl_ms,
}
use workspacebridge_backend.Auth.Alerts.{handle_successful_login}
use workspacebridge_backend.Auth.Login.{is_user, update_user}

abbrev pub max_verify_attempts_per_token : ℕ
max_verify_attempts_per_token = 5

abbrev pub pending_setup_ttl_ms : ℕ
pending_setup_ttl_ms = 15 * 60 * 1000

abbrev pub has_jti : Text → Attempt → Bool
has_jti jti a = a.jti == jti

abbrev pub is_setup_of : Text → PendingSetup → Bool
is_setup_of user_id s = s.user_id == user_id

abbrev pub is_code_of : Text → BackupCode → Bool
is_code_of user_id c = c.user_id == user_id

-- `isTwoFactorAuthenticated === false`
abbrev pub is_pre_auth : Option Bool → Bool
is_pre_auth (some false) = true
is_pre_auth _ = false

-- The row that counts the guesses against one pre-auth token, while it can still be used.
abbrev pub is_usable : Time → Attempt → Bool
is_usable now a = not a.consumed && not (ltb a.expires_at now)

abbrev pub find_usable : Text → Time → List Attempt → Option Attempt
find_usable jti now attempts = elim (find (has_jti jti) attempts) [
  | none ↦ none
  | some a ↦ if is_usable now a then some a else none
]

-- `registerFailedVerifyAttempt(jti, priorAttempts)`: the count was read earlier.
abbrev pub failed_row : ℕ → Attempt → Attempt
failed_row prior a = record a {
  attempts = prior + 1;
  consumed = leb max_verify_attempts_per_token (prior + 1);
}

unfoldable pub register_failed_verify_attempt : Text → ℕ → Action Unit
register_failed_verify_attempt jti prior =
    modify λ db. record db { attempts = update_where (has_jti jti) (failed_row prior) db.attempts }

abbrev pub consumed_row : Attempt → Attempt
consumed_row a = record a { consumed = true }

-- `findFirst` of the user in the state ACTIVE.
abbrev pub find_active : Text → List User → Option User
find_active id users = elim (find (is_user id) users) [
  | none ↦ none
  | some u ↦ if is_active u.status then some u else none
]

abbrev pub has_two_factor : User → Bool
has_two_factor u = u.is_two_factor_enabled && truthy u.two_factor_secret

-- The sessions after the eviction that the 2FA login makes room with.
unfoldable pub evict_oldest : Text → List Session → List Session
evict_oldest user_id sessions =
    let own = select (owned_by user_id) sessions in
    if leb 10 (length own)
    then delete_sessions (session_ids (take (length own - 9) own)) sessions
    else sessions

-- A code as it is generated: the id of its row, and its plain text.
abbrev pub PlainCode : Type 0
PlainCode = Text × Text

-- The staged secret replaces an older one of the same user.
unfoldable pub generate_and_store_secret : Text → Text → Time → Action Unit
generate_and_store_secret user_id encrypted now = modify λ db. record db {
  pending_setups =
      delete_where (is_setup_of user_id) db.pending_setups
      ++ record { user_id = user_id; secret = encrypted; expires_at = now + pending_setup_ttl_ms }
        ∷ [];
}

abbrev pub drop_setup : Text → Action Unit
drop_setup user_id =
    modify λ db. record db { pending_setups = delete_where (is_setup_of user_id) db.pending_setups }

abbrev pub enable_row : Text → User → User
enable_row secret u = record u { is_two_factor_enabled = true; two_factor_secret = some secret }

-- The transaction that promotes the staged secret: both writes or, without the user, none.
unfoldable pub promote_secret : Text → Text → Action Unit
promote_secret user_id secret = do
  users ← gets (λ db. db.users)
  throw_if (not (is_some (find (is_user user_id) users))) internal Reason.record_not_found
  update_user user_id (enable_row secret)
  drop_setup user_id

abbrev pub disable_row : User → User
disable_row u = record u { is_two_factor_enabled = false; two_factor_secret = none }

-- An unused code of the user with this hash.
abbrev pub is_unused : Text → Text → BackupCode → Bool
is_unused user_id hash c = c.user_id == user_id && (c.code == hash && not (is_some c.used_at))

abbrev pub used_row : Time → BackupCode → BackupCode
used_row now c = record c { used_at = some now }

unfoldable pub consume : Text → Action Unit
consume jti =
    modify λ db. record db { attempts = update_where (has_jti jti) consumed_row db.attempts }

pub record VerifyRequest : Type 0 where
  pub temp_token : Text
  pub code : Option Text
  pub backup_code : Option Text
  pub client : Client

module _ (d : Deps) where
  abbrev pub hash_backup_code : Text → Text
  hash_backup_code code = d.sha256 (d.strip_dash code)

  abbrev pub backup_row : Text → PlainCode → BackupCode
  backup_row user_id (id, code) = record {
    id = id;
    user_id = user_id;
    code = hash_backup_code code;
    used_at = none;
  }

  -- Replaces the user's whole set of codes.
  unfoldable pub store_backup_codes : Text → List PlainCode → Action Unit
  store_backup_codes user_id codes = do
    modify λ db. record db { backup_codes = delete_where (is_code_of user_id) db.backup_codes }
    modify λ db. record db { backup_codes = db.backup_codes ++ map (backup_row user_id) codes }

  unfoldable pub regenerate_backup_codes :
      Text → Text → List PlainCode → Time → Action (List PlainCode)
  regenerate_backup_codes user_id totp_code codes now = do
    users ← gets (λ db. db.users)
    u ← or_throw (find (is_user user_id) users) bad_request Reason.two_factor_not_enabled
    throw_if (not (has_two_factor u)) bad_request Reason.two_factor_not_enabled
    throw_if (not (d.totp_verify (or_else u.two_factor_secret 0) totp_code now)) unauthorized
        Reason.invalid_auth_code
    store_backup_codes user_id codes
    write_audit_log AuditAction.backup_codes_regenerated user_id none
    pure codes

  unfoldable pub enable_two_factor : Text → Text → List PlainCode → Time → Action (List PlainCode)
  unfolding promote_secret store_backup_codes
  enable_two_factor user_id code codes now = do
    setups ← gets (λ db. db.pending_setups)
    s ← or_throw (find (is_setup_of user_id) setups) bad_request Reason.setup_missing
    (if ltb s.expires_at now
        then drop_setup user_id >> throw bad_request Reason.setup_expired
        else pure tt)
    throw_if (not (d.totp_verify s.secret code now)) unauthorized Reason.invalid_auth_code
    promote_secret user_id s.secret
    store_backup_codes user_id codes
    pure codes

  unfoldable pub disable_two_factor : Text → Text → Text → Time → Action Unit
  disable_two_factor user_id code password now = do
    users ← gets (λ db. db.users)
    u ← or_throw (find (is_user user_id) users) bad_request Reason.two_factor_not_enabled
    throw_if (not (has_two_factor u)) bad_request Reason.two_factor_not_enabled
    throw_if (not (truthy u.password)) bad_request Reason.no_password_set
    throw_if (not (d.argon2_verify (or_else u.password 0) password)) unauthorized
        Reason.invalid_password
    throw_if (not (d.totp_verify (or_else u.two_factor_secret 0) code now)) unauthorized
        Reason.invalid_auth_code
    update_user user_id disable_row
    modify λ db. record db { backup_codes = delete_where (is_code_of user_id) db.backup_codes }

  -- The recovery-code path of the second step.
  unfoldable pub check_backup_code : User → Attempt → Text → Client → Time → Action Unit
  unfolding register_failed_verify_attempt
  check_backup_code u a code c now = do
    codes ← gets (λ db. db.backup_codes)
    elim (find (is_unused u.id (hash_backup_code code)) codes) [
      | none ↦
          register_failed_verify_attempt a.jti a.attempts
          >> throw unauthorized Reason.invalid_backup_code
      | some stored ↦
          modify (λ db. record db {
            backup_codes = update_where (λ b. b.id == stored.id) (used_row now) db.backup_codes;
          })
          >> write_audit_log AuditAction.backup_code_used u.id c.user_agent
    ]

  -- The authenticator path.
  unfoldable pub check_totp : User → Attempt → Text → Time → Action Unit
  unfolding register_failed_verify_attempt
  check_totp u a code now =
      if d.totp_verify (or_else u.two_factor_secret 0) code now
      then pure tt
      else register_failed_verify_attempt a.jti a.attempts
        >> throw unauthorized Reason.invalid_auth_code

  unfoldable pub check_second_factor :
      User → Attempt → Option Text → Option Text → Client → Time → Action Unit
  check_second_factor u a code backup_code c now =
      if truthy backup_code
      then check_backup_code u a (or_else backup_code 0) c now
      else check_totp u a (or_else code 0) now

  -- The session that completes the login, and the alert.
  unfoldable pub finish_two_factor : User → Bool → Nonce → Client → Time → Action TokenPair
  unfolding evict_oldest
  finish_two_factor u remember_me n c now = do
    modify λ db. record db { sessions = evict_oldest u.id db.sessions }
    modify λ db. record db { sessions = db.sessions ++ new_session d u n remember_me c now ∷ [] }
    handle_successful_login AuditAction.two_factor_login u.id u.email c
    pure (sign_tokens d u n.session_id remember_me now)

  unfoldable pub verify_two_factor : VerifyRequest → Nonce → Time → Action TokenPair
  verify_two_factor r n now = do
    throw_if (not (truthy r.code) && not (truthy r.backup_code)) bad_request Reason.no_code_given
    p ← or_throw (d.verify d.jwt_secret now r.temp_token) unauthorized Reason.invalid_session
    throw_if (not (is_pre_auth p.is_two_factor_authenticated) || not (truthy p.jti)) unauthorized
        Reason.invalid_token_type
    attempts ← gets (λ db. db.attempts)
    a ← or_throw (find_usable (or_else p.jti 0) now attempts) unauthorized Reason.invalid_session
    users ← gets (λ db. db.users)
    u ← or_throw (find_active p.user_id users) unauthorized Reason.account_suspended
    throw_if (not (has_two_factor u)) bad_request Reason.two_factor_not_configured
    check_second_factor u a r.code r.backup_code r.client now
    consume (or_else p.jti 0)
    finish_two_factor u (or_else p.remember_me false) n r.client now

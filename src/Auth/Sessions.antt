-- ===== src/Auth/Sessions.antt =====
-- Sessions and refresh tokens: src/auth/auth.service.ts (session issue, enforceSessionLimit,
-- refresh, logout), src/auth/auth.constants.ts and the session part of src/user/user.service.ts.
pub mod Limit
pub mod Rotation
use workspacebridge_backend.Base.{
  ℕ, ◌+◌, ◌-◌, ◌*◌, ◌/◌, Bool, true, false, not, ◌&&◌, Option, none, some, List, [], ◌∷◌, ◌++◌, map,
  ltb, leb, ◌==◌, if◌then◌else◌, or_else, truthy, length, take, find, select, count, update_where,
  delete_where, elem, pure, throw, gets, or_throw, ◌>>=◌, ◌>>◌, throw_if, modify, unauthorized,
  not_found,
}
use workspacebridge_backend.Store.{
  Text, Time, User, Session, JwtPayload, Deps, Action, Reason, is_active,
}

abbrev pub remember_me_ttl_ms : ℕ
remember_me_ttl_ms = 30 * 24 * 60 * 60 * 1000

abbrev pub default_session_ttl_ms : ℕ
default_session_ttl_ms = 24 * 60 * 60 * 1000

abbrev pub max_sessions_per_user : ℕ
max_sessions_per_user = 10

abbrev pub refresh_grace_period_ms : ℕ
refresh_grace_period_ms = 30 * 1000

unfoldable pub session_ttl_ms : Bool → ℕ
session_ttl_ms remember_me = if remember_me then remember_me_ttl_ms else default_session_ttl_ms

-- The sessions of a user, oldest first.
abbrev pub owned_by : Text → Session → Bool
owned_by user_id s = s.user_id == user_id

abbrev pub session_ids : List Session → List Text
session_ids = map λ s. s.id

-- `deleteMany({ where: { id: { in: ids } } })`
abbrev pub delete_sessions : List Text → List Session → List Session
delete_sessions ids = delete_where λ s. elem s.id ids

-- The table after `enforceSessionLimit`.
unfoldable pub enforce_limit : Text → List Session → List Session
enforce_limit user_id sessions =
    let own = select (owned_by user_id) sessions in
    if leb max_sessions_per_user (length own)
    then delete_sessions (session_ids (take (length own - max_sessions_per_user + 1) own)) sessions
    else sessions

unfoldable pub enforce_session_limit : Text → Action Unit
enforce_session_limit user_id =
    modify λ db. record db { sessions = enforce_limit user_id db.sessions }

-- The caller's address and device.
pub record Client : Type 0 where
  pub ip : Option Text
  pub user_agent : Option Text

-- The random values of one login: the session id and the salt of the token's hash.
pub record Nonce : Type 0 where
  pub session_id : Text
  pub salt : Text

pub record TokenPair : Type 0 where
  pub access_token : Text
  pub refresh_token : Text
  pub remember_me : Bool

abbrev pub access_payload : User → JwtPayload
access_payload u = record {
  user_id = u.id;
  email = u.email;
  role = u.role;
  session_id = none;
  remember_me = none;
  is_two_factor_authenticated = none;
  jti = none;
}

abbrev pub refresh_payload : User → Text → Bool → JwtPayload
refresh_payload u session_id remember_me = record (access_payload u) {
  session_id = some session_id;
  remember_me = some remember_me;
}

abbrev pub has_id : Text → Session → Bool
has_id id s = s.id == id

abbrev pub delete_session : Text → Action Unit
delete_session id = modify λ db. record db { sessions = delete_where (has_id id) db.sessions }

abbrev pub user_is_active : Option User → Bool
user_is_active none = false
user_is_active (some u) = is_active u.status

abbrev pub rotated_payload : JwtPayload → Session → JwtPayload
rotated_payload p s = record {
  user_id = p.user_id;
  email = p.email;
  role = p.role;
  session_id = some s.id;
  remember_me = some (or_else p.remember_me false);
  is_two_factor_authenticated = none;
  jti = none;
}

abbrev pub is_current : Option Text → Session → Bool
is_current none s = false
is_current (some id) s = s.id == id

abbrev pub is_other : Option Text → Session → Bool
is_other none s = true
is_other (some id) s = if id == 0 then true else not (s.id == id)

-- `UserService.revokeSession`
unfoldable pub revoke_session : Text → Text → Action Unit
revoke_session user_id session_id = do
  sessions ← gets (λ db. db.sessions)
  s ← or_throw (find (has_id session_id) sessions) not_found Reason.session_not_found
  throw_if (not (s.user_id == user_id)) not_found Reason.session_not_found
  delete_session session_id

module _ (d : Deps) where
  -- The access token and the refresh token of a login.
  unfoldable pub sign_tokens : User → Text → Bool → Time → TokenPair
  unfolding session_ttl_ms
  sign_tokens u session_id remember_me now = record {
    access_token = d.sign d.jwt_secret (access_payload u) d.access_expires_in now;
    refresh_token =
        d.sign d.jwt_refresh_secret (refresh_payload u session_id remember_me)
          (session_ttl_ms remember_me / 1000) now;
    remember_me = remember_me;
  }

  abbrev pub new_session : User → Nonce → Bool → Client → Time → Session
  new_session u n remember_me c now = record {
    id = n.session_id;
    user_id = u.id;
    refresh_token = d.argon2_hash n.salt (sign_tokens u n.session_id remember_me now).refresh_token;
    previous_refresh_token = none;
    token_rotated_at = none;
    ip = c.ip;
    user_agent = c.user_agent;
    expires_at = now + session_ttl_ms remember_me;
  }

  -- The end of a login: make room, then store the session.
  unfoldable pub open_session : User → Nonce → Bool → Client → Time → Action TokenPair
  unfolding enforce_session_limit sign_tokens session_ttl_ms
  open_session u n remember_me c now = do
    enforce_session_limit u.id
    modify λ db. record db { sessions = db.sessions ++ new_session u n remember_me c now ∷ [] }
    pure (sign_tokens u n.session_id remember_me now)

  -- The presented token is the one before the last rotation, and that was moments ago.
  unfoldable pub is_grace_hit : Session → Text → Time → Bool
  is_grace_hit s token now = elim s.previous_refresh_token [
    | none ↦ false
    | some previous ↦ elim s.token_rotated_at [
      | none ↦ false
      | some rotated ↦ ltb (now - rotated) refresh_grace_period_ms && d.argon2_verify previous token
    ]
  ]

  -- Step 3 of `refresh`: does the token match, now or in the grace window? If not, the session is
  -- revoked. The answer says whether the match was a grace hit.
  unfoldable pub match_token : Session → Text → Time → Action Bool
  match_token s token now =
      if d.argon2_verify s.refresh_token token
      then pure false
      else if is_grace_hit s token now
      then pure true
      else delete_session s.id >> throw unauthorized Reason.invalid_refresh_token

  -- Step 5 of `refresh`.
  unfoldable pub rotated_tokens : JwtPayload → Session → Time → TokenPair
  unfolding session_ttl_ms
  rotated_tokens p s now = record {
    access_token =
        d.sign d.jwt_secret (record (rotated_payload p s) { session_id = none; remember_me = none })
          d.access_expires_in now;
    refresh_token =
        d.sign d.jwt_refresh_secret (rotated_payload p s)
          (session_ttl_ms (or_else p.remember_me false) / 1000) now;
    remember_me = or_else p.remember_me false;
  }

  -- Step 6 of `refresh`: the row of the session after the rotation.
  unfoldable pub rotate : JwtPayload → Session → Text → Bool → Time → Session → Session
  unfolding rotated_tokens session_ttl_ms
  rotate p s salt grace_hit now row = record row {
    previous_refresh_token = if grace_hit then s.previous_refresh_token else some s.refresh_token;
    refresh_token = d.argon2_hash salt (rotated_tokens p s now).refresh_token;
    token_rotated_at = some now;
    expires_at = now + session_ttl_ms (or_else p.remember_me false);
  }

  unfoldable pub refresh : Text → Text → Time → Action TokenPair
  unfolding match_token
  refresh token salt now = do
    p ← or_throw (d.verify d.jwt_refresh_secret now token) unauthorized Reason.invalid_refresh_token
    throw_if (not (truthy p.session_id)) unauthorized Reason.invalid_refresh_token
    sessions ← gets (λ db. db.sessions)
    s ←
        or_throw (find (has_id (or_else p.session_id 0)) sessions) unauthorized
          Reason.refresh_token_not_found
    throw_if (not (s.user_id == p.user_id)) unauthorized Reason.refresh_token_not_found
    grace_hit ← match_token s token now
    throw_if (ltb s.expires_at now) unauthorized Reason.refresh_token_expired
    users ← gets (λ db. db.users)
    (if user_is_active (find (λ u. u.id == p.user_id) users)
        then pure tt
        else delete_session s.id >> throw unauthorized Reason.account_suspended)
    modify λ db. record db {
      sessions = update_where (has_id s.id) (rotate p s salt grace_hit now) db.sessions;
    }
    pure (rotated_tokens p s now)

  -- `logout` succeeds whatever the token; a valid one closes its session.
  unfoldable pub logout : Text → Time → Action Unit
  logout token now = elim (d.verify d.jwt_refresh_secret now token) [
    | none ↦ pure tt
    | some p ↦ if truthy p.session_id then delete_session (or_else p.session_id 0) else pure tt
  ]

  -- `UserService.resolveCurrentSessionId`
  unfoldable pub resolve_current_session_id : Option Text → Time → Option Text
  resolve_current_session_id none now = none
  resolve_current_session_id (some token) now =
      if token == 0
      then none
      else elim (d.verify d.jwt_refresh_secret now token) [ none ↦ none | some p ↦ p.session_id ]

  -- `UserService.getSessions`: the live sessions of the user, each with the flag
  -- `isCurrent`; their order, by the last update, is left out.
  unfoldable pub get_sessions : Text → Option Text → Time → Action (List (Session × Bool))
  unfolding resolve_current_session_id
  get_sessions user_id current_token now = do
    sessions ← gets (λ db. db.sessions)
    pure (
        map (λ s. (s, is_current (resolve_current_session_id current_token now) s))
          (select (λ s. s.user_id == user_id && ltb now s.expires_at) sessions))

  -- `UserService.revokeOtherSessions`: the number of sessions that were revoked.
  unfoldable pub revoke_other_sessions : Text → Option Text → Time → Action ℕ
  unfolding resolve_current_session_id
  revoke_other_sessions user_id current_token now = do
    let doomed = λ (s : Session).
        owned_by user_id s && is_other (resolve_current_session_id current_token now) s
    n ← gets (λ db. count doomed db.sessions)
    modify λ db. record db { sessions = delete_where doomed db.sessions }
    pure n

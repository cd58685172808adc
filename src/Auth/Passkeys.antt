-- ===== src/Auth/Passkeys.antt =====
-- Passkeys: src/auth/passkey.service.ts. The WebAuthn library is a parameter.
pub mod Registering
pub mod SigningIn
use workspacebridge_backend.Base.{
  ℕ, ◌-◌, Bool, true, false, not, ◌&&◌, Option, none, some, List, [], ◌∷◌, ◌++◌, reverse, leb, ◌==◌,
  if◌then◌else◌, is_some, or_else, truthy, length, take, find, select, update_where, delete_where,
  pure, gets, or_throw, ◌>>=◌, ◌>>◌, throw_if, modify, bad_request, unauthorized, conflict,
  internal,
}
use workspacebridge_backend.Store.{
  Text, Time, User, Session, Credential, is_active, Deps, Db, Action, Reason, AuditAction,
  write_audit_log,
}
use workspacebridge_backend.Auth.Login.{is_user}
use workspacebridge_backend.Files.Names.{is_empty}
use workspacebridge_backend.Notifications.{trim}
use workspacebridge_backend.Auth.Sessions.{
  Client, Nonce, TokenPair, owned_by, session_ids, delete_sessions, new_session, sign_tokens,
}
use workspacebridge_backend.Auth.Alerts.{handle_successful_login}

pub data Purpose : Type 0 where
  reg auth : Purpose

abbrev pub is_same : Purpose → Purpose → Bool
is_same Purpose.reg Purpose.reg = true
is_same Purpose.auth Purpose.auth = true
is_same _ _ = false

-- The payload of the challenge cookie.
pub record Challenge : Type 0 where
  pub challenge : Text
  pub purpose : Purpose
  pub user_id : Option Text

-- What the library says of a new passkey.
pub record NewPasskey : Type 0 where
  pub credential_id : Text
  pub public_key : Text
  pub counter : ℕ

pub record WebAuthn : Type 0 where
  -- `jwtService.sign` and `verify` of a challenge with the access secret, for five minutes.
  pub sign_challenge : Challenge → Time → Text
  pub read_token : Text → Time → Option Challenge
  -- The two checks of the library, for the site's own origin; `none` when it throws or does not verify.
  pub verify_registration : Text → Text → Option NewPasskey
  pub verify_authentication : Text → Text → Credential → Option ℕ

-- `response.id` names the passkey; the response is what the library checks.
pub record Assertion : Type 0 where
  pub credential_id : Text
  pub response : Text

-- `label?.trim() || null`
abbrev pub name_of : Option (List ℕ) → Option (List ℕ)
name_of none = none
name_of (some label) = if is_empty (trim label) then none else some (trim label)

abbrev pub is_passkey : Text → Credential → Bool
is_passkey id c = c.id == id

abbrev pub has_credential_id : Text → Credential → Bool
has_credential_id id c = c.credential_id == id

-- The eviction of `issueSession`.
unfoldable pub evict_sessions : Text → List Session → List Session
evict_sessions user_id sessions =
    let own = select (owned_by user_id) sessions in
    if leb 10 (length own)
    then delete_sessions (session_ids (take (length own - 9) own)) sessions
    else sessions

abbrev pub used_row : ℕ → Time → Credential → Credential
used_row counter now c = record c { counter = counter; last_used_at = some now }

unfoldable pub list_passkeys : Text → Db → List Credential
list_passkeys user_id db = reverse (select (λ c. c.user_id == user_id) db.credentials)

unfoldable pub remove_passkey : Text → Text → Option Text → Action Unit
remove_passkey user_id id user_agent = do
  credentials ← gets (λ db. db.credentials)
  c ← or_throw (find (is_passkey id) credentials) unauthorized Reason.passkey_not_found
  throw_if (not (c.user_id == user_id)) unauthorized Reason.passkey_not_found
  modify λ db. record db { credentials = delete_where (is_passkey id) db.credentials }
  write_audit_log AuditAction.passkey_removed user_id user_agent

module _ (x : WebAuthn) where
  -- The option generators draw a challenge and sign it into the cookie.
  unfoldable pub registration_token : Text → Text → Time → Text
  registration_token user_id challenge now =
      x.sign_challenge
        (record { challenge = challenge; purpose = Purpose.reg; user_id = some user_id }) now

  unfoldable pub authentication_token : Text → Time → Text
  authentication_token challenge now =
      x.sign_challenge (record { challenge = challenge; purpose = Purpose.auth; user_id = none })
        now

  unfoldable pub read_challenge : Option Text → Purpose → Time → Action Challenge
  read_challenge token purpose now = do
    throw_if (not (truthy token)) bad_request Reason.passkey_challenge_missing
    p ← or_throw (x.read_token (or_else token 0) now) bad_request Reason.passkey_challenge_missing
    throw_if (not (is_same p.purpose purpose)) bad_request Reason.passkey_challenge_missing
    pure p

  -- `challengeUserId !== userId`
  abbrev pub is_for : Text → Challenge → Bool
  is_for user_id p = elim p.user_id [ none ↦ false | some u ↦ u == user_id ]

  unfoldable pub verify_registration :
      Text → Text → Text → Option Text → Option (List ℕ) → Option Text → Time → Action Credential
  verify_registration id user_id response token label user_agent now = do
    p ← read_challenge token Purpose.reg now
    throw_if (not (is_for user_id p)) unauthorized Reason.passkey_failed
    new ← or_throw (x.verify_registration response p.challenge) bad_request Reason.passkey_failed
    credentials ← gets (λ db. db.credentials)
    throw_if (is_some (find (has_credential_id new.credential_id) credentials)) conflict
        Reason.passkey_exists
    let c : Credential = record {
      id = id;
      user_id = user_id;
      credential_id = new.credential_id;
      public_key = new.public_key;
      counter = new.counter;
      name = name_of label;
      last_used_at = none;
    }
    modify λ db. record db { credentials = db.credentials ++ c ∷ [] }
    write_audit_log AuditAction.passkey_registered user_id user_agent
    pure c

module _ (d : Deps) where
  unfoldable pub issue_session : User → Bool → Nonce → Client → Time → Action TokenPair
  unfolding evict_sessions
  issue_session u remember_me n c now = do
    modify λ db. record db { sessions = evict_sessions u.id db.sessions }
    modify λ db. record db { sessions = db.sessions ++ new_session d u n remember_me c now ∷ [] }
    handle_successful_login AuditAction.passkey_login u.id u.email c
    pure (sign_tokens d u n.session_id remember_me now)

  unfoldable pub verify_authentication :
      WebAuthn → Assertion → Option Text → Bool → Nonce → Client → Time → Action TokenPair
  verify_authentication x a token remember_me n c now = do
    p ← read_challenge x token Purpose.auth now
    credentials ← gets (λ db. db.credentials)
    k ←
        or_throw (find (has_credential_id a.credential_id) credentials) unauthorized
          Reason.passkey_unknown
    users ← gets (λ db. db.users)
    u ← or_throw (find (is_user k.user_id) users) internal Reason.record_not_found
    counter ←
        or_throw (x.verify_authentication a.response p.challenge k) unauthorized
          Reason.passkey_failed
    throw_if (not (is_active u.status)) unauthorized Reason.account_suspended
    modify λ db. record db {
      credentials = update_where (is_passkey k.id) (used_row counter now) db.credentials;
    }
    issue_session u remember_me n c now

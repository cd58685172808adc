-- ===== src/Teams/Invites.antt =====
-- Invites: src/invite/invite.service.ts.
pub mod Joining
use workspacebridge_backend.Base.{
  ℕ, ◌+◌, ◌*◌, ◌/◌, Bool, true, false, not, ◌&&◌, ◌||◌, Option, none, some, List, [], ◌∷◌, ◌++◌,
  ltb, ◌==◌, if◌then◌else◌, is_some, or_else, truthy, find, update_where, pure, gets, or_throw,
  ◌>>=◌, ◌>>◌, throw_if, modify, bad_request, not_found,
}
use workspacebridge_backend.Store.{
  Text, Time, User, UserRole, UserPlan, UserStatus, AuthMethod, MemberRole, Session, Invite,
  JwtPayload, Deps, Db, Action, Reason, send_mail,
}
use workspacebridge_backend.Auth.Sessions.{Client, Nonce, access_payload}
use workspacebridge_backend.Auth.Login.{has_email}
use workspacebridge_backend.Teams.Workspaces.{ensure_owner}

abbrev pub invite_ttl_ms : ℕ
invite_ttl_ms = 7 * 24 * 60 * 60 * 1000

abbrev pub has_invite_token : Text → Invite → Bool
has_invite_token token i = i.token == token

-- `sendInvite` with an address, `generateLink` without one.
unfoldable pub create_invite : Option Text → Text → Text → Text → Time → Action Unit
create_invite email workspace_id owner_id token now = do
  ensure_owner workspace_id owner_id
  modify λ db. record db {
    invites =
        db.invites
        ++ record {
          token = token;
          email = email;
          workspace_id = workspace_id;
          expires_at = now + invite_ttl_ms;
          used_at = none;
        }
          ∷ [];
  }

unfoldable pub send_invite : Text → Text → Text → Text → Time → Action Unit
unfolding create_invite
send_invite workspace_id owner_id email token now = do
  create_invite (some email) workspace_id owner_id token now
  send_mail email (some token)

unfoldable pub generate_link : Text → Text → Text → Time → Action Text
unfolding create_invite
generate_link workspace_id owner_id token now = do
  create_invite none workspace_id owner_id token now
  pure token

-- The invite behind a token, while it can be accepted.
unfoldable pub get_invite : Text → Time → Action Invite
get_invite token now = do
  invites ← gets (λ db. db.invites)
  i ← or_throw (find (has_invite_token token) invites) not_found Reason.invite_not_found
  throw_if (is_some i.used_at) bad_request Reason.invite_used
  throw_if (ltb i.expires_at now) bad_request Reason.invite_expired
  pure i

pub record Acceptance : Type 0 where
  pub email : Option Text
  pub password : Text
  pub client : Client

-- The random values of one acceptance.
pub record Draws : Type 0 where
  pub user_id : Text
  pub salt : Text
  pub session : Nonce

pub record Accepted : Type 0 where
  pub access_token : Text
  pub refresh_token : Text
  pub user_id : Text
  pub workspace_id : Text

abbrev pub use_row : Time → Invite → Invite
use_row now i = record i { used_at = some now }

-- The address of the new account: the invite's, or the one that the client gives.
abbrev pub resolved_email : Invite → Acceptance → Option Text
resolved_email i a = elim i.email [ none ↦ a.email | some e ↦ some e ]

module _ (d : Deps) (refresh_expires_in : ℕ) where
  abbrev pub client_user : Text → Text → Text → Text → User
  client_user id email password salt = record {
    id = id;
    email = email;
    password = some (d.argon2_hash salt password);
    is_verified = true;
    is_two_factor_enabled = false;
    two_factor_secret = none;
    failed_login_attempts = 0;
    locked_until = none;
    role = UserRole.client;
    plan = UserPlan.free;
    status = UserStatus.active;
    method = AuthMethod.credentials;
  }

  -- The refresh token of an acceptance: signed with the secret of the access tokens.
  unfoldable pub invite_refresh_token : User → Text → Time → Text
  invite_refresh_token u session_id now =
      d.sign d.jwt_secret (record (access_payload u) { session_id = some session_id })
        refresh_expires_in now

  -- The account, the membership, the used invite and the session.
  unfoldable pub join_workspace : Text → Invite → User → Draws → Client → Time → Action Accepted
  unfolding invite_refresh_token
  join_workspace token i u x c now = do
    modify λ db. record db { users = db.users ++ u ∷ [] }
    modify λ db. record db {
      members =
          db.members
          ++ record { workspace_id = i.workspace_id; user_id = u.id; role = MemberRole.client }
            ∷ [];
    }
    modify
        λ db. record db { invites = update_where (has_invite_token token) (use_row now) db.invites }
    let refresh = invite_refresh_token u x.session.session_id now
    modify λ db. record db {
      sessions =
          db.sessions
          ++ record {
            id = x.session.session_id;
            user_id = u.id;
            refresh_token = d.argon2_hash x.session.salt refresh;
            previous_refresh_token = none;
            token_rotated_at = none;
            ip = c.ip;
            user_agent = c.user_agent;
            expires_at = now + invite_ttl_ms;
          }
            ∷ [];
    }
    pure (record {
      access_token = d.sign d.jwt_secret (access_payload u) d.access_expires_in now;
      refresh_token = refresh;
      user_id = u.id;
      workspace_id = i.workspace_id;
    })

  unfoldable pub accept_invite : Text → Acceptance → Draws → Time → Action Accepted
  unfolding get_invite
  accept_invite token a x now = do
    i ← get_invite token now
    throw_if (not (truthy (resolved_email i a))) bad_request Reason.email_missing
    let email = or_else (resolved_email i a) 0
    users ← gets (λ db. db.users)
    throw_if (is_some (find (has_email email) users)) bad_request Reason.account_exists
    throw_if (ltb 0 (d.breach_count a.password)) bad_request Reason.breached_password
    join_workspace token i (client_user x.user_id email a.password x.salt) x a.client now

-- ===== src/Tests/Fixtures.antt =====
-- Sample libraries and rows: texts are small numbers, a hash is its text plus a constant.
use workspacebridge_backend.Base.{◌+◌, ◌/◌, true, false, none, some, [], ◌∷◌, ◌==◌, if◌then◌else◌}
use workspacebridge_backend.Store.{
  Text, User, UserRole, UserPlan, UserStatus, AuthMethod, Session, JwtPayload, Workspace, Deps, Db,
  empty_db,
}
use workspacebridge_backend.Auth.Sessions.{Client, Nonce}

-- The payload of the refresh tokens and of the pre-auth tokens of user 1.
abbrev pub refresh_claims : JwtPayload
refresh_claims = record {
  user_id = 1;
  email = 11;
  role = UserRole.freelancer;
  session_id = some 7;
  remember_me = some false;
  is_two_factor_authenticated = none;
  jti = none;
}

abbrev pub pre_auth_claims : JwtPayload
pre_auth_claims = record refresh_claims {
  session_id = none;
  is_two_factor_authenticated = some false;
  jti = some 9;
}

-- A token begins like its secret, up to the last digit. The refresh secret is 2000, and the other secret signs pre-auth tokens.
abbrev pub claims_of : Text → JwtPayload
claims_of secret = if secret == 2000 then refresh_claims else pre_auth_claims

abbrev pub deps : Deps
deps = record {
  sign = λ secret p ttl now. secret;
  verify = λ secret now token. if token / 10 == secret / 10 then some (claims_of secret) else none;
  argon2_hash = λ salt text. text + 100;
  argon2_verify = λ hash text. hash == text + 100;
  sha256 = λ text. text + 5000;
  strip_dash = λ code. code;
  totp_verify = λ secret code now. code == 123;
  breach_count = λ password. if password == 66 then 4 else 0;
  jwt_secret = 1000;
  jwt_refresh_secret = 2000;
  access_expires_in = 900;
}

abbrev pub user : Text → Text → Text → User
user id email password = record {
  id = id;
  email = email;
  password = some (password + 100);
  is_verified = true;
  is_two_factor_enabled = false;
  two_factor_secret = none;
  failed_login_attempts = 0;
  locked_until = none;
  role = UserRole.freelancer;
  plan = UserPlan.free;
  status = UserStatus.active;
  method = AuthMethod.credentials;
}

abbrev pub ana : User
ana = user 1 11 42

abbrev pub ben : User
ben = user 2 12 43

abbrev pub session : Session
session = record {
  id = 7;
  user_id = 1;
  refresh_token = 2101;
  previous_refresh_token = none;
  token_rotated_at = none;
  ip = none;
  user_agent = none;
  expires_at = 90000;
}

abbrev pub laptop : Client
laptop = record { ip = some 5; user_agent = some 6 }

abbrev pub nonce : Nonce
nonce = record { session_id = 8; salt = 1 }

abbrev pub office : Workspace
office = record { id = 30; name = 31; owner_id = 1 }

-- Two users, a session and a workspace of the first.
abbrev pub world : Db
world = record empty_db {
  users = ana ∷ ben ∷ [];
  sessions = session ∷ [];
  workspaces = office ∷ [];
}

-- ===== src/Store/Outside.antt =====
-- What the services call and the repository does not hold: the JWT library, argon2, SHA-256, TOTP
-- and the breached-password service, with the configuration. All are parameters.
use workspacebridge_backend.Base.{ℕ, Bool, Option}
use workspacebridge_backend.Store.Rows.{Text, Time, UserRole}

-- src/auth/types/jwt-payload.type.ts
pub record JwtPayload : Type 0 where
  pub user_id : Text
  pub email : Text
  pub role : UserRole
  pub session_id : Option Text
  pub remember_me : Option Bool
  pub is_two_factor_authenticated : Option Bool
  pub jti : Option Text

pub record Deps : Type 0 where
  -- `jwtService.sign(payload, { secret, expiresIn })` at a time, and `jwtService.verify`.
  pub sign : Text → JwtPayload → ℕ → Time → Text
  pub verify : Text → Time → Text → Option JwtPayload
  -- `argon2.hash` with its random salt, and `argon2.verify(hash, text)`.
  pub argon2_hash : Text → Text → Text
  pub argon2_verify : Text → Text → Bool
  -- `createHash('sha256')`
  pub sha256 : Text → Text
  -- `code.replace('-', '')` of a backup code.
  pub strip_dash : Text → Text
  -- `speakeasy.totp.verify` of a code against a stored secret (which decryptSecret opens), at a time.
  pub totp_verify : Text → Text → Time → Bool
  -- The number of breaches that the HIBP service reports; 0 when it cannot be reached.
  pub breach_count : Text → ℕ
  pub jwt_secret : Text
  pub jwt_refresh_secret : Text
  pub access_expires_in : ℕ

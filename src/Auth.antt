-- ===== src/Auth.antt =====
-- Authentication: src/auth and the account part of src/user.

pub mod Sessions
pub mod Alerts
pub mod Login
pub mod TwoFactor
pub mod Passwords
pub mod EmailTokens
pub mod Google
pub mod SignIn
pub mod Cleanup
pub mod Passkeys
pub mod Guards
pub mod Secrets

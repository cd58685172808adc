-- ===== src/Tests.antt =====
-- Runs of the theorems at concrete inputs, with the rows that they use.
pub mod Fixtures
mod Sessions
mod Login
mod TwoFactor
mod Mails
mod Teams
mod Files
mod Google
mod SignIn
mod Presence
mod Chat
mod Boards
mod Accounts
mod Passkeys
mod Sockets
mod Admin
mod Search
mod Secrets

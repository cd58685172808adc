-- ===== src/Auth/Alerts.antt =====
-- New-device alerts: src/auth/login-alert.service.ts, with the audit rows that they read.
pub mod Devices
use workspacebridge_backend.Base.{
  Bool, false, not, ◌&&◌, Option, none, some, List, ◌==◌, if◌then◌else◌, is_some, or_else, truthy,
  find, pure, gets, ◌>>=◌, ◌>>◌,
}
use workspacebridge_backend.Store.{
  Text, Action, AuditAction, AuditEntry, is_login_action, write_audit_log, send_mail,
}
use workspacebridge_backend.Auth.Sessions.{Client}

abbrev pub has_agent : Text → AuditEntry → Bool
has_agent agent e = elim e.user_agent [ none ↦ false | some a ↦ a == agent ]

-- A completed login of the user, and one from the device.
abbrev pub is_login_of : Text → AuditEntry → Bool
is_login_of user_id e = e.actor_id == user_id && is_login_action e.action

abbrev pub is_login_from : Text → Text → AuditEntry → Bool
is_login_from user_id agent e = is_login_of user_id e && has_agent agent e

unfoldable pub notify_if_new_device : Text → Text → Client → Action Unit
notify_if_new_device user_id email c = do
  log ← gets (λ db. db.audit_log)
  let agent = or_else c.user_agent 0
  if not (truthy c.user_agent)
      then pure tt
      else if is_some (find (is_login_from user_id agent) log)
      then pure tt
      else if not (is_some (find (is_login_of user_id) log))
      then pure tt
      else send_mail email none >> write_audit_log AuditAction.new_device_login user_id c.user_agent

-- Runs before the row of this login is written, so that the login is not its own prior one.
unfoldable pub handle_successful_login : AuditAction → Text → Text → Client → Action Unit
unfolding notify_if_new_device
handle_successful_login action user_id email c = do
  notify_if_new_device user_id email c
  write_audit_log action user_id c.user_agent

-- ===== src/Auth/Alerts/Devices.antt =====
-- When a login is announced to the account's owner: src/auth/login-alert.service.ts.
use workspacebridge_backend.Base.{
  ◌≡◌, true, false, Option, none, some, [], ◌∷◌, ◌++◌, arith, find, is_some, ◌==◌, ==_self,
  find-append_end,
}
use workspacebridge_backend.Store.{Text, AuditAction, AuditEntry, is_login_action, Db}
use workspacebridge_backend.Auth.Sessions.{Client}
use workspacebridge_backend.Auth.Alerts.{
  is_login_of, is_login_from, notify_if_new_device, handle_successful_login,
}

-- A login of a known user from a device that they have not used before sends one e-mail, to them.
pub unknown_device_alerts :
    (action : AuditAction) (user_id email agent : Text) (ip : Option Text) (db : Db)
    → (agent == 0) ≡ false
    → is_some (find (is_login_of user_id) db.audit_log) ≡ true
    → find (is_login_from user_id agent) db.audit_log ≡ none
    → (handle_successful_login action user_id email
        (record { ip = ip; user_agent = some agent })
        db).1.outbox
      ≡ db.outbox ++ record { to = email; token = none } ∷ []
unfolding handle_successful_login notify_if_new_device
unknown_device_alerts action user_id email agent ip db given known unseen = ground arith

-- The first login of an account is not announced, nor is one without a user agent.
pub first_login_silent :
    (action : AuditAction) (user_id email : Text) (c : Client) (db : Db)
    → is_some (find (is_login_of user_id) db.audit_log) ≡ false
    → (handle_successful_login action user_id email c db).1.outbox ≡ db.outbox
unfolding handle_successful_login notify_if_new_device
first_login_silent action user_id email c db unknown = ground arith

seen_after :
    (action : AuditAction) (user_id email agent : Text) (ip : Option Text) (db : Db)
    → is_login_action action ≡ true
    → is_some (
        find
          (is_login_from user_id agent)
          (handle_successful_login action user_id email
            (record { ip = ip; user_agent = some agent })
            db).1.audit_log)
      ≡ true
unfolding handle_successful_login notify_if_new_device
seen_after action user_id email agent ip db login =
    let e : AuditEntry = record { action = action; actor_id = user_id; user_agent = some agent } in
    let alert : AuditEntry = record {
      action = AuditAction.new_device_login;
      actor_id = user_id;
      user_agent = some agent;
    } in
    let fits : is_login_from user_id agent e ≡ true =
      ground (arith, ==_self user_id, ==_self agent) in
    ground (
      arith,
      find-append_end (is_login_from user_id agent) db.audit_log e fits,
      find-append_end (is_login_from user_id agent) (db.audit_log ++ alert ∷ []) e fits,
    )

known_device_silent :
    (action : AuditAction) (user_id email agent : Text) (ip : Option Text) (db : Db)
    → is_some (find (is_login_from user_id agent) db.audit_log) ≡ true
    → (handle_successful_login action user_id email
        (record { ip = ip; user_agent = some agent })
        db).1.outbox
      ≡ db.outbox
unfolding handle_successful_login notify_if_new_device
known_device_silent action user_id email agent ip db seen = ground arith

-- A device is announced once: the next login of the user from it sends nothing, whatever the two
-- ways of logging in and the addresses they come from.
pub announced_once :
    (action next : AuditAction) (user_id email agent : Text) (ip new_ip : Option Text) (db : Db)
    → is_login_action action ≡ true
    → let out =
        handle_successful_login action user_id email
          (record { ip = ip; user_agent = some agent })
          db in
      (handle_successful_login next user_id email
        (record { ip = new_ip; user_agent = some agent })
        out.1).1.outbox
      ≡ out.1.outbox
announced_once action next user_id email agent ip new_ip db login =
    known_device_silent next user_id email agent new_ip
      (handle_successful_login action user_id email (record { ip = ip; user_agent = some agent })
        db).1
      (seen_after action user_id email agent ip db login)

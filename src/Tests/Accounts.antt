-- ===== src/Tests/Accounts.antt =====
-- Accounts at concrete inputs.
use workspacebridge_backend.Base.{
  find, ◌≡◌, ◌≤◌, refl, none, some, [], ◌∷◌, ok, ◌++◌, ◌-◌, ◌*◌, select, reverse, take, length, ltb,
}
use workspacebridge_backend.Store.{Db, AuditAction, AuditEntry}
use workspacebridge_backend.Accounts.{delete_own_account, get_activity, is_activity_of}
use workspacebridge_backend.Accounts.Deletion.{IsErased, account_deleted}
use workspacebridge_backend.Accounts.Activity.{activity_pages}
use workspacebridge_backend.Tests.Fixtures.{deps, world, ana}

account_deleted_example :
    let out = delete_own_account deps 1 (some 42) world in
    (out.0 ≡ ok 11) × IsErased ana world out.1
unfolding find
account_deleted_example = account_deleted deps 1 (some 42) world ana refl refl refl

abbrev entry : AuditEntry
entry = record { action = AuditAction.login; actor_id = 1; user_agent = none }

abbrev logged_world : Db
logged_world = record world { audit_log = entry ∷ entry ∷ entry ∷ [] }

activity_pages_example :
    let newest = reverse (select (is_activity_of 1) logged_world.audit_log) in
    let p = get_activity 1 2 2 logged_world in
    (take (p.page * p.limit) newest ≡ take ((p.page - 1) * p.limit) newest ++ p.items)
    × (length p.items ≤ p.limit)
    × (1 ≤ p.limit)
    × (p.limit ≤ 100)
    × (p.has_more ≡ ltb (p.page * p.limit) (length newest))
activity_pages_example = activity_pages 1 2 2 logged_world

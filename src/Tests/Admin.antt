-- ===== src/Tests/Admin.antt =====
-- Operations of an administrator, user 9, at concrete inputs.
use workspacebridge_backend.Base.{
  ◌≡◌, ◌≢◌, refl, false, some, [], ◌∷◌, ok, err, unauthorized, bad_request, find, count, select,
}
use workspacebridge_backend.Store.{Reason, UserStatus}
use workspacebridge_backend.Auth.Sessions.{owned_by, refresh, sign_tokens}
use workspacebridge_backend.Auth.EmailTokens.{reset_password}
use workspacebridge_backend.Auth.Guards.{validate}
use workspacebridge_backend.Admin.{update_user_status, admin_reset_password}
use workspacebridge_backend.Admin.Suspending.{suspension_locks_out}
use workspacebridge_backend.Admin.Resetting.{admin_link_refused}
use workspacebridge_backend.Tests.Fixtures.{deps, world, ana, refresh_claims}

suspension_locks_out_example :
    let out = (update_user_status 1 UserStatus.suspended 9 world).1 in
    (count (owned_by 1) out.sessions ≡ 0)
    × (select (owned_by 2) out.sessions ≡ select (owned_by 2) world.sessions)
    × (validate refresh_claims out ≡ (err unauthorized Reason.account_suspended, out))
    × ((refresh deps 2001 3 5000 out).0 ≢ ok (sign_tokens deps ana 7 false 5000))
unfolding find
suspension_locks_out_example =
    suspension_locks_out deps 1 9 2 2001 3 5000 world ana refresh_claims
      (sign_tokens deps ana 7 false 5000) refl refl refl refl refl

admin_link_refused_example :
    let sent = admin_reset_password 1 600 1000 9 world in
    (sent.0 ≡ ok tt)
    × (sent.1.outbox ≡ record { to = 11; token = some 600 } ∷ [])
    × (reset_password deps 600 77 500 3 2000 sent.1
        ≡ (err bad_request Reason.invalid_reset_token, sent.1))
unfolding find
admin_link_refused_example =
    admin_link_refused deps 1 600 9 77 500 3 1000 2000 world ana refl refl refl refl

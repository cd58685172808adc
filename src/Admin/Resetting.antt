-- ===== src/Admin/Resetting.antt =====
-- The reset link of an administrator: adminResetPassword of src/admin/admin.service.ts beside resetPassword
-- of src/auth/auth.service.ts.
use workspacebridge_backend.Base.{
  ◌≡◌, false, none, some, [], ◌∷◌, ◌++◌, arith, ok, err, bad_request, ◌==◌, find, delete_where,
  find-delete_where_absent, find-append, ◌∙◌,
}
use workspacebridge_backend.Store.{Text, Time, User, Deps, Db, Reason}
use workspacebridge_backend.Auth.Login.{is_user}
use workspacebridge_backend.Auth.EmailTokens.{has_token, reset_password}
use workspacebridge_backend.Auth.Passwords.{assert_not_breached}
use workspacebridge_backend.Admin.{get_user, is_reset_of, plain_token, admin_reset_password}

no_such_token :
    (d : Deps) (plain email : Text) (now : Time) (db : Db)
    → find (has_token (d.sha256 plain)) db.tokens ≡ none
    → (plain == d.sha256 plain) ≡ false
    → find
        (has_token (d.sha256 plain))
        (delete_where (is_reset_of email) db.tokens ++ plain_token email plain now ∷ [])
      ≡ none
no_such_token d plain email now db fresh ne =
    find-append (has_token (d.sha256 plain)) (delete_where (is_reset_of email) db.tokens)
      (plain_token email plain now ∷ [])
      (find-delete_where_absent (has_token (d.sha256 plain)) (is_reset_of email) db.tokens fresh)
    ∙ unfold find in ground arith

unknown_token_refused :
    (d : Deps) (plain password entry_id salt : Text) (now : Time) (db : Db)
    → find (has_token (d.sha256 plain)) db.tokens ≡ none
    → d.breach_count password ≡ 0
    → reset_password d plain password entry_id salt now db
      ≡ (err bad_request Reason.invalid_reset_token, db)
unfolding reset_password assert_not_breached
unknown_token_refused d plain password entry_id salt now db unknown unbreached = ground arith

-- The link that an administrator has sent never resets the password: the token is stored as it is, while
-- the reset looks for its hash; the mail goes out, and the link is refused as invalid at any time.
pub admin_link_refused :
    (d : Deps) (id plain actor password entry_id salt : Text) (now later : Time) (db : Db)
    (u : User)
    → find (is_user id) db.users ≡ some u
    → find (has_token (d.sha256 plain)) db.tokens ≡ none
    → (plain == d.sha256 plain) ≡ false
    → d.breach_count password ≡ 0
    → let sent = admin_reset_password id plain now actor db in
      (sent.0 ≡ ok tt)
      × (sent.1.outbox ≡ db.outbox ++ record { to = u.email; token = some plain } ∷ [])
      × (reset_password d plain password entry_id salt later sent.1
          ≡ (err bad_request Reason.invalid_reset_token, sent.1))
unfolding admin_reset_password get_user
admin_link_refused d id plain actor password entry_id salt now later db u e fresh ne unbreached = (
  ground arith,
  ground arith,
  unknown_token_refused d plain password entry_id salt later
      (admin_reset_password id plain now actor db).1
      (ground (arith, no_such_token d plain u.email now db fresh ne)) unbreached,
)

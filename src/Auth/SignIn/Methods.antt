-- ===== src/Auth/SignIn/Methods.antt =====
-- What is left to sign in with: disconnectProvider and setPassword of src/user/user.service.ts, with
-- loginUser of src/auth/auth.service.ts.
use workspacebridge_backend.Base.{
  ◌≡◌, refl, true, false, ◌||◌, some, List, [], ◌∷◌, arith, inl, inr, ok, err, unauthorized, ltb,
  truthy, find, count, delete_where, find-update_where_hit, find-fits, Option-cases,
}
use workspacebridge_backend.Store.{Text, Time, User, AuthMethod, Account, Deps, Db, Reason}
use workspacebridge_backend.Auth.Sessions.{Nonce}
use workspacebridge_backend.Auth.Login.{
  has_email, is_user, LoginRequest, password_account, login_user,
}
use workspacebridge_backend.Auth.Passwords.{set_hash, set_password, assert_not_breached}
use workspacebridge_backend.Auth.SignIn.{is_account_of, is_link, is_other_link, disconnect_provider}

-- The accounts with other providers are the ones that a disconnection leaves.
count-delete_where_link :
    (user_id provider : Text) (accounts : List Account)
    → count (is_account_of user_id) (delete_where (is_link user_id provider) accounts)
      ≡ count (is_other_link user_id provider) accounts
unfolding count delete_where
count-delete_where_link user_id provider [] = refl
count-delete_where_link user_id provider (a ∷ accounts) =
    ground (arith, count-delete_where_link user_id provider accounts)

-- A disconnection that goes through leaves the user a password or another provider, and no account
-- with the disconnected one.
pub disconnect_keeps_a_method :
    (user_id provider : Text) (db db' : Db)
    → disconnect_provider user_id provider db ≡ (ok tt, db')
    → (u : User) × (find (is_user user_id) db.users ≡ some u)
      × (db'.users ≡ db.users)
      × ((truthy u.password || ltb 0 (count (is_account_of user_id) db'.accounts)) ≡ true)
      × (db'.accounts ≡ delete_where (is_link user_id provider) db.accounts)
unfolding disconnect_provider
disconnect_keeps_a_method user_id provider db db' e =
    elim (Option-cases (find (is_user user_id) db.users)) [
      | inl gone ↦ ground arith
      | inr (u, f) ↦ (
        u,
        f,
        ground arith,
        ground (arith, count-delete_where_link user_id provider db.accounts),
        ground arith,
      )
    ]

module _ (d : Deps) where
  no_password_login :
      (r : LoginRequest) (n : Nonce) (jti : Text) (now : Time) (db : Db) (u : User)
      → find (has_email r.email) db.users ≡ some u
      → u.method ≡ AuthMethod.google
      → (login_user d r n jti now db).0 ≡ err unauthorized Reason.invalid_credentials
  unfolding login_user password_account
  no_password_login r n jti now db u f g = ground arith

  -- An account that came from Google and has no password can set an unbreached one, but the
  -- password never logs in: the login answers as to an unknown address, whatever password is
  -- typed.
  pub google_password_refused :
      (id new salt : Text) (r : LoginRequest) (n : Nonce) (jti : Text) (now : Time) (db : Db)
      (u : User)
      → find (is_user id) db.users ≡ some u
      → find (has_email r.email) db.users ≡ some u
      → u.method ≡ AuthMethod.google
      → truthy u.password ≡ false
      → ltb 0 (d.breach_count new) ≡ false
      → let out = set_password d id new salt db in
        (out.0 ≡ ok tt)
        × ((login_user d r n jti now out.1).0 ≡ err unauthorized Reason.invalid_credentials)
  unfolding set_password assert_not_breached
  google_password_refused id new salt r n jti now db u by_id by_email g none_set nb =
      let h = set_hash (d.argon2_hash salt new) in
      (
        ground arith,
        no_password_login r n jti now (set_password d id new salt db).1 (h u)
            (ground (
              arith,
              find-update_where_hit (has_email r.email) (is_user id) h db.users u (λ x. refl)
                  by_email (find-fits (is_user id) db.users u by_id),
            ))
            g,
      )

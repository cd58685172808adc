-- ===== src/Auth/Login/Success.antt =====
-- What a login that goes through has passed: loginUser of src/auth/auth.service.ts.
use workspacebridge_backend.Base.{
  ◌≡◌, refl, Bool, true, false, inl, inr, some, arith, Option-cases, ok, or_else, update_where,
}
use workspacebridge_backend.Store.{Text, Time, User, Deps, Db, AuditAction, is_active}
use workspacebridge_backend.Auth.Sessions.{Client, Nonce, TokenPair, open_session, sign_tokens}
use workspacebridge_backend.Auth.Sessions.Limit.{IsCapped, open_session-IsCapped}
use workspacebridge_backend.Auth.Alerts.{handle_successful_login}
use workspacebridge_backend.Auth.Login.{
  register_failed_login, is_locked, is_user, clear_failures, LoginRequest, LoginOutcome, logged_in,
  password_account, reject_password, finish_login, complete_login, start_two_factor, login_user,
}

pub sessions-handle_successful_login :
    (a : AuditAction) (id email : Text) (c : Client) (db : Db)
    → (handle_successful_login a id email c db).1.sessions ≡ db.sessions
unfolding handle_successful_login
sessions-handle_successful_login a id email c db = ground arith

pub ok-handle_successful_login :
    (a : AuditAction) (id email : Text) (c : Client) (db : Db)
    → (handle_successful_login a id email c db).0 ≡ ok tt
unfolding handle_successful_login
ok-handle_successful_login a id email c db = ground arith

module _ (d : Deps) where
  pub ok-open_session :
      (u : User) (n : Nonce) (r : Bool) (c : Client) (now : Time) (db : Db)
      → (open_session d u n r c now db).0 ≡ ok (sign_tokens d u n.session_id r now)
  unfolding open_session
  ok-open_session u n r c now db = refl

  sessions-reject_password :
      (u : User) (c : Client) (now : Time) (db : Db)
      → (reject_password u c now db).1.sessions ≡ db.sessions
  unfolding reject_password register_failed_login
  sessions-reject_password u c now db = ground arith

  finish_login-IsCapped :
      (u : User) (r : LoginRequest) (n : Nonce) (now : Time) (db : Db)
      → IsCapped db.sessions
      → IsCapped (finish_login d u r n now db).1.sessions
  unfolding finish_login
  finish_login-IsCapped u r n now db h = λ v. ground (
    arith,
    ok-open_session u n r.remember_me r.client now db,
    open_session-IsCapped d u n r.remember_me r.client now db h v,
    sessions-handle_successful_login AuditAction.login u.id u.email r.client
        (open_session d u n r.remember_me r.client now db).1,
  )

  complete_login-IsCapped :
      (u : User) (r : LoginRequest) (n : Nonce) (jti : Text) (now : Time) (db : Db)
      → IsCapped db.sessions
      → IsCapped (complete_login d u r n jti now db).1.sessions
  unfolding complete_login start_two_factor
  complete_login-IsCapped u r n jti now db h v = ground (
    arith,
    h v,
    finish_login-IsCapped u r n now db h v,
    finish_login-IsCapped u r n now
        (record db { users = update_where (is_user u.id) clear_failures db.users }) h v,
  )

  -- If every user is within ten sessions before a login, every user is after it, on every branch.
  pub login_user-IsCapped :
      (r : LoginRequest) (n : Nonce) (jti : Text) (now : Time) (db : Db)
      → IsCapped db.sessions
      → IsCapped (login_user d r n jti now db).1.sessions
  unfolding login_user
  login_user-IsCapped r n jti now db h v = elim (Option-cases (password_account r.email db.users)) [
    | inl gone ↦ ground (arith, h v)
    | inr (u, f) ↦ ground (
      arith,
      h v,
      complete_login-IsCapped u r n jti now db h v,
      sessions-reject_password u r.client now db,
    )
  ]

  rejects :
      (u : User) (c : Client) (now : Time) (db db' : Db) (o : LoginOutcome)
      → ¬ (reject_password u c now db ≡ (ok o, db'))
  unfolding reject_password register_failed_login
  rejects u c now db db' o e = ground arith

  finish_login_lem :
      (u : User) (r : LoginRequest) (n : Nonce) (now : Time) (db : Db)
      → (finish_login d u r n now db).0
        ≡ ok (logged_in (sign_tokens d u n.session_id r.remember_me now))
  unfolding finish_login
  finish_login_lem u r n now db = ground (
    arith,
    ok-open_session u n r.remember_me r.client now db,
    ok-handle_successful_login AuditAction.login u.id u.email r.client
        (open_session d u n r.remember_me r.client now db).1,
  )

  passed :
      (u : User) (r : LoginRequest) (n : Nonce) (jti : Text) (now : Time) (db db' : Db)
      (t : TokenPair)
      → complete_login d u r n jti now db ≡ (ok (logged_in t), db')
      → (is_active u.status ≡ true)
        × (u.is_verified ≡ true)
        × (u.is_two_factor_enabled ≡ false)
        × (t ≡ sign_tokens d u n.session_id r.remember_me now)
  unfolding complete_login start_two_factor
  passed u r n jti now db db' t e = ground (
    arith,
    finish_login_lem u r n now db,
    finish_login_lem u r n now
        (record db { users = update_where (is_user u.id) clear_failures db.users }),
  )

  -- A login without a second factor went through only for the right password of an active,
  -- verified and unlocked account that has no second factor; the tokens are that account's.
  pub logged_in_needs :
      (r : LoginRequest) (n : Nonce) (jti : Text) (now : Time) (db db' : Db) (t : TokenPair)
      → login_user d r n jti now db ≡ (ok (logged_in t), db')
      → (u : User) × (password_account r.email db.users ≡ some u)
        × (is_locked now u ≡ false)
        × (d.argon2_verify (or_else u.password 0) r.password ≡ true)
        × (is_active u.status ≡ true)
        × (u.is_verified ≡ true)
        × (u.is_two_factor_enabled ≡ false)
        × (t ≡ sign_tokens d u n.session_id r.remember_me now)
  unfolding login_user
  logged_in_needs r n jti now db db' t e = elim (Option-cases (password_account r.email db.users)) [
    | inl gone ↦ ground arith
    | inr (u, f) ↦
        ground (arith, passed u r n jti now db db' t, rejects u r.client now db db' (logged_in t))
  ]

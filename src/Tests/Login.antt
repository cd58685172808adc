-- ===== src/Tests/Login.antt =====
-- Password login and lockout at concrete inputs.
use workspacebridge_backend.Base.{
  ◌≡◌, refl, true, false, some, List, [], ◌∷◌, arith, err, unauthorized, find, count, or_else,
}
use workspacebridge_backend.Store.{Text, Time, User, Reason, is_active}
use workspacebridge_backend.Auth.Sessions.{Nonce, open_session, sign_tokens}
use workspacebridge_backend.Auth.Sessions.Limit.{IsCapped}
use workspacebridge_backend.Auth.Alerts.{handle_successful_login}
use workspacebridge_backend.Auth.Login.{
  is_locked, LoginRequest, password_account, complete_login, finish_login, login_user,
}
use workspacebridge_backend.Auth.Login.Lockout.{IsAccount, try_passwords, fifth_locks}
use workspacebridge_backend.Auth.Login.Success.{login_user-IsCapped, logged_in_needs}
use workspacebridge_backend.Tests.Fixtures.{deps, world, ana, laptop, nonce}

abbrev request : Text → LoginRequest
request password = record { email = 11; password = password; remember_me = true; client = laptop }

abbrev ana_account : IsAccount 11 world.users ana
ana_account = record {
  by_email = unfold find in refl;
  by_id = unfold find in refl;
  by_password = refl;
  has_password = refl;
}

abbrev attempt : Time → LoginRequest × Nonce × Text × Time
attempt now = (request 41, nonce, 9, now)

abbrev four : List (LoginRequest × Nonce × Text × Time)
four = attempt 1 ∷ attempt 2 ∷ attempt 3 ∷ attempt 4 ∷ []

fifth_locks_example :
    (login_user deps
      (request 42)
      nonce
      9
      6000
      (login_user deps (request 41) nonce 9 5000 (try_passwords deps four world)).1).0
    ≡ err unauthorized Reason.account_locked
fifth_locks_example =
    fifth_locks deps 11 four world ana (request 41) (request 42) nonce nonce 9 9 5000 6000
      ana_account refl refl refl
      (refl, refl, (refl, refl, (refl, refl, (refl, refl, (refl, refl, tt))))) refl (omega arith)

world-IsCapped : IsCapped world.sessions
unfolding count
world-IsCapped u = ground arith

login_user-IsCapped_example : IsCapped (login_user deps (request 42) nonce 9 1000 world).1.sessions
login_user-IsCapped_example =
    login_user-IsCapped deps (request 42) nonce 9 1000 world world-IsCapped

logged_in_needs_example :
    (u : User) × (password_account 11 world.users ≡ some u)
    × (is_locked 1000 u ≡ false)
    × (deps.argon2_verify (or_else u.password 0) 42 ≡ true)
    × (is_active u.status ≡ true)
    × (u.is_verified ≡ true)
    × (u.is_two_factor_enabled ≡ false)
    × (sign_tokens deps ana 8 true 1000 ≡ sign_tokens deps u 8 true 1000)
unfolding login_user find password_account complete_login finish_login open_session
    handle_successful_login
logged_in_needs_example =
    logged_in_needs deps (request 42) nonce 9 1000 world
      (login_user deps (request 42) nonce 9 1000 world).1 (sign_tokens deps ana 8 true 1000) refl

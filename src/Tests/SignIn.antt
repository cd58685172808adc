-- ===== src/Tests/SignIn.antt =====
-- Sign-in methods at concrete inputs.
use workspacebridge_backend.Base.{◌≡◌, refl, false, none, [], ◌∷◌, ok, err, unauthorized, find}
use workspacebridge_backend.Store.{User, AuthMethod, Db, Reason}
use workspacebridge_backend.Auth.Login.{LoginRequest, login_user}
use workspacebridge_backend.Auth.Passwords.{set_password}
use workspacebridge_backend.Auth.SignIn.Methods.{google_password_refused}
use workspacebridge_backend.Tests.Fixtures.{deps, world, ana, ben, laptop, nonce}

abbrev google_ana : User
google_ana = record ana { password = none; method = AuthMethod.google }

abbrev google_world : Db
google_world = record world { users = google_ana ∷ ben ∷ [] }

abbrev request : LoginRequest
request = record { email = 11; password = 50; remember_me = false; client = laptop }

google_password_refused_example :
    let out = set_password deps 1 50 1 google_world in
    (out.0 ≡ ok tt)
    × ((login_user deps request nonce 9 1000 out.1).0 ≡ err unauthorized Reason.invalid_credentials)
google_password_refused_example =
    google_password_refused deps 1 50 1 request nonce 9 1000 google_world google_ana
      (unfold find in refl) (unfold find in refl) refl refl refl

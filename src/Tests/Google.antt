-- ===== src/Tests/Google.antt =====
-- Google sign-in at concrete inputs.
use workspacebridge_backend.Base.{refl, true, some, find}
use workspacebridge_backend.Auth.Sessions.{open_session, sign_tokens}
use workspacebridge_backend.Auth.Google.{
  GoogleUser, find_or_create_google_user, returning_user, adopt_local, link_google_account,
  login_google_user,
}
use workspacebridge_backend.Auth.Google.Identity.{IsSignedIn, find_or_create_google_user-IsSignedIn}
use workspacebridge_backend.Tests.Fixtures.{deps, world, ana, laptop, nonce}

abbrev google_ana : GoogleUser
google_ana = record { email = some 11; email_verified = true; google_id = some 700 }

-- The address is that of the verified local account of user 1, which is adopted.
find_or_create_google_user-IsSignedIn_example :
    IsSignedIn deps google_ana 3 nonce 1000 world (sign_tokens deps ana 8 true 1000)
unfolding find_or_create_google_user returning_user adopt_local link_google_account
    login_google_user open_session find
find_or_create_google_user-IsSignedIn_example =
    find_or_create_google_user-IsSignedIn deps google_ana 3 nonce laptop 1000 world
      (find_or_create_google_user deps google_ana 3 nonce laptop 1000 world).1
      (sign_tokens deps ana 8 true 1000) refl

-- ===== src/Tests/Passkeys.antt =====
-- Passkeys at concrete inputs: the library accepts the response 55 and raises the counter.
use workspacebridge_backend.Base.{
  ◌≡◌, refl, none, some, false, [], ◌∷◌, ok, find, ◌+◌, ◌==◌, if◌then◌else◌,
}
use workspacebridge_backend.Store.{Db, Credential}
use workspacebridge_backend.Auth.Sessions.{sign_tokens, enforce_limit}
use workspacebridge_backend.Auth.Alerts.{handle_successful_login}
use workspacebridge_backend.Auth.TwoFactor.{evict_oldest}
use workspacebridge_backend.Auth.Passkeys.{
  WebAuthn, Assertion, Challenge, NewPasskey, Purpose, evict_sessions, verify_registration,
  verify_authentication, issue_session, read_challenge,
}
use workspacebridge_backend.Auth.Passkeys.SigningIn.{IsAsserted, asserted, evictions_agree}
use workspacebridge_backend.Auth.Passkeys.Registering.{IsRegistering, passkey_row, register_sign_in}
use workspacebridge_backend.Tests.Fixtures.{deps, world, ana, laptop, nonce, session}

abbrev for_registering : Challenge
for_registering = record { challenge = 800; purpose = Purpose.reg; user_id = some 1 }

abbrev for_login : Challenge
for_login = record { challenge = 801; purpose = Purpose.auth; user_id = none }

abbrev key : NewPasskey
key = record { credential_id = 850; public_key = 851; counter = 0 }

abbrev library : WebAuthn
library = record {
  sign_challenge = λ p now. p.challenge;
  read_token = λ token now.
      if token == 800
      then some for_registering
      else (if token == 801 then some for_login else none);
  verify_registration = λ response challenge. if response == 54 then some key else none;
  verify_authentication =
      λ response challenge k. if response == 55 then some (k.counter + 1) else none;
}

abbrev stored : Credential
stored = passkey_row library 860 1 54 (some 800) none none 1000 key

abbrev key_world : Db
key_world = record world { credentials = stored ∷ [] }

abbrev assertion : Assertion
assertion = record { credential_id = 850; response = 55 }

asserted_example :
    let out =
      verify_authentication deps library assertion (some 801) false nonce laptop 2000 key_world in
    (h : IsAsserted deps library assertion (some 801) false nonce laptop 2000 key_world)
    × (sign_tokens deps ana 8 false 2000 ≡ sign_tokens deps h.user 8 false 2000)
unfolding verify_authentication read_challenge find issue_session handle_successful_login
asserted_example =
    asserted deps library assertion (some 801) false nonce laptop 2000 key_world
      (verify_authentication deps library assertion (some 801) false nonce laptop 2000 key_world).1
      (sign_tokens deps ana 8 false 2000) refl

evictions_agree_example :
    (evict_oldest 1 (session ∷ []) ≡ enforce_limit 1 (session ∷ []))
    × (evict_sessions 1 (session ∷ []) ≡ enforce_limit 1 (session ∷ []))
evictions_agree_example = evictions_agree 1 (session ∷ [])

abbrev registering :
    IsRegistering library 860 1 54 (some 800) none none 1000 world for_registering key
registering = record {
  given = refl;
  signed = refl;
  for_registration = refl;
  for_user = refl;
  verified = refl;
}

register_sign_in_example :
    let registered = (verify_registration library 860 1 54 (some 800) none none 1000 world).1 in
    (verify_authentication deps library assertion (some 801) false nonce laptop 2000 registered).0
    ≡ ok (sign_tokens deps ana 8 false 2000)
unfolding find
register_sign_in_example =
    register_sign_in deps library 860 1 54 (some 800) none none 1000 2000 world for_registering
      for_login key ana 55 (some 801) false nonce laptop 1 registering refl refl refl refl refl refl
      refl

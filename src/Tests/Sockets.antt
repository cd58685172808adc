-- ===== src/Tests/Sockets.antt =====
-- The handshake of a socket and the CSRF guard at concrete inputs.
use workspacebridge_backend.Base.{refl, some, find}
use workspacebridge_backend.Store.{Deps}
use workspacebridge_backend.Sockets.{fresh, stamp, admit, handle_connection}
use workspacebridge_backend.Sockets.Handshake.{IsAuthentic, connected-IsAuthentic}
use workspacebridge_backend.Tests.Fixtures.{deps, refresh_claims, world}

-- A library that reads the claims of user 1 in the token 1001.
abbrev access_deps : Deps
access_deps = record deps { verify = λ secret now token. some refresh_claims }

connected-IsAuthentic_example :
    IsAuthentic access_deps
      (λ token. some 9000)
      (handle_connection access_deps (λ token. some 9000) (fresh 400) (some 1001) 1000 world)
      (some 1001)
      1000
      world
unfolding handle_connection stamp admit find
connected-IsAuthentic_example =
    connected-IsAuthentic access_deps (λ token. some 9000) (fresh 400) (some 1001) 1000 world refl
      refl

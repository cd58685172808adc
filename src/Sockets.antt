-- ===== src/Sockets.antt =====
-- Sockets: the handshake that the gateways share (handleConnection of src/message/message.gateway.ts and
-- src/whiteboard/whiteboard.gateway.ts) and src/libs/common/utils/socket-auth.ts.
pub mod Handshake
use workspacebridge_backend.Base.{
  ℕ, ◌*◌, Bool, true, false, not, ◌&&◌, ◌||◌, Option, none, some, List, [], ◌∷◌, leb, ◌==◌,
  if◌then◌else◌, find, truthy, or_else,
}
use workspacebridge_backend.Store.{
  Text, Time, User, UserStatus, is_active, JwtPayload, Deps, Room, Db,
}
use workspacebridge_backend.Auth.Login.{is_user}

-- `AuthenticatedSocket`: what the gateways keep on a connected client. `expires_at` is `exp`, in seconds.
pub record Socket : Type 0 where
  pub id : Text
  pub user_id : Option Text
  pub expires_at : Option ℕ
  pub connected : Bool

abbrev pub fresh : Text → Socket
fresh id = record { id = id; user_id = none; expires_at = none; connected = true }

abbrev pub disconnect : Socket → Socket
disconnect s = record s { connected = false }

-- `isTwoFactorAuthenticated === false`
abbrev pub awaits_second_factor : Option Bool → Bool
awaits_second_factor none = false
awaits_second_factor (some b) = not b

-- `!tokenExpiresAt || now.getTime() / 1000 >= tokenExpiresAt`
unfoldable pub is_socket_token_expired : Socket → Time → Bool
is_socket_token_expired s now = not (truthy s.expires_at) || leb (or_else s.expires_at 0 * 1000) now

-- Whether the event is dropped, and the socket after the test.
unfoldable pub reject_expired_socket : Socket → Time → Bool × Socket
unfolding is_socket_token_expired
reject_expired_socket s now =
    if is_socket_token_expired s now then (true, disconnect s) else (false, s)

module _ (d : Deps) (exp : Text → Option ℕ) where
  -- The part of `handleConnection` up to its `await`: the token is checked and the socket stamped.
  -- `exp` reads the claim of a token.
  unfoldable pub stamp : Socket → Option Text → Time → Socket
  stamp s token now =
      if not (truthy token)
      then disconnect s
      else elim (d.verify d.jwt_secret now (or_else token 0)) [
        | none ↦ disconnect s
        | some p ↦
            if p.user_id == 0 || awaits_second_factor p.is_two_factor_authenticated
            then disconnect s
            else record s { user_id = some p.user_id; expires_at = exp (or_else token 0) }
      ]

-- The part after it, on the row that the query has found: only an active account stays.
abbrev pub is_admitted : Option User → Bool
is_admitted none = false
is_admitted (some u) = is_active u.status

unfoldable pub admit : Socket → Option User → Socket
admit s user = if is_admitted user then s else disconnect s

-- The whole handshake, where nothing comes between.
unfoldable pub handle_connection :
    Deps → (Text → Option ℕ) → Socket → Option Text → Time → Db → Socket
unfolding stamp admit
handle_connection d exp s token now db =
    let stamped = stamp d exp s token now in
    if stamped.connected
    then admit stamped (find (is_user (or_else stamped.user_id 0)) db.users)
    else stamped

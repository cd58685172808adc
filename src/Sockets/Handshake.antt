-- ===== src/Sockets/Handshake.antt =====
-- Who gets a socket: handleConnection of the gateways under src, and src/libs/common/utils/socket-auth.ts.
use workspacebridge_backend.Base.{
  ℕ, ◌*◌, ◌≤◌, ◌≡◌, true, false, ◌||◌, Option, some, arith, inl, inr, ◌==◌, find, truthy, or_else,
  Option-cases, Bool-cases,
}
use workspacebridge_backend.Store.{Text, Time, User, is_active, JwtPayload, Deps, Db}
use workspacebridge_backend.Auth.Login.{is_user}
use workspacebridge_backend.Sockets.{
  Socket, stamp, admit, handle_connection, awaits_second_factor, is_socket_token_expired,
  reject_expired_socket,
}

module _ (d : Deps) (exp : Text → Option ℕ) where
  -- What a socket that stays connected has shown, and whom it speaks for until when.
  pub record IsAuthentic (s : Socket) (token : Option Text) (now : Time) (db : Db) : Type 0 where
    pub payload : JwtPayload
    pub user : User
    pub verified : d.verify d.jwt_secret now (or_else token 0) ≡ some payload
    pub complete : awaits_second_factor payload.is_two_factor_authenticated ≡ false
    pub known : find (is_user payload.user_id) db.users ≡ some user
    pub active : is_active user.status ≡ true
    pub speaks : s.user_id ≡ some payload.user_id
    pub expires : s.expires_at ≡ exp (or_else token 0)

  -- A socket that stays connected has shown a token that the access secret verifies, which is not one that
  -- waits for a second factor, and whose user is there and not suspended; the socket speaks for that
  -- user, until the time in the token.
  pub connected-IsAuthentic :
      (s : Socket) (token : Option Text) (now : Time) (db : Db)
      → s.connected ≡ true
      → (handle_connection d exp s token now db).connected ≡ true
      → IsAuthentic (handle_connection d exp s token now db) token now db
  unfolding handle_connection stamp admit
  connected-IsAuthentic s token now db on e = elim (Bool-cases (truthy token)) [
    | inr no_token ↦ ground arith
    | inl given ↦ elim (Option-cases (d.verify d.jwt_secret now (or_else token 0))) [
      | inl bad ↦ ground arith
      | inr (p, v) ↦
          elim (Bool-cases (p.user_id == 0 || awaits_second_factor p.is_two_factor_authenticated)) [
            | inl refused ↦ ground arith
            | inr good ↦ elim (Option-cases (find (is_user p.user_id) db.users)) [
              | inl unknown ↦ ground arith
              | inr (u, f) ↦
                  let works : is_active u.status ≡ true = ground arith in
                  record {
                    payload = p;
                    user = u;
                    verified = v;
                    complete = ground arith;
                    known = f;
                    active = works;
                    speaks = ground arith;
                    expires = ground arith;
                  }
            ]
          ]
    ]
  ]

-- Once the time in its token has come, a socket is disconnected at its next event, whatever it asks.
pub expired_rejected :
    (s : Socket) (now : Time) (t : ℕ)
    → s.expires_at ≡ some t
    → t * 1000 ≤ now
    → ((reject_expired_socket s now).0 ≡ true) × ((reject_expired_socket s now).1.connected ≡ false)
unfolding reject_expired_socket is_socket_token_expired
expired_rejected s now t e le = (ground arith, ground arith)

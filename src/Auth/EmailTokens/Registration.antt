-- ===== src/Auth/EmailTokens/Registration.antt =====
-- Registration and verification: registerUser and verifyEmail of src/auth/auth.service.ts.
use workspacebridge_backend.Base.{
  ◌+◌, ◌≤◌, ◌<◌, ◌≡◌, refl, true, false, ◌&&◌, none, some, [], ◌∷◌, arith, ok, err, bad_request,
  find, delete_where, ◌==◌, ltb, lt→ltb, find-update_where_hit, find-delete_where_self,
  find-delete_where_absent, find-append, find-fits,
}
use workspacebridge_backend.Store.{Text, Time, User, Token, Deps, Db, Reason, is_verification}
use workspacebridge_backend.Auth.Login.{has_email}
use workspacebridge_backend.Auth.EmailTokens.{
  has_token, verification_ttl_ms, verify_row, verify_email, verification_token, new_user,
  register_user,
}

module _ (d : Deps) where
  -- With an unbreached password, the answer to a registration does not tell a fresh address from a
  -- registered one; for a registered one no account, no session and no token is touched.
  pub register_alike :
      (email password id salt plain : Text) (now : Time) (db : Db)
      → ltb 0 (d.breach_count password) ≡ false
      → let out = register_user d email password id salt plain now db in
        (out.0 ≡ ok tt)
        × ((u : User)
            → find (has_email email) db.users ≡ some u
            → (out.1.users ≡ db.users)
              × (out.1.tokens ≡ db.tokens)
              × (out.1.sessions ≡ db.sessions))
  unfolding register_user
  register_alike email password id salt plain now db nb = (ground arith, λ u f. ground arith)

  -- A breached password is refused alike too, before the address is looked up, and nothing is written.
  pub register_breached :
      (email password id salt plain : Text) (now : Time) (db : Db)
      → ltb 0 (d.breach_count password) ≡ true
      → register_user d email password id salt plain now db
        ≡ (err bad_request Reason.breached_password, db)
  unfolding register_user
  register_breached email password id salt plain now db b = ground arith

  verified :
      (plain : Text) (now : Time) (db : Db) (t : Token) (u : User)
      → find (has_token (d.sha256 plain)) db.tokens ≡ some t
      → is_verification t.type ≡ true
      → ltb t.expires_in now ≡ false
      → find (has_email t.email) db.users ≡ some u
      → let out = verify_email d plain now db in
        (out.0 ≡ ok tt)
        × (find (has_email t.email) out.1.users ≡ some (verify_row u))
        × (find (has_token (d.sha256 plain)) out.1.tokens ≡ none)
  unfolding verify_email
  verified plain now db t u f v x a = ground (
    arith,
    find-update_where_hit (has_email t.email) (has_email t.email) verify_row db.users u (λ y. refl)
        a (find-fits (has_email t.email) db.users u a),
    find-delete_where_self (has_token (d.sha256 plain)) db.tokens,
  )

  registered :
      (email password id salt plain : Text) (now : Time) (db : Db)
      → ltb 0 (d.breach_count password) ≡ false
      → find (has_email email) db.users ≡ none
      → find (has_token (d.sha256 plain)) db.tokens ≡ none
      → let out = (register_user d email password id salt plain now db).1 in
        (find (has_email email) out.users ≡ some (new_user d id email password salt))
        × (find (has_token (d.sha256 plain)) out.tokens
            ≡ some (verification_token d email plain now))
  unfolding register_user find
  registered email password id salt plain now db nb fresh free = ground (
    arith,
    find-append (has_email email) db.users (new_user d id email password salt ∷ []) fresh,
    find-append (has_token (d.sha256 plain))
        (delete_where (λ t. t.email == email && is_verification t.type) db.tokens)
        (verification_token d email plain now ∷ []),
    find-delete_where_absent (has_token (d.sha256 plain))
        (λ t. t.email == email && is_verification t.type) db.tokens free,
  )

  -- Who registers a fresh address with an unbreached password and follows the link within 24 hours
  -- has a verified account, and the link is gone.
  pub register_verify :
      (email password id salt plain : Text) (now later : Time) (db : Db)
      → ltb 0 (d.breach_count password) ≡ false
      → find (has_email email) db.users ≡ none
      → find (has_token (d.sha256 plain)) db.tokens ≡ none
      → later ≤ now + verification_ttl_ms
      → let out =
          verify_email d plain later (register_user d email password id salt plain now db).1 in
        (out.0 ≡ ok tt)
        × (find (has_email email) out.1.users
            ≡ some (verify_row (new_user d id email password salt)))
        × (find (has_token (d.sha256 plain)) out.1.tokens ≡ none)
  register_verify email password id salt plain now later db nb fresh free soon =
      let (a, t) = registered email password id salt plain now db nb fresh free in
      verified plain later (register_user d email password id salt plain now db).1
        (verification_token d email plain now) (new_user d id email password salt) t refl
        (ground arith) a

  -- A verification link that has run out verifies nobody, and is dropped.
  pub verification_expires :
      (plain : Text) (now : Time) (db : Db) (t : Token)
      → find (has_token (d.sha256 plain)) db.tokens ≡ some t
      → is_verification t.type ≡ true
      → t.expires_in < now
      → let out = verify_email d plain now db in
        (out.0 ≡ err bad_request Reason.verification_expired)
        × (out.1.users ≡ db.users)
        × (find (has_token (d.sha256 plain)) out.1.tokens ≡ none)
  unfolding verify_email
  verification_expires plain now db t f v late =
      rw (f, v, lt→ltb t.expires_in now late)
        (refl, refl, find-delete_where_self (has_token (d.sha256 plain)) db.tokens)

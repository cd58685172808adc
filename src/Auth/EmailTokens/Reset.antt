-- ===== src/Auth/EmailTokens/Reset.antt =====
-- Password reset: resetPassword of src/auth/auth.service.ts.
use workspacebridge_backend.Base.{
  ◌+◌, ◌≤◌, ◌≡◌, refl, Bool, false, ◌&&◌, none, some, List, [], ◌∷◌, arith, inl, inr, Option-cases,
  ok, err, bad_request, Status, truthy, or_else, find, update_where, delete_where, ltb, take,
  find-update_where_hit, find-delete_where_self, find-delete_where_absent, find-append, ◌++◌,
  find-fits,
}
use workspacebridge_backend.Store.{Text, Time, User, Token, Deps, Db, Reason}
use workspacebridge_backend.Auth.Login.{has_email}
use workspacebridge_backend.Auth.Passwords.{
  assert_not_reused, matches_any, newest_first, history_limit, record_password, set_hash,
}
use workspacebridge_backend.Auth.EmailTokens.{
  has_token, is_session_of, replace_password, reset_password, verification_ttl_ms,
  verification_token, create_verification_token,
}

module _ (d : Deps) where
  -- What lets a reset through: the token is stored and unexpired, its address has an account, and
  -- the new password passes the breach and reuse checks.
  pub record CanReset (plain password : Text) (now : Time) (db : Db) (t : Token) (u : User)
      : Type 0 where
    pub unbreached : ltb 0 (d.breach_count password) ≡ false
    pub stored : find (has_token (d.sha256 plain)) db.tokens ≡ some t
    pub unexpired : ltb t.expires_in now ≡ false
    pub account : find (has_email t.email) db.users ≡ some u
    pub not_current : (truthy u.password && d.argon2_verify (or_else u.password 0) password) ≡ false
    pub not_recent :
        matches_any d password (take history_limit (newest_first u.id db.password_history)) ≡ false

  -- The state after the reset.
  pub record WasReset (plain password salt : Text) (db : Db) (t : Token) (u : User) (db' : Db)
      : Type 0 where
    pub token_gone : find (has_token (d.sha256 plain)) db'.tokens ≡ none
    pub hash_set :
        find (has_email t.email) db'.users ≡ some (set_hash (d.argon2_hash salt password) u)
    pub signed_out : find (is_session_of db'.users t.email) db'.sessions ≡ none

  -- A reset that passes every check burns the token, stores the new hash and closes every session of
  -- the account.
  pub reset_done :
      (plain password entry_id salt : Text) (now : Time) (db : Db) (t : Token) (u : User)
      → CanReset plain password now db t u
      → let out = reset_password d plain password entry_id salt now db in
        (out.0 ≡ ok tt) × WasReset plain password salt db t u out.1
  unfolding reset_password assert_not_reused replace_password record_password
  reset_done plain password entry_id salt now db t u h =
      let users =
        update_where (has_email t.email) (set_hash (d.argon2_hash salt password)) db.users in
      ground (
        arith,
        find-delete_where_self (has_token (d.sha256 plain)) db.tokens,
        find-update_where_hit (has_email t.email) (has_email t.email)
            (set_hash (d.argon2_hash salt password)) db.users u (λ x. refl) h.account
            (find-fits (has_email t.email) db.users u h.account),
        find-delete_where_self (is_session_of users t.email) db.sessions,
      )

  -- A reset that is refused has written nothing: the link in the e-mail stays good for another try.
  pub refused_reset_writes_nothing :
      (plain password entry_id salt : Text) (now : Time) (db db' : Db) (c : Status) (e : Reason)
      → reset_password d plain password entry_id salt now db ≡ (err c e, db')
      → db' ≡ db
  unfolding reset_password assert_not_reused replace_password record_password
  refused_reset_writes_nothing plain password entry_id salt now db db' c e h =
      elim (Option-cases (find (has_token (d.sha256 plain)) db.tokens)) [
        | inl gone ↦ ground arith
        | inr (t, f) ↦ ground arith
      ]

  -- After a reset that passed every check, the same link is refused as invalid, whatever
  -- unbreached password comes with it.
  pub reset_once :
      (plain password password' entry_id entry_id' salt salt' : Text) (now later : Time) (db : Db)
      (t : Token) (u : User)
      → CanReset plain password now db t u
      → ltb 0 (d.breach_count password') ≡ false
      → (reset_password d plain password' entry_id' salt' later
          (reset_password d plain password entry_id salt now db).1).0
        ≡ err bad_request Reason.invalid_reset_token
  unfolding reset_password
  reset_once plain password password' entry_id entry_id' salt salt' now later db t u h nb =
      let w = (reset_done plain password entry_id salt now db t u h).1 in
      ground (arith, w.token_gone)

  added :
      (hash : Text) (q : Token → Bool) (t : Token) (tokens : List Token)
      → find (has_token hash) tokens ≡ none
      → t.token ≡ hash
      → find (has_token hash) (delete_where q tokens ++ t ∷ []) ≡ some t
  unfolding find
  added hash q t tokens none_ e = ground (
    arith,
    find-append (has_token hash) (delete_where q tokens) (t ∷ []),
    find-delete_where_absent (has_token hash) q tokens none_,
  )

  -- `resetPassword` does not look at the type of the token: within the 24 hours of a fresh
  -- verification token, that token resets the password of the account with the address, if the new
  -- password passes the breach and reuse checks.
  pub verification_token_resets :
      (email plain password entry_id salt : Text) (now later : Time) (db : Db) (u : User)
      → find (has_token (d.sha256 plain)) db.tokens ≡ none
      → find (has_email email) db.users ≡ some u
      → later ≤ now + verification_ttl_ms
      → ltb 0 (d.breach_count password) ≡ false
      → (truthy u.password && d.argon2_verify (or_else u.password 0) password) ≡ false
      → matches_any d password (take history_limit (newest_first u.id db.password_history)) ≡ false
      → (reset_password d plain password entry_id salt later
          (create_verification_token d email plain now db).1).0
        ≡ ok tt
  unfolding create_verification_token
  verification_token_resets email plain password entry_id salt now later db u free a soon nb nc nr =
      (reset_done plain password entry_id salt later
        (create_verification_token d email plain now db).1 (verification_token d email plain now) u
        (record {
          unbreached = nb;
          stored =
              added (d.sha256 plain) _ (verification_token d email plain now) db.tokens free refl;
          unexpired = ground arith;
          account = a;
          not_current = nc;
          not_recent = nr;
        })).0

-- ===== src/Auth/TwoFactor/Guesses.antt =====
-- How often one pre-auth token can be tried: verifyTwoFactorForLogin and
-- registerFailedVerifyAttempt of src/auth/two-factor-auth.service.ts.
use workspacebridge_backend.Base.{
  inl, inr, ◌≡◌, refl, Bool, true, false, none, some, List, arith, Option-cases, not, Result,
  throw_if, bad_request, ◌>>◌, ok, err, unauthorized, truthy, or_else, find, update_where,
  find-update_where_self,
}
use workspacebridge_backend.Store.{Text, Time, User, Attempt, JwtPayload, Deps, Db, Reason}
use workspacebridge_backend.Auth.Sessions.{Client, Nonce, TokenPair}
use workspacebridge_backend.Auth.Alerts.{handle_successful_login}
use workspacebridge_backend.Auth.TwoFactor.{
  has_jti, is_pre_auth, is_usable, find_usable, failed_row, consumed_row, find_active,
  has_two_factor, check_second_factor, check_totp, finish_two_factor, consume, VerifyRequest,
  verify_two_factor,
}

module _ (d : Deps) where
  -- A request that gets as far as the second factor: its token is a pre-auth token that is still
  -- usable, and its user can complete a two-factor login.
  pub record Reaches (r : VerifyRequest) (now : Time) (db : Db) (p : JwtPayload) (a : Attempt)
      (u : User) : Type 0 where
    pub code_given : (truthy r.code ≡ true)
    pub no_backup : truthy r.backup_code ≡ false
    pub verified : d.verify d.jwt_secret now r.temp_token ≡ some p
    pub pre_auth : is_pre_auth p.is_two_factor_authenticated ≡ true
    pub has_claim : truthy p.jti ≡ true
    pub tracked : find (has_jti (or_else p.jti 0)) db.attempts ≡ some a
    pub usable : is_usable now a ≡ true
    pub user : find_active p.user_id db.users ≡ some u
    pub configured : has_two_factor u ≡ true

  usable_found :
      (jti : Text) (now : Time) (attempts : List Attempt) (a : Attempt)
      → find (has_jti jti) attempts ≡ some a
      → is_usable now a ≡ true
      → find_usable jti now attempts ≡ some a
  usable_found jti now attempts a f e = ground arith

  -- A wrong code is refused and counted against the token; nothing else changes. The fifth burns it.
  pub wrong_guess :
      (r : VerifyRequest) (n : Nonce) (now : Time) (db : Db) (p : JwtPayload) (a : Attempt)
      (u : User)
      → Reaches r now db p a u
      → d.totp_verify (or_else u.two_factor_secret 0) (or_else r.code 0) now ≡ false
      → verify_two_factor d r n now db ≡ (
        err unauthorized Reason.invalid_auth_code,
        record db { attempts = update_where (has_jti a.jti) (failed_row a.attempts) db.attempts },
      )
  unfolding verify_two_factor check_second_factor check_totp
  wrong_guess r n now db p a u h w = rw (
    h.code_given,
    h.verified,
    h.pre_auth,
    h.has_claim,
    usable_found _ now db.attempts a h.tracked h.usable,
    h.user,
    h.configured,
    h.no_backup,
    w,
  )

  -- A token whose row is consumed or gone is refused whatever the code, and nothing is written.
  pub unusable_refused :
      (r : VerifyRequest) (n : Nonce) (now : Time) (db : Db) (p : JwtPayload)
      → truthy r.code ≡ true
      → d.verify d.jwt_secret now r.temp_token ≡ some p
      → is_pre_auth p.is_two_factor_authenticated ≡ true
      → truthy p.jti ≡ true
      → find_usable (or_else p.jti 0) now db.attempts ≡ none
      → verify_two_factor d r n now db ≡ (err unauthorized Reason.invalid_session, db)
  unfolding verify_two_factor
  unusable_refused r n now db p c v pa hc nu = rw (c, v, pa, hc, nu)

  -- A wrong guess that would be the fifth, or more, burns the token.
  consumed_unusable :
      (jti : Text) (now : Time) (attempts : List Attempt)
      → find_usable jti now (update_where (has_jti jti) consumed_row attempts) ≡ none
  consumed_unusable jti now attempts =
      ground (arith, find-update_where_self (has_jti jti) consumed_row attempts (λ x. refl))

  attempts-finish :
      (u : User) (m : Bool) (n : Nonce) (c : Client) (now : Time) (db : Db)
      → (finish_two_factor d u m n c now db).1.attempts ≡ db.attempts
  unfolding finish_two_factor handle_successful_login
  attempts-finish u m n c now db = ground arith

  -- What is left of a request once its token, its row and its user are found.
  abbrev after_lookup :
      VerifyRequest → Nonce → Time → JwtPayload → Attempt → User → Db → Result Reason TokenPair × Db
  after_lookup r n now p a u = do
    throw_if (not (has_two_factor u)) bad_request Reason.two_factor_not_configured
    check_second_factor d u a r.code r.backup_code r.client now
    consume (or_else p.jti 0)
    finish_two_factor d u (or_else p.remember_me false) n r.client now

  after_lookup_consumes :
      (r : VerifyRequest) (n : Nonce) (now later : Time) (p : JwtPayload) (a : Attempt) (u : User)
      (db db' : Db) (t : TokenPair)
      → after_lookup r n now p a u db ≡ (ok t, db')
      → find_usable (or_else p.jti 0) later db'.attempts ≡ none
  unfolding consume
  after_lookup_consumes r n now later p a u db db' t e =
      let tried = (check_second_factor d u a r.code r.backup_code r.client now db).1 in
      ground (
        arith,
        consumed_unusable (or_else p.jti 0) later tried.attempts,
        attempts-finish u (or_else p.remember_me false) n r.client now (record tried {
          attempts = update_where (has_jti (or_else p.jti 0)) consumed_row tried.attempts;
        }),
      )

  -- After a success the token is consumed.
  pub success_consumes :
      (r : VerifyRequest) (n : Nonce) (now later : Time) (db db' : Db) (p : JwtPayload)
      (t : TokenPair)
      → d.verify d.jwt_secret now r.temp_token ≡ some p
      → verify_two_factor d r n now db ≡ (ok t, db')
      → find_usable (or_else p.jti 0) later db'.attempts ≡ none
  unfolding verify_two_factor
  success_consumes r n now later db db' p t v e =
      elim (Option-cases (find_usable (or_else p.jti 0) now db.attempts)) [
        | inl gone ↦ ground arith
        | inr (a, f) ↦ elim (Option-cases (find_active p.user_id db.users)) [
          | inl gone ↦ ground arith
          | inr (u, g) ↦ after_lookup_consumes r n now later p a u db db' t (ground arith)
        ]
      ]

-- ===== src/Auth/TwoFactor/Burn.antt =====
-- Five wrong codes burn a pre-auth token, and a used token is not used again; what a guess that runs
-- beside the successful one does to it. src/auth/two-factor-auth.service.ts.
use workspacebridge_backend.Base.{
  ◌+◌, ◌<◌, ◌≡◌, refl, true, false, ap, none, some, List, [], ◌∷◌, arith, ok, err, unauthorized,
  truthy, or_else, find, ltb, length, find-update_where_hit, find-update_where_self, ==_self,
}
use workspacebridge_backend.Store.{Text, Time, User, Attempt, JwtPayload, Deps, Db, Reason}
use workspacebridge_backend.Auth.Sessions.{Nonce, TokenPair}
use workspacebridge_backend.Auth.TwoFactor.{
  max_verify_attempts_per_token, has_jti, is_pre_auth, find_usable, failed_row,
  register_failed_verify_attempt, find_active, has_two_factor, VerifyRequest, verify_two_factor,
}
use workspacebridge_backend.Auth.TwoFactor.Guesses.{
  Reaches, wrong_guess, unusable_refused, success_consumes,
}

-- The pre-auth token of a user who may complete a two-factor login, with the row that tracks it.
pub record Pending (db : Db) (p : JwtPayload) (a : Attempt) (u : User) : Type 0 where
  pub pre_auth : is_pre_auth p.is_two_factor_authenticated ≡ true
  pub has_claim : truthy p.jti ≡ true
  pub tracked : find (has_jti (or_else p.jti 0)) db.attempts ≡ some a
  pub unconsumed : a.consumed ≡ false
  pub user : find_active p.user_id db.users ≡ some u
  pub configured : has_two_factor u ≡ true

-- A run of requests to /auth/2fa/verify.
abbrev pub Guess : Type 0
Guess = VerifyRequest × Nonce × Time

-- A failed guess that read its row before the successful one and writes after it makes the consumed
-- token usable again, unless it is the guess that burns.
pub late_failure_reopens :
    (jti : Text) (now : Time) (db : Db) (a : Attempt)
    → find (has_jti jti) db.attempts ≡ some a
    → a.consumed ≡ true
    → a.attempts + 1 < max_verify_attempts_per_token
    → ltb a.expires_at now ≡ false
    → (find_usable jti now db.attempts ≡ none)
      × (find_usable jti now (register_failed_verify_attempt jti a.attempts db).1.attempts
          ≡ some (failed_row a.attempts a))
unfolding register_failed_verify_attempt
late_failure_reopens jti now db a f used few fresh = (
  ground arith,
  ground
      (arith, find-update_where_self (has_jti jti) (failed_row a.attempts) db.attempts (λ x. refl)),
)

module _ (d : Deps) where
  pub verify_all : List Guess → Db → Db
  verify_all [] db = db
  verify_all ((r, n, now) ∷ rest) db = verify_all rest (verify_two_factor d r n now db).1

  -- A request with the token, in time, and with a wrong authenticator code.
  pub record IsWrong (p : JwtPayload) (u : User) (expires : Time) (r : VerifyRequest) (now : Time)
      : Type 0 where
    pub code_given : truthy r.code ≡ true
    pub no_backup : truthy r.backup_code ≡ false
    pub verified : d.verify d.jwt_secret now r.temp_token ≡ some p
    pub in_time : ltb expires now ≡ false
    pub wrong : d.totp_verify (or_else u.two_factor_secret 0) (or_else r.code 0) now ≡ false

  abbrev pub AllWrong : JwtPayload → User → Time → List Guess → Type 0
  AllWrong p u expires [] = Unit
  AllWrong p u expires ((r, n, now) ∷ rest) = IsWrong p u expires r now × AllWrong p u expires rest

  reaches :
      {r : VerifyRequest} {now : Time} {db : Db} {p : JwtPayload} {a : Attempt} {u : User}
      → Pending db p a u
      → IsWrong p u a.expires_at r now
      → Reaches d r now db p a u
  reaches h w = record {
    code_given = w.code_given;
    no_backup = w.no_backup;
    verified = w.verified;
    pre_auth = h.pre_auth;
    has_claim = h.has_claim;
    tracked = h.tracked;
    usable = ground arith;
    user = h.user;
    configured = h.configured;
  }

  -- The row after one wrong guess.
  guessed :
      (r : VerifyRequest) (n : Nonce) (now : Time) (db : Db) (p : JwtPayload) (a : Attempt)
      (u : User)
      → Pending db p a u
      → IsWrong p u a.expires_at r now
      → find (has_jti (or_else p.jti 0)) (verify_two_factor d r n now db).1.attempts
        ≡ some (failed_row a.attempts a)
  guessed r n now db p a u h w = rw (wrong_guess d r n now db p a u (reaches h w) w.wrong) (
      find-update_where_hit (has_jti (or_else p.jti 0)) (has_jti a.jti) (failed_row a.attempts)
        db.attempts a (λ x. refl) h.tracked (==_self a.jti))

  still_pending :
      (r : VerifyRequest) (n : Nonce) (now : Time) (db : Db) (p : JwtPayload) (a : Attempt)
      (u : User)
      → Pending db p a u
      → IsWrong p u a.expires_at r now
      → a.attempts + 1 < max_verify_attempts_per_token
      → Pending (verify_two_factor d r n now db).1 p (failed_row a.attempts a) u
  still_pending r n now db p a u h w few = record {
    pre_auth = h.pre_auth;
    has_claim = h.has_claim;
    tracked = guessed r n now db p a u h w;
    unconsumed = ground arith;
    user = rw (wrong_guess d r n now db p a u (reaches h w) w.wrong) h.user;
    configured = h.configured;
  }

  burned :
      (p : JwtPayload) (u : User) (rs : List Guess) (db : Db) (a : Attempt)
      → Pending db p a u
      → AllWrong p u a.expires_at rs
      → a.attempts + length rs ≡ max_verify_attempts_per_token
      → a.attempts < max_verify_attempts_per_token
      → (later : Time) → find_usable (or_else p.jti 0) later (verify_all rs db).attempts ≡ none
  unfolding verify_all
  burned p u [] db a h w e few later = absurd (omega arith)
  burned p u ((r, n, now) ∷ []) db a h w e few later =
      ground (arith, guessed r n now db p a u h w.0)
  burned p u ((r, n, now) ∷ g ∷ rs) db a h w e few later =
      burned p u (g ∷ rs) (verify_two_factor d r n now db).1 (failed_row a.attempts a)
        (still_pending r n now db p a u h w.0 (omega arith)) w.1 (omega arith) (omega arith) later

  -- Five wrong authenticator codes in time burn a fresh pre-auth token of a user with two-factor
  -- login: from then on it is refused, with the right code too, whenever it is presented and
  -- wherever from.
  pub fifth_guess_burns :
      (p : JwtPayload) (u : User) (rs : List Guess) (db : Db) (a : Attempt) (r : VerifyRequest)
      (n : Nonce) (later : Time)
      → Pending db p a u
      → AllWrong p u a.expires_at rs
      → a.attempts ≡ 0
      → length rs ≡ 5
      → truthy r.code ≡ true
      → d.verify d.jwt_secret later r.temp_token ≡ some p
      → (verify_two_factor d r n later (verify_all rs db)).0
        ≡ err unauthorized Reason.invalid_session
  fifth_guess_burns p u rs db a r n later h w z five c v =
      ap (λ x. x.0)
        (unusable_refused d r n later (verify_all rs db) p c v h.pre_auth h.has_claim
          (burned p u rs db a h w (omega arith) (omega arith) later))

  -- A pre-auth token that has completed a login is refused when it is presented again with a code,
  -- and nothing is written.
  pub replay_refused :
      (r r' : VerifyRequest) (n n' : Nonce) (now later : Time) (db db' : Db) (p : JwtPayload)
      (t : TokenPair)
      → d.verify d.jwt_secret now r.temp_token ≡ some p
      → verify_two_factor d r n now db ≡ (ok t, db')
      → truthy r'.code ≡ true
      → d.verify d.jwt_secret later r'.temp_token ≡ some p
      → is_pre_auth p.is_two_factor_authenticated ≡ true
      → truthy p.jti ≡ true
      → verify_two_factor d r' n' later db' ≡ (err unauthorized Reason.invalid_session, db')
  replay_refused r r' n n' now later db db' p t v e c v' pa hc =
      unusable_refused d r' n' later db' p c v' pa hc
        (success_consumes d r n now later db db' p t v e)

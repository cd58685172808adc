-- ===== src/Auth/Login/Lockout.antt =====
-- The lockout of src/auth/auth.service.ts: failed passwords are counted, the fifth locks, and a
-- locked account answers to no password.
use workspacebridge_backend.Base.{
  ℕ, ◌+◌, ◌<◌, ◌≡◌, refl, true, false, ◌∙◌, subst, sym, inl, inr, ◌⊎◌, Option, none, some, List, [],
  ◌∷◌, arith, ok, err, unauthorized, truthy, or_else, find, update_where, leb, if◌then◌else◌,
  find-update_where_hit, length, ==_self,
}
use workspacebridge_backend.Store.{Text, Time, User, Deps, Db, Reason, is_credentials}
use workspacebridge_backend.Auth.Sessions.{Client, Nonce}
use workspacebridge_backend.Auth.Login.{
  max_failed_login_attempts, lockout_duration_ms, has_email, is_user, count_failure, lock_until,
  register_failed_login, is_locked, LoginRequest, password_account, reject_password, login_user,
}

-- The account that a request names can log in with a password, and its id is its own.
pub record IsAccount (email : Text) (users : List User) (u : User) : Type 0 where
  pub by_email : find (has_email email) users ≡ some u
  pub by_id : find (is_user u.id) users ≡ some u
  pub by_password : is_credentials u.method ≡ true
  pub has_password : truthy u.password ≡ true

-- The row after a wrong password.
abbrev pub after_failure : Time → User → User
after_failure now u =
    if leb max_failed_login_attempts (u.failed_login_attempts + 1)
    then lock_until (now + lockout_duration_ms) (count_failure u)
    else count_failure u

account :
    (email : Text) (users : List User) (u : User)
    → IsAccount email users u
    → password_account email users ≡ some u
unfolding password_account
account email users u a = ground arith

abbrev counted : Text → List User → List User
counted id users = update_where (is_user id) count_failure users

module _ (email : Text) (now : Time) (users : List User) (u : User)
    (a : IsAccount email users u) where
  counted_by_id : find (is_user u.id) (counted u.id users) ≡ some (count_failure u)
  counted_by_id =
      find-update_where_hit (is_user u.id) (is_user u.id) count_failure users u (λ x. refl) a.by_id
        (==_self u.id)

  counted_by_email : find (has_email email) (counted u.id users) ≡ some (count_failure u)
  counted_by_email =
      find-update_where_hit (has_email email) (is_user u.id) count_failure users u (λ x. refl)
        a.by_email (==_self u.id)

  counted-IsAccount : IsAccount email (counted u.id users) (count_failure u)
  counted-IsAccount = record {
    by_email = counted_by_email;
    by_id = counted_by_id;
    by_password = a.by_password;
    has_password = a.has_password;
  }

  locked-IsAccount :
      (t : Time)
      → IsAccount email
          (update_where (is_user u.id) (lock_until t) (counted u.id users))
          (lock_until t (count_failure u))
  locked-IsAccount t = record {
    by_email =
        find-update_where_hit (has_email email) (is_user u.id) (lock_until t) (counted u.id users) _
          (λ x. refl) counted_by_email (==_self u.id);
    by_id =
        find-update_where_hit (is_user u.id) (is_user u.id) (lock_until t) (counted u.id users) _
          (λ x. refl) counted_by_id (==_self u.id);
    by_password = a.by_password;
    has_password = a.has_password;
  }

-- What `registerFailedLogin` answers and writes.
registered :
    (email : Text) (now : Time) (db : Db) (u : User)
    → IsAccount email db.users u
    → let full = leb max_failed_login_attempts (u.failed_login_attempts + 1) in
      register_failed_login u.id now db ≡ (
        ok full,
        record db {
          users =
              if full
              then update_where
                  (is_user u.id)
                  (lock_until (now + lockout_duration_ms))
                  (counted u.id db.users)
              else counted u.id db.users;
        },
      )
unfolding register_failed_login
registered email now db u a = ground (arith, counted_by_id email now db.users u a)

rejected :
    (email : Text) (c : Client) (now : Time) (db : Db) (u : User)
    → IsAccount email db.users u
    → let out = reject_password u c now db in
      (out.0
        ≡ err unauthorized (
            if leb max_failed_login_attempts (u.failed_login_attempts + 1)
            then Reason.too_many_attempts
            else Reason.invalid_credentials))
      × IsAccount email out.1.users (after_failure now u)
      × (out.1.sessions ≡ db.sessions)
unfolding reject_password
rejected email c now db u a = ground (
  arith,
  registered email now db u a,
  counted-IsAccount email now db.users u a,
  locked-IsAccount email now db.users u a (now + lockout_duration_ms),
)

module _ (d : Deps) where
  -- A wrong password is counted on the account; the fifth in a row locks it for fifteen minutes, and
  -- says so. Before that the answer is the one that an unknown e-mail gets.
  pub wrong_password :
      (r : LoginRequest) (n : Nonce) (jti : Text) (now : Time) (db : Db) (u : User)
      → IsAccount r.email db.users u
      → is_locked now u ≡ false
      → d.argon2_verify (or_else u.password 0) r.password ≡ false
      → let out = login_user d r n jti now db in
        (out.0
          ≡ err unauthorized (
              if leb max_failed_login_attempts (u.failed_login_attempts + 1)
              then Reason.too_many_attempts
              else Reason.invalid_credentials))
        × IsAccount r.email out.1.users (after_failure now u)
        × (out.1.sessions ≡ db.sessions)
  unfolding login_user
  wrong_password r n jti now db u a l w =
      rw (account r.email db.users u a, l, w) (rejected r.email r.client now db u a)

  -- While an account is locked every password gets the same refusal, and nothing is counted.
  pub locked_refuses :
      (r : LoginRequest) (n : Nonce) (jti : Text) (now : Time) (db : Db) (u : User)
      → IsAccount r.email db.users u
      → is_locked now u ≡ true
      → let out = login_user d r n jti now db in
        (out.0 ≡ err unauthorized Reason.account_locked)
        × (out.1.users ≡ db.users)
        × (out.1.sessions ≡ db.sessions)
  unfolding login_user
  locked_refuses r n jti now db u a l = rw (account r.email db.users u a, l) (refl, refl, refl)

  -- Unknown e-mails, accounts without a password login and wrong passwords below the threshold cannot
  -- be told apart by the answer.
  pub failures_alike :
      (r : LoginRequest) (n : Nonce) (jti : Text) (now : Time) (db : Db)
      → (password_account r.email db.users ≡ none)
        ⊎ ((u : User) × IsAccount r.email db.users u
            × (is_locked now u ≡ false)
            × (d.argon2_verify (or_else u.password 0) r.password ≡ false)
            × (u.failed_login_attempts + 1 < max_failed_login_attempts))
      → (login_user d r n jti now db).0 ≡ err unauthorized Reason.invalid_credentials
  unfolding login_user
  failures_alike r n jti now db (inl unknown) = ground arith
  failures_alike r n jti now db (inr (u, a, l, w, few)) =
      ground (arith, account r.email db.users u a, rejected r.email r.client now db u a)

  -- A run of password attempts.
  pub try_passwords : List (LoginRequest × Nonce × Text × Time) → Db → Db
  try_passwords [] db = db
  try_passwords ((r, n, jti, now) ∷ rest) db = try_passwords rest (login_user d r n jti now db).1

  -- Each attempt of the run names the account and has a wrong password.
  abbrev pub AllWrong : Text → Option Text → List (LoginRequest × Nonce × Text × Time) → Type 0
  AllWrong email hash [] = Unit
  AllWrong email hash ((r, n, jti, now) ∷ rest) =
      (r.email ≡ email)
      × (d.argon2_verify (or_else hash 0) r.password ≡ false)
      × AllWrong email hash rest

  -- The account after a run of wrong passwords: as it was, with the failures counted.
  abbrev pub Counted : Text → User → ℕ → List User → Type 0
  Counted email u k users =
      (v : User) × IsAccount email users v
      × (v.failed_login_attempts ≡ u.failed_login_attempts + k)
      × (v.locked_until ≡ none)
      × (v.password ≡ u.password)

  one_wrong :
      (email : Text) (r : LoginRequest) (n : Nonce) (jti : Text) (now : Time) (db : Db) (u : User)
      → IsAccount email db.users u
      → r.email ≡ email
      → u.locked_until ≡ none
      → d.argon2_verify (or_else u.password 0) r.password ≡ false
      → u.failed_login_attempts + 1 < max_failed_login_attempts
      → IsAccount email (login_user d r n jti now db).1.users (count_failure u)
  one_wrong email r n jti now db u a e l w few =
      subst (λ t. IsAccount t (login_user d r n jti now db).1.users (count_failure u)) e
        (subst (IsAccount r.email (login_user d r n jti now db).1.users) (ground arith)
          (wrong_password r n jti now db u (subst (λ t. IsAccount t db.users u) (sym e) a)
            (ground arith) w).1)

  -- Below the threshold a run of wrong passwords only counts.
  pub wrong_passwords_count :
      (email : Text) (rs : List (LoginRequest × Nonce × Text × Time)) (db : Db) (u : User)
      → IsAccount email db.users u
      → u.locked_until ≡ none
      → AllWrong email u.password rs
      → u.failed_login_attempts + length rs < max_failed_login_attempts
      → Counted email u (length rs) (try_passwords rs db).users
  unfolding try_passwords
  wrong_passwords_count email [] db u a l w few = (u, a, omega arith, l, refl)
  wrong_passwords_count email ((r, n, jti, now) ∷ rs) db u a l w few =
      let (v, b, k, free, p) =
        wrong_passwords_count email rs (login_user d r n jti now db).1 (count_failure u)
          (one_wrong email r n jti now db u a w.0 l w.1 (omega arith)) l w.2 (omega arith) in
      (v, b, omega (arith, k), free, p)

  -- An unlocked password account with no failures counted is locked by five wrong passwords in a
  -- row: for fifteen minutes from the fifth every login, with whatever password, gets the refusal
  -- of a locked account.
  pub fifth_locks :
      (email : Text) (rs : List (LoginRequest × Nonce × Text × Time)) (db : Db) (u : User)
      (r r' : LoginRequest) (n n' : Nonce) (jti jti' : Text) (now later : Time)
      → IsAccount email db.users u
      → u.locked_until ≡ none
      → u.failed_login_attempts ≡ 0
      → length rs ≡ 4
      → AllWrong email u.password ((r, n, jti, now) ∷ rs)
      → r'.email ≡ email
      → later < now + lockout_duration_ms
      → (login_user d r' n' jti' later (login_user d r n jti now (try_passwords rs db)).1).0
        ≡ err unauthorized Reason.account_locked
  fifth_locks email rs db u r r' n n' jti jti' now later a l z four w e soon =
      let (v, b, k, free, p) = wrong_passwords_count email rs db u a l w.2 (omega arith) in
      let c = subst (λ t. IsAccount t (try_passwords rs db).users v) (sym w.0) b in
      let out = (login_user d r n jti now (try_passwords rs db)).1 in
      let locked =
        (wrong_password r n jti now (try_passwords rs db) v c (ground arith)
          (subst (λ h. d.argon2_verify (or_else h 0) r.password ≡ false) (sym p) w.1)).1 in
      (locked_refuses r' n' jti' later out (after_failure now v)
        (subst (λ t. IsAccount t out.users (after_failure now v)) (w.0 ∙ sym e) locked)
        (ground arith)).0

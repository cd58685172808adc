-- ===== src/Auth/Cleanup/Expired.antt =====
-- What the deletion of expired rows may remove: src/auth/cleanup.service.ts.
use workspacebridge_backend.Base.{
  ℕ, zero, suc, ◌≤◌, ◌≡◌, refl, not, List, [], ◌∷◌, arith, ltb, select, count, delete_where, take,
  select-delete_where_other, count-delete_where_self, All, ◌∙◌,
}
use workspacebridge_backend.Store.{Time, Session, Token, ExchangeCode, Attempt, PendingSetup, Db}
use workspacebridge_backend.Auth.Cleanup.{
  run_cleanup, run_all, drop_sessions, drop_tokens, drop_codes, drop_attempts, drop_setups,
}

module _ (now later : Time) (after : now ≤ later) where
  -- Rows that are good at a later time survive the deletion of those that have expired now.
  survivors {ℓ} :
      {A : Type ℓ} (expiry : A → Time) (xs : List A)
      → select (λ x. not (ltb (expiry x) later)) (delete_where (λ x. ltb (expiry x) now) xs)
        ≡ select (λ x. not (ltb (expiry x) later)) xs
  survivors expiry xs =
      select-delete_where_other (λ x. not (ltb (expiry x) later)) (λ x. ltb (expiry x) now) xs
        (λ x e. ground arith)

  -- The rows that are good at a later time are the same.
  pub record SameLive (db db' : Db) : Type 0 where
    pub sessions :
        select (λ s. not (ltb s.expires_at later)) db'.sessions
        ≡ select (λ s. not (ltb s.expires_at later)) db.sessions
    pub tokens :
        select (λ t. not (ltb t.expires_in later)) db'.tokens
        ≡ select (λ t. not (ltb t.expires_in later)) db.tokens
    pub codes :
        select (λ c. not (ltb c.expires_at later)) db'.exchange_codes
        ≡ select (λ c. not (ltb c.expires_at later)) db.exchange_codes
    pub attempts :
        select (λ a. not (ltb a.expires_at later)) db'.attempts
        ≡ select (λ a. not (ltb a.expires_at later)) db.attempts
    pub setups :
        select (λ p. not (ltb p.expires_at later)) db'.pending_setups
        ≡ select (λ p. not (ltb p.expires_at later)) db.pending_setups
    pub users : db'.users ≡ db.users

  trans : (db db' db'' : Db) → SameLive db db' → SameLive db' db'' → SameLive db db''
  trans db db' db'' h k = record {
    sessions = k.sessions ∙ h.sessions;
    tokens = k.tokens ∙ h.tokens;
    codes = k.codes ∙ h.codes;
    attempts = k.attempts ∙ h.attempts;
    setups = k.setups ∙ h.setups;
    users = k.users ∙ h.users;
  }

  drop_sessions-SameLive : (db : Db) → SameLive db (drop_sessions now db)
  drop_sessions-SameLive db = record {
    sessions = survivors (λ x. x.expires_at) db.sessions;
    tokens = refl;
    codes = refl;
    attempts = refl;
    setups = refl;
    users = refl;
  }

  drop_tokens-SameLive : (db : Db) → SameLive db (drop_tokens now db)
  drop_tokens-SameLive db = record {
    sessions = refl;
    tokens = survivors (λ x. x.expires_in) db.tokens;
    codes = refl;
    attempts = refl;
    setups = refl;
    users = refl;
  }

  drop_codes-SameLive : (db : Db) → SameLive db (drop_codes now db)
  drop_codes-SameLive db = record {
    sessions = refl;
    tokens = refl;
    codes = survivors (λ x. x.expires_at) db.exchange_codes;
    attempts = refl;
    setups = refl;
    users = refl;
  }

  drop_attempts-SameLive : (db : Db) → SameLive db (drop_attempts now db)
  drop_attempts-SameLive db = record {
    sessions = refl;
    tokens = refl;
    codes = refl;
    attempts = survivors (λ x. x.expires_at) db.attempts;
    setups = refl;
    users = refl;
  }

  drop_setups-SameLive : (db : Db) → SameLive db (drop_setups now db)
  drop_setups-SameLive db = record {
    sessions = refl;
    tokens = refl;
    codes = refl;
    attempts = refl;
    setups = survivors (λ x. x.expires_at) db.pending_setups;
    users = refl;
  }

  run_all-SameLive :
      (n : ℕ) (fs : List (Db → Db)) (db : Db)
      → All (λ f. (d : Db) → SameLive d (f d)) fs
      → SameLive db (run_all (take n fs) db)
  unfolding run_all
  run_all-SameLive zero fs db h = record {
    sessions = refl;
    tokens = refl;
    codes = refl;
    attempts = refl;
    setups = refl;
    users = refl;
  }
  run_all-SameLive (suc n) [] db h = record {
    sessions = refl;
    tokens = refl;
    codes = refl;
    attempts = refl;
    setups = refl;
    users = refl;
  }
  run_all-SameLive (suc n) (f ∷ fs) db h =
      trans db (f db) (run_all (take n fs) (f db)) (h.0 db) (run_all-SameLive n fs (f db) h.1)

  steps-SameLive : (done : ℕ) (db : Db) → SameLive db (run_cleanup done now db)
  unfolding run_cleanup
  steps-SameLive done db = run_all-SameLive done _ db (
    drop_sessions-SameLive,
    (
      drop_tokens-SameLive,
      (drop_codes-SameLive, (drop_attempts-SameLive, (drop_setups-SameLive, tt))),
    ),
  )

  -- However far a cleanup gets, every session, token, exchange code, guess count and pending setup
  -- that is still good at that time or later stays, and the users are untouched. One that is not
  -- cut short leaves no row that has expired.
  pub cleanup_exact :
      (done : ℕ) (db : Db)
      → SameLive db (run_cleanup done now db)
        × (let out = run_cleanup 5 now db in
            (count (λ s. ltb s.expires_at now) out.sessions ≡ 0)
            × (count (λ t. ltb t.expires_in now) out.tokens ≡ 0)
            × (count (λ c. ltb c.expires_at now) out.exchange_codes ≡ 0)
            × (count (λ a. ltb a.expires_at now) out.attempts ≡ 0)
            × (count (λ p. ltb p.expires_at now) out.pending_setups ≡ 0))
  unfolding run_cleanup run_all
  cleanup_exact done db = (
    steps-SameLive done db,
    (
      count-delete_where_self (λ (s : Session). ltb s.expires_at now) db.sessions,
      count-delete_where_self (λ (t : Token). ltb t.expires_in now) db.tokens,
      count-delete_where_self (λ (c : ExchangeCode). ltb c.expires_at now) db.exchange_codes,
      count-delete_where_self (λ (a : Attempt). ltb a.expires_at now) db.attempts,
      count-delete_where_self (λ (p : PendingSetup). ltb p.expires_at now) db.pending_setups,
    ),
  )

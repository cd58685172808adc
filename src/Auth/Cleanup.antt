-- ===== src/Auth/Cleanup.antt =====
-- The hourly deletion of expired rows: src/auth/cleanup.service.ts.
pub mod Expired
use workspacebridge_backend.Base.{ℕ, ◌*◌, List, [], ◌∷◌, ltb, delete_where, take}
use workspacebridge_backend.Store.{Time, Session, Token, ExchangeCode, Attempt, PendingSetup, Db}

abbrev pub interval_ms : ℕ
interval_ms = 60 * 60 * 1000

-- The five deletions, in their order.
abbrev pub drop_sessions : Time → Db → Db
drop_sessions now db = record db { sessions = delete_where (λ s. ltb s.expires_at now) db.sessions }

abbrev pub drop_tokens : Time → Db → Db
drop_tokens now db = record db { tokens = delete_where (λ t. ltb t.expires_in now) db.tokens }

abbrev pub drop_codes : Time → Db → Db
drop_codes now db = record db {
  exchange_codes = delete_where (λ c. ltb c.expires_at now) db.exchange_codes;
}

abbrev pub drop_attempts : Time → Db → Db
drop_attempts now db = record db { attempts = delete_where (λ a. ltb a.expires_at now) db.attempts }

abbrev pub drop_setups : Time → Db → Db
drop_setups now db = record db {
  pending_setups = delete_where (λ p. ltb p.expires_at now) db.pending_setups;
}

unfoldable pub run_all : List (Db → Db) → Db → Db
run_all [] db = db
run_all (f ∷ fs) db = run_all fs (f db)

-- `done` is the number of deletions that the database takes before one fails, which ends the run: with
-- five, none fails.
unfoldable pub run_cleanup : ℕ → Time → Db → Db
unfolding run_all
run_cleanup done now db =
    run_all
      (take done (
        drop_sessions now
        ∷ drop_tokens now
        ∷ drop_codes now
        ∷ drop_attempts now
        ∷ drop_setups now
        ∷ []))
      db

-- ===== src/Auth/TwoFactor/Eviction.antt =====
-- The second copy of the session cap, in src/auth/two-factor-auth.service.ts.
use workspacebridge_backend.Base.{
  ◌≡◌, refl, List, arith, ap, Bool, leb→le, take, Bool-cases, length, select, leb, if◌then◌else◌,
  inl, inr,
}
use workspacebridge_backend.Store.{Text, Time, User, Session, Deps, Db}
use workspacebridge_backend.Auth.Sessions.{
  owned_by, new_session, enforce_limit, Client, Nonce, delete_sessions, session_ids,
}
use workspacebridge_backend.Auth.Sessions.Limit.{IsCapped, append-IsCapped}
use workspacebridge_backend.Auth.Alerts.{handle_successful_login}
use workspacebridge_backend.Auth.TwoFactor.{evict_oldest, finish_two_factor}

-- The eviction of the two-factor login is the one of the password login.
pub evict_oldest-eq-enforce_limit :
    (user_id : Text) (sessions : List Session)
    → evict_oldest user_id sessions ≡ enforce_limit user_id sessions
unfolding evict_oldest enforce_limit
evict_oldest-eq-enforce_limit user_id sessions =
    let own = select (owned_by user_id) sessions in
    elim (Bool-cases (leb 10 (length (select (owned_by user_id) sessions)))) [
      | inl full ↦
          ap
            (λ k.
              if leb 10 (length own)
              then delete_sessions (session_ids (take k own)) sessions
              else sessions)
            (omega (arith, leb→le 10 (length own) full))
      | inr room ↦ rw room
    ]

-- So a two-factor login keeps every user within ten sessions too.
pub finish_two_factor-IsCapped :
    (d : Deps) (u : User) (m : Bool) (n : Nonce) (c : Client) (now : Time) (db : Db)
    → IsCapped db.sessions
    → IsCapped (finish_two_factor d u m n c now db).1.sessions
unfolding finish_two_factor handle_successful_login
finish_two_factor-IsCapped d u m n c now db h = λ v. ground (
  arith,
  evict_oldest-eq-enforce_limit u.id db.sessions,
  append-IsCapped u.id (new_session d u n m c now) db.sessions refl h v,
)

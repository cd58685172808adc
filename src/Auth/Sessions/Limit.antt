-- ===== src/Auth/Sessions/Limit.antt =====
-- The cap on the sessions of a user: enforceSessionLimit of src/auth/auth.service.ts.
use workspacebridge_backend.Base.{
  ℕ, ◌+◌, ◌-◌, ◌≤◌, ◌<◌, ◌≡◌, refl, Bool, List, [], ◌∷◌, ◌++◌, arith, length, take, select, count,
  delete_where, elem, count-append, length-select, count-delete_where-le, count-delete_where-take,
  elem-map_self,
}
use workspacebridge_backend.Store.{Text, Time, User, Session, Deps, Db}
use workspacebridge_backend.Auth.Sessions.{
  max_sessions_per_user, owned_by, session_ids, delete_sessions, enforce_limit, Nonce, Client,
  open_session,
}

-- No user has more sessions than the cap.
abbrev pub IsCapped : List Session → Type 0
IsCapped sessions = (u : Text) → count (owned_by u) sessions ≤ max_sessions_per_user

evicted :
    (u : Text) (k : ℕ) (sessions : List Session)
    → count
        (owned_by u)
        (delete_sessions (session_ids (take k (select (owned_by u) sessions))) sessions)
      ≤ count (owned_by u) sessions - k
evicted u k sessions =
    count-delete_where-take (owned_by u) _ k sessions
      (elem-map_self (λ s. s.id) (take k (select (owned_by u) sessions)))

-- After the eviction the user has room for one more session.
pub count-enforce_limit :
    (u : Text) (sessions : List Session)
    → count (owned_by u) (enforce_limit u sessions) < max_sessions_per_user
unfolding enforce_limit
count-enforce_limit u sessions =
    let k = length (select (owned_by u) sessions) - max_sessions_per_user + 1 in
    ground (arith, length-select (owned_by u) sessions, evicted u k sessions)

-- The eviction adds no session to anybody.
pub count-enforce_limit-le :
    (u v : Text) (sessions : List Session)
    → count (owned_by v) (enforce_limit u sessions) ≤ count (owned_by v) sessions
unfolding enforce_limit
count-enforce_limit-le u v sessions =
    let k = length (select (owned_by u) sessions) - max_sessions_per_user + 1 in
    let ids = session_ids (take k (select (owned_by u) sessions)) in
    ground (arith, count-delete_where-le (owned_by v) (λ s. elem s.id ids) sessions)

pub append-IsCapped :
    (u : Text) (s : Session) (sessions : List Session)
    → s.user_id ≡ u
    → IsCapped sessions
    → IsCapped (enforce_limit u sessions ++ s ∷ [])
unfolding count
append-IsCapped u s sessions e h v = ground (
  arith,
  h v,
  count-append (owned_by v) (enforce_limit u sessions) (s ∷ []),
  count-enforce_limit u sessions,
  count-enforce_limit-le u v sessions,
)

-- Opening a session keeps every user within ten sessions, and the user who logs in has theirs.
pub open_session-IsCapped :
    (d : Deps) (u : User) (n : Nonce) (r : Bool) (c : Client) (now : Time) (db : Db)
    → IsCapped db.sessions
    → IsCapped (open_session d u n r c now db).1.sessions
unfolding open_session
open_session-IsCapped d u n r c now db h = append-IsCapped u.id _ db.sessions refl h

-- Revoking sessions keeps every user within the cap.
pub delete_where-IsCapped :
    (q : Session → Bool) (sessions : List Session)
    → IsCapped sessions
    → IsCapped (delete_where q sessions)
delete_where-IsCapped q sessions h v =
    omega (arith, h v, count-delete_where-le (owned_by v) q sessions)

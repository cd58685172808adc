-- ===== src/Auth/Sessions/Rotation.antt =====
-- Refresh-token rotation and its reuse detection: refresh and logout of src/auth/auth.service.ts.
use workspacebridge_backend.Base.{
  ◌+◌, ◌≤◌, ◌<◌, ◌≡◌, refl, Bool, true, false, inl, inr, none, some, List, arith, Bool-cases,
  Option-cases, ◌∙◌, subst, sym, ==_iff, ok, err, unauthorized, truthy, or_else, find, update_where,
  ◌==◌, ltb, if◌then◌else◌, find-fits, find-delete_where_self, find-update_where_self,
}
use workspacebridge_backend.Store.{Text, Time, Session, JwtPayload, Deps, Db, Reason}
use workspacebridge_backend.Auth.Sessions.{
  has_id, is_grace_hit, user_is_active, rotate, rotated_tokens, TokenPair, rotated_payload,
  session_ttl_ms, refresh, refresh_grace_period_ms,
}

-- A session that is found by some id is found by its own.
pub find_own :
    (id : Text) (sessions : List Session) (s : Session)
    → find (has_id id) sessions ≡ some s
    → find (has_id s.id) sessions ≡ some s
find_own id sessions s f =
    subst (λ k. find (has_id k) sessions ≡ some s)
      (sym ((==_iff s.id id).0 (find-fits (has_id id) sessions s f))) f

module _ (d : Deps) where
  -- The state in which `refresh` looks at a session: the token is signed, names the session, and
  -- the session is the user's.
  pub record Presents (token : Text) (now : Time) (db : Db) (p : JwtPayload) (s : Session)
      : Type 0 where
    pub verified : d.verify d.jwt_refresh_secret now token ≡ some p
    pub has_session : truthy p.session_id ≡ true
    pub found : find (has_id (or_else p.session_id 0)) db.sessions ≡ some s
    pub same_user : (s.user_id == p.user_id) ≡ true

  -- The session is there, unexpired, and its user is active.
  pub record IsLive (now : Time) (db : Db) (p : JwtPayload) (s : Session) : Type 0 where
    pub unexpired : ltb s.expires_at now ≡ false
    pub user_active : user_is_active (find (λ u. u.id == p.user_id) db.users) ≡ true

  -- The row of a session after a successful refresh.
  abbrev pub rotated_row : JwtPayload → Session → Text → Bool → Time → Session
  rotated_row p s salt grace_hit now = rotate d p s salt grace_hit now s

  abbrev pub rotated_db : JwtPayload → Session → Text → Bool → Time → Db → Db
  rotated_db p s salt grace_hit now db = record db {
    sessions = update_where (has_id s.id) (rotate d p s salt grace_hit now) db.sessions;
  }

  -- A current token is exchanged for a new pair, and the row of its session is rotated in place.
  pub refresh_current :
      (token salt : Text) (now : Time) (db : Db) (p : JwtPayload) (s : Session)
      → Presents token now db p s
      → IsLive now db p s
      → d.argon2_verify s.refresh_token token ≡ true
      → refresh d token salt now db
        ≡ (ok (rotated_tokens d p s now), rotated_db p s salt false now db)
  unfolding refresh
  refresh_current token salt now db p s h l m =
      rw (h.verified, h.has_session, h.found, h.same_user, m, l.unexpired, l.user_active)

  -- So is the token before it, within the grace period.
  pub refresh_grace :
      (token salt : Text) (now : Time) (db : Db) (p : JwtPayload) (s : Session)
      → Presents token now db p s
      → IsLive now db p s
      → d.argon2_verify s.refresh_token token ≡ false
      → is_grace_hit d s token now ≡ true
      → refresh d token salt now db
        ≡ (ok (rotated_tokens d p s now), rotated_db p s salt true now db)
  unfolding refresh
  refresh_grace token salt now db p s h l m g =
      rw (h.verified, h.has_session, h.found, h.same_user, m, g, l.unexpired, l.user_active)

  -- A signed token that names a session of its user, but matches neither the current hash nor, in
  -- the grace period, the previous one, is refused, and the session is deleted.
  pub refresh_reuse :
      (token salt : Text) (now : Time) (db : Db) (p : JwtPayload) (s : Session)
      → Presents token now db p s
      → d.argon2_verify s.refresh_token token ≡ false
      → is_grace_hit d s token now ≡ false
      → ((refresh d token salt now db).0 ≡ err unauthorized Reason.invalid_refresh_token)
        × (find (has_id s.id) (refresh d token salt now db).1.sessions ≡ none)
  unfolding refresh
  refresh_reuse token salt now db p s h m g =
      rw (h.verified, h.has_session, h.found, h.same_user, m, g)
        (refl, find-delete_where_self (has_id s.id) db.sessions)

  -- What makes a refresh succeed: a signed token that names a live session of an active user, and
  -- is the session's current token or, in the grace period, its previous one.
  pub record Refreshed (token salt : Text) (now : Time) (db : Db) (r : TokenPair) (db' : Db)
      : Type 0 where
    pub payload : JwtPayload
    pub session : Session
    pub grace_hit : Bool
    pub presents : Presents token now db payload session
    pub live : IsLive now db payload session
    pub matched :
        (if grace_hit
          then is_grace_hit d session token now
          else d.argon2_verify session.refresh_token token)
        ≡ true
    pub result : r ≡ rotated_tokens d payload session now
    pub state : db' ≡ rotated_db payload session salt grace_hit now db

  -- A refresh that succeeds met every check (a signed token that names a live session of its own
  -- active user and matches the current hash or, in the grace period, the previous one), answered
  -- with the rotated tokens, and wrote nothing but the rotated row.
  pub refresh-Refreshed :
      (token salt : Text) (now : Time) (db db' : Db) (r : TokenPair)
      → refresh d token salt now db ≡ (ok r, db')
      → Refreshed token salt now db r db'
  unfolding refresh
  refresh-Refreshed token salt now db db' r e =
      elim (Option-cases (d.verify d.jwt_refresh_secret now token)) [
        | inl none_ ↦ ground arith
        | inr (p, v) ↦ elim (Option-cases (find (has_id (or_else p.session_id 0)) db.sessions)) [
          | inl none_ ↦ ground arith
          | inr (s, f) ↦ elim (Bool-cases (d.argon2_verify s.refresh_token token)) [
            | inl m ↦ record {
              payload = p;
              session = s;
              grace_hit = false;
              presents = record {
                verified = v;
                has_session = ground arith;
                found = f;
                same_user = ground arith;
              };
              live = record { unexpired = ground arith; user_active = ground arith };
              matched = m;
              result = ground arith;
              state = ground arith;
            }
            | inr m ↦ elim (Bool-cases (is_grace_hit d s token now)) [
              | inl g ↦ record {
                payload = p;
                session = s;
                grace_hit = true;
                presents = record {
                  verified = v;
                  has_session = ground arith;
                  found = f;
                  same_user = ground arith;
                };
                live = record { unexpired = ground arith; user_active = ground arith };
                matched = g;
                result = ground arith;
                state = ground arith;
              }
              | inr g ↦ ground arith
            ]
          ]
        ]
      ]

  -- The rotated row is found by the id that the token names.
  rotated_found :
      (id : Text) (p : JwtPayload) (s : Session) (salt : Text) (g : Bool) (now : Time)
      (sessions : List Session)
      → find (has_id id) sessions ≡ some s
      → find (has_id id) (update_where (has_id s.id) (rotate d p s salt g now) sessions)
        ≡ some (rotated_row p s salt g now)
  rotated_found id p s salt g now sessions f =
      subst
        (λ k.
          find (has_id k) (update_where (has_id s.id) (rotate d p s salt g now) sessions)
          ≡ some (rotated_row p s salt g now))
        ((==_iff s.id id).0 (find-fits (has_id id) sessions s f))
        (find-update_where_self (has_id s.id) (rotate d p s salt g now) sessions
            (λ x. unfold rotate in refl)
          ∙ rw (find_own id sessions s f))

  -- After a refresh with the current token of a live session, the token that it hands out is good
  -- for the next refresh until the session expires, given that the JWT library verifies that token
  -- and argon2 its hash.
  pub refresh_again :
      (token salt salt' : Text) (now later : Time) (db : Db) (p : JwtPayload) (s : Session)
      → Presents token now db p s
      → IsLive now db p s
      → d.argon2_verify s.refresh_token token ≡ true
      → (let fresh = (rotated_tokens d p s now).refresh_token in
          (d.verify d.jwt_refresh_secret later fresh ≡ some (rotated_payload p s))
          × (d.argon2_verify (d.argon2_hash salt fresh) fresh ≡ true))
      → later ≤ now + session_ttl_ms (or_else p.remember_me false)
      → let db' = (refresh d token salt now db).1 in
        let fresh = (rotated_tokens d p s now).refresh_token in
        refresh d fresh salt' later db' ≡ (
          ok (rotated_tokens d (rotated_payload p s) (rotated_row p s salt false now) later),
          rotated_db (rotated_payload p s) (rotated_row p s salt false now) salt' false later db',
        )
  refresh_again token salt salt' now later db p s h l m jwt early =
      rw (refresh_current token salt now db p s h l m) (
        refresh_current _ salt' later _ (rotated_payload p s) (rotated_row p s salt false now)
          (record {
            verified = jwt.0;
            has_session =
                ground (arith, find-fits (has_id (or_else p.session_id 0)) db.sessions s h.found);
            found =
                rotated_found s.id p s salt false now db.sessions
                  (find_own _ db.sessions s h.found);
            same_user = unfold rotate in h.same_user;
          })
          (record { unexpired = unfold rotate in ground arith; user_active = l.user_active })
          (unfold rotate in jwt.1))

  -- After a refresh with the current token of a live session, this token is refused once the grace
  -- period is over, and the session is deleted; the token is still signed, and does not match the hash of the new one.
  pub refresh_stale :
      (token salt salt' : Text) (now later : Time) (db : Db) (p : JwtPayload) (s : Session)
      → Presents token now db p s
      → IsLive now db p s
      → d.argon2_verify s.refresh_token token ≡ true
      → d.verify d.jwt_refresh_secret later token ≡ some p
      → d.argon2_verify (d.argon2_hash salt (rotated_tokens d p s now).refresh_token) token ≡ false
      → now + refresh_grace_period_ms ≤ later
      → let r = refresh d token salt' later (refresh d token salt now db).1 in
        (r.0 ≡ err unauthorized Reason.invalid_refresh_token)
        × (find (has_id s.id) r.1.sessions ≡ none)
  unfolding rotate
  refresh_stale token salt salt' now later db p s h l m v other late =
      rw (refresh_current token salt now db p s h l m) (
        refresh_reuse token salt' later _ p (rotated_row p s salt false now)
          (record {
            verified = v;
            has_session = h.has_session;
            found = rotated_found _ p s salt false now db.sessions h.found;
            same_user = h.same_user;
          })
          other (unfold is_grace_hit in ground arith))

  -- A grace hit starts the grace period again: until thirty seconds after the hit the same old
  -- token is a grace hit once more, however long ago it was replaced.
  pub grace_renewed :
      (token salt : Text) (now later : Time) (p : JwtPayload) (s : Session)
      → is_grace_hit d s token now ≡ true
      → later < now + refresh_grace_period_ms
      → is_grace_hit d (rotated_row p s salt true now) token later ≡ true
  unfolding is_grace_hit rotate
  grace_renewed token salt now later p s g h = ground arith

-- ===== src/Admin/Suspending.antt =====
-- What a suspension takes away: updateUserStatus of src/admin/admin.service.ts.
use workspacebridge_backend.Base.{
  ◌≡◌, ◌≢◌, refl, ap, ◌∙◌, false, none, some, [], ◌∷◌, arith, ok, err, unauthorized, ◌==◌, find,
  count, select, update_where, delete_where, ◌++◌, find-update_where_hit, find-fits,
  count-delete_where_self, select-delete_where_other,
}
use workspacebridge_backend.Store.{
  Text, Time, User, UserStatus, Deps, Db, Reason, JwtPayload, is_active, AuditAction, AdminAction,
}
use workspacebridge_backend.Auth.Login.{is_user}
use workspacebridge_backend.Auth.Sessions.{TokenPair, owned_by, refresh}
use workspacebridge_backend.Auth.Sessions.Rotation.{refresh-Refreshed}
use workspacebridge_backend.Auth.Guards.{validate}
use workspacebridge_backend.Sockets.{awaits_second_factor}
use workspacebridge_backend.Admin.{get_user, set_status, update_user_status}

-- The database after the suspension of a user.
abbrev pub suspended_db : Text → Text → Db → Db
suspended_db id actor db = record db {
  users = update_where (is_user id) (set_status UserStatus.suspended) db.users;
  sessions = delete_where (owned_by id) db.sessions;
  audit_log =
      db.audit_log
      ++ record {
        action = AuditAction.by_admin AdminAction.status_change;
        actor_id = actor;
        user_agent = none;
      }
        ∷ [];
}

pub suspended_lem :
    (id actor : Text) (db : Db) (u : User)
    → find (is_user id) db.users ≡ some u
    → update_user_status id UserStatus.suspended actor db
      ≡ (ok (set_status UserStatus.suspended u), suspended_db id actor db)
unfolding update_user_status get_user
suspended_lem id actor db u e = ground arith

validate_suspended :
    (p : JwtPayload) (u : User) (db : Db)
    → find (is_user p.user_id) db.users ≡ some u
    → is_active u.status ≡ false
    → awaits_second_factor p.is_two_factor_authenticated ≡ false
    → validate p db ≡ (err unauthorized Reason.account_suspended, db)
unfolding validate
validate_suspended p u db e suspended complete = ground arith

refresh_refused :
    (d : Deps) (token salt : Text) (now : Time) (db : Db) (p : JwtPayload) (u : User)
    (r : TokenPair)
    → d.verify d.jwt_refresh_secret now token ≡ some p
    → find (is_user p.user_id) db.users ≡ some u
    → is_active u.status ≡ false
    → (refresh d token salt now db).0 ≢ ok r
refresh_refused d token salt now db p u r v e suspended ok_ =
    let h =
      refresh-Refreshed d token salt now db (refresh d token salt now db).1 r
        (ap (λ o. (o, (refresh d token salt now db).1)) ok_) in
    let verified = h.presents.verified in let active = h.live.user_active in ground arith

-- A suspended user has no session left, their access token is refused at once, and their refresh tokens
-- renew nothing; the sessions of another user stay.
pub suspension_locks_out :
    (d : Deps) (id actor other token salt : Text) (later : Time) (db : Db) (u : User)
    (p : JwtPayload) (r : TokenPair)
    → find (is_user id) db.users ≡ some u
    → (other == id) ≡ false
    → p.user_id ≡ id
    → awaits_second_factor p.is_two_factor_authenticated ≡ false
    → d.verify d.jwt_refresh_secret later token ≡ some p
    → let out = (update_user_status id UserStatus.suspended actor db).1 in
      (count (owned_by id) out.sessions ≡ 0)
      × (select (owned_by other) out.sessions ≡ select (owned_by other) db.sessions)
      × (validate p out ≡ (err unauthorized Reason.account_suspended, out))
      × ((refresh d token salt later out).0 ≢ ok r)
suspension_locks_out d id actor other token salt later db u p r e ne same complete v =
    let found =
      find-update_where_hit (is_user id) (is_user id) (set_status UserStatus.suspended) db.users u
        (λ x. refl) e (find-fits (is_user id) db.users u e) in
    let there : find (is_user p.user_id) (suspended_db id actor db).users
        ≡ some (set_status UserStatus.suspended u) =
      ap (λ k. find (is_user k) (suspended_db id actor db).users) same ∙ found in
    rw (suspended_lem id actor db u e) (
      count-delete_where_self (owned_by id) db.sessions,
      select-delete_where_other (owned_by other) (owned_by id) db.sessions (λ s a. ground arith),
      validate_suspended p (set_status UserStatus.suspended u) (suspended_db id actor db) there refl
          complete,
      refresh_refused d token salt later (suspended_db id actor db) p
          (set_status UserStatus.suspended u) r v there refl,
    )

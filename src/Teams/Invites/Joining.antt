-- ===== src/Teams/Invites/Joining.antt =====
-- What an accepted invite gives: src/invite/invite.service.ts.
use workspacebridge_backend.Base.{
  ℕ, ◌≡◌, refl, false, none, some, arith, inl, inr, ok, err, bad_request, unauthorized, Status,
  find, ◌==◌, Option-cases, ltb, find-update_where_hit, find-append_end, find-append_new, find-fits,
  ==_self,
}
use workspacebridge_backend.Store.{
  Text, Time, User, Workspace, Member, MemberRole, Invite, JwtPayload, Deps, Db, Reason,
}
use workspacebridge_backend.Auth.Login.{has_email}
use workspacebridge_backend.Auth.Sessions.{refresh, access_payload}
use workspacebridge_backend.Teams.Workspaces.{
  is_workspace, is_membership, get_workspace, ensure_workspace_access,
}
use workspacebridge_backend.Teams.Invites.{
  has_invite_token, get_invite, Acceptance, Draws, use_row, resolved_email, client_user,
  invite_refresh_token, join_workspace, accept_invite,
}

module _ (d : Deps) (refresh_expires_in : ℕ) where
  -- What lets an acceptance through.
  pub record CanJoin (token : Text) (a : Acceptance) (now : Time) (db : Db) (i : Invite)
      (email : Text) : Type 0 where
    pub stored : find (has_invite_token token) db.invites ≡ some i
    pub unused : i.used_at ≡ none
    pub unexpired : ltb i.expires_at now ≡ false
    pub address : resolved_email i a ≡ some email
    pub has_address : (email == 0) ≡ false
    pub free : find (has_email email) db.users ≡ none
    pub unbreached : ltb 0 (d.breach_count a.password) ≡ false

  -- Past the checks, an acceptance is the joining alone.
  accept_invite-join :
      (token : Text) (a : Acceptance) (x : Draws) (now : Time) (db : Db) (i : Invite) (email : Text)
      → CanJoin token a now db i email
      → accept_invite d refresh_expires_in token a x now db
        ≡ join_workspace d refresh_expires_in token i
            (client_user d refresh_expires_in x.user_id email a.password x.salt)
            x
            a.client
            now
            db
  unfolding accept_invite get_invite
  accept_invite-join token a x now db i email h =
      ground
        (arith, h.stored, h.unused, h.unexpired, h.address, h.has_address, h.free, h.unbreached)

  join_workspace_gives :
      (token : Text) (i : Invite) (u : User) (x : Draws) (a : Acceptance) (now : Time) (db : Db)
      (w : Workspace)
      → find (has_email u.email) db.users ≡ none
      → find (has_invite_token token) db.invites ≡ some i
      → find (is_workspace i.workspace_id) db.workspaces ≡ some w
      → let out = join_workspace d refresh_expires_in token i u x a.client now db in
        (find (has_email u.email) out.1.users ≡ some u)
        × (ensure_workspace_access i.workspace_id u.id out.1 ≡ (ok w, out.1))
        × (find (has_invite_token token) out.1.invites ≡ some (use_row now i))
  unfolding join_workspace ensure_workspace_access get_workspace
  join_workspace_gives token i u x a now db w free stored exists =
      let m : Member = record {
        workspace_id = i.workspace_id;
        user_id = u.id;
        role = MemberRole.client;
      } in
      (
        find-append_new (has_email u.email) db.users u free (==_self u.email),
        ground (
          arith,
          find-append_end (is_membership i.workspace_id u.id) db.members m
              (ground (arith, ==_self i.workspace_id, ==_self u.id)),
        ),
        find-update_where_hit (has_invite_token token) (has_invite_token token) (use_row now)
            db.invites i (λ j. refl) stored
            (find-fits (has_invite_token token) db.invites i stored),
      )

  -- An acceptance that passes every check makes an account for the address, which may use the
  -- workspace of the invite at once, and marks the invite as used.
  pub accept_invite_joins :
      (token : Text) (a : Acceptance) (x : Draws) (now : Time) (db : Db) (i : Invite) (email : Text)
      (w : Workspace)
      → CanJoin token a now db i email
      → find (is_workspace i.workspace_id) db.workspaces ≡ some w
      → let out = accept_invite d refresh_expires_in token a x now db in
        (find (has_email email) out.1.users
          ≡ some (client_user d refresh_expires_in x.user_id email a.password x.salt))
        × (ensure_workspace_access i.workspace_id x.user_id out.1 ≡ (ok w, out.1))
        × (find (has_invite_token token) out.1.invites ≡ some (use_row now i))
  accept_invite_joins token a x now db i email w h f =
      let u = client_user d refresh_expires_in x.user_id email a.password x.salt in
      rw (accept_invite-join token a x now db i email h)
        (join_workspace_gives token i u x a now db w h.free h.stored f)

  used_refused :
      (token : Text) (b : Acceptance) (y : Draws) (later now : Time) (db : Db) (i : Invite)
      → find (has_invite_token token) db.invites ≡ some (use_row now i)
      → accept_invite d refresh_expires_in token b y later db
        ≡ (err bad_request Reason.invite_used, db)
  unfolding accept_invite get_invite
  used_refused token b y later now db i f = ground arith

  -- After an acceptance that passed every check, the same invite is refused as used, whoever
  -- tries, and the refusal writes nothing.
  pub accept_invite_once :
      (token : Text) (a b : Acceptance) (x y : Draws) (now later : Time) (db : Db) (i : Invite)
      (email : Text) (w : Workspace)
      → CanJoin token a now db i email
      → find (is_workspace i.workspace_id) db.workspaces ≡ some w
      → let out = accept_invite d refresh_expires_in token a x now db in
        accept_invite d refresh_expires_in token b y later out.1
        ≡ (err bad_request Reason.invite_used, out.1)
  accept_invite_once token a b x y now later db i email w h f =
      used_refused token b y later now (accept_invite d refresh_expires_in token a x now db).1 i
        (accept_invite_joins token a x now db i email w h f).2

  -- A refused acceptance has written nothing.
  pub refused_acceptance_writes_nothing :
      (token : Text) (a : Acceptance) (x : Draws) (now : Time) (db db' : Db) (c : Status)
      (e : Reason)
      → accept_invite d refresh_expires_in token a x now db ≡ (err c e, db')
      → db' ≡ db
  unfolding accept_invite join_workspace get_invite
  refused_acceptance_writes_nothing token a x now db db' c e h =
      elim (Option-cases (find (has_invite_token token) db.invites)) [
        | inl gone ↦ ground arith
        | inr (i, f) ↦ ground arith
      ]

  -- The refresh token that an acceptance hands out is of no use when the two secrets differ: no
  -- token that was signed with one secret passes the check of another, so the first refresh is refused.
  pub invite_refresh_token_refused :
      (u : User) (session_id salt : Text) (now later : Time) (db : Db)
      → ((secret other : Text) (p : JwtPayload) (ttl : ℕ)
          → (secret == other) ≡ false
          → d.verify other later (d.sign secret p ttl now) ≡ none)
      → (d.jwt_secret == d.jwt_refresh_secret) ≡ false
      → refresh d (invite_refresh_token d refresh_expires_in u session_id now) salt later db
        ≡ (err unauthorized Reason.invalid_refresh_token, db)
  unfolding refresh invite_refresh_token
  invite_refresh_token_refused u session_id salt now later db verify_other differ = rw (
      verify_other d.jwt_secret d.jwt_refresh_secret
        (record (access_payload u) { session_id = some session_id }) refresh_expires_in differ)

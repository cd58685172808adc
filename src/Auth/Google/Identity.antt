-- ===== src/Auth/Google/Identity.antt =====
-- Whose account a Google sign-in opens: findOrCreateGoogleUser of src/auth/auth.service.ts.
use workspacebridge_backend.Base.{
  ◌≡◌, true, false, none, some, [], ◌∷◌, ◌++◌, arith, ok, err, conflict, find, ◌==◌,
  find-append_new, ==_self, ==_iff, find-fits, refl, ap, sym, ◌∙◌, inl, inr, Bool-cases,
  Option-cases,
}
use workspacebridge_backend.Store.{
  Text, Time, AuditAction, write_audit_log, send_mail, User, Account, Deps, Db, Reason, is_active,
}
use workspacebridge_backend.Auth.Sessions.{Client, Nonce, TokenPair, open_session, sign_tokens}
use workspacebridge_backend.Auth.Login.{has_email, is_user}
use workspacebridge_backend.Auth.Google.{
  GoogleUser, google, google_user, has_subject, is_google_of, returning_user, link_google_account,
  login_google_user, adopt_local, register_google, find_or_create_google_user,
}

-- Google vouches for an address.
pub record IsVouched (g : GoogleUser) (email : Text) : Type 0 where
  pub address : g.email ≡ some email
  pub nonempty : (email == 0) ≡ false
  pub verified : g.email_verified ≡ true

module _ (d : Deps) where
  -- A local account whose address was never verified is not handed to a new Google identity that
  -- is vouched for under that address: the sign-in is refused and nothing is written.
  pub unverified_not_adopted :
      (g : GoogleUser) (email id : Text) (n : Nonce) (c : Client) (now : Time) (db : Db) (u : User)
      → IsVouched g email
      → returning_user g.google_id db.accounts db.users ≡ none
      → find (has_email email) db.users ≡ some u
      → u.is_verified ≡ false
      → find_or_create_google_user d g id n c now db
        ≡ (err conflict Reason.unverified_local_account, db)
  unfolding find_or_create_google_user adopt_local
  unverified_not_adopted g email id n c now db u v new local unverified =
      ground (arith, v.address, v.nonempty, v.verified)

  -- A returning user is known by the subject that Google gives, if Google vouches for some
  -- address: the session opened is that of the active user linked to the subject, whatever the
  -- address, and whether or not they have a second factor.
  pub subject_decides :
      (g : GoogleUser) (email subject id : Text) (n : Nonce) (c : Client) (now : Time) (db : Db)
      (a : Account) (u : User)
      → IsVouched g email
      → g.google_id ≡ some subject
      → (subject == 0) ≡ false
      → find (has_subject subject) db.accounts ≡ some a
      → find (is_user a.user_id) db.users ≡ some u
      → find (has_email u.email) db.users ≡ some u
      → is_active u.status ≡ true
      → find_or_create_google_user d g id n c now db ≡ open_session d u n true c now db
  unfolding find_or_create_google_user returning_user login_google_user
  subject_decides g email subject id n c now db a u v s ne linked found unique active =
      ground (arith, v.address, v.nonempty, v.verified)

  -- An address that nobody has gets a verified account of its own, linked to the subject.
  pub new_address_registers :
      (g : GoogleUser) (email id : Text) (n : Nonce) (c : Client) (now : Time) (db : Db)
      → IsVouched g email
      → returning_user g.google_id db.accounts db.users ≡ none
      → find (has_email email) db.users ≡ none
      → find (is_google_of id) db.accounts ≡ none
      → let out = find_or_create_google_user d g id n c now db in
        (out.0 ≡ ok (sign_tokens d (google_user id email) n.session_id true now))
        × (out.1.users ≡ db.users ++ google_user id email ∷ [])
        × (out.1.accounts
            ≡ db.accounts
              ++ record { provider = google; provider_account_id = g.google_id; user_id = id } ∷ [])
  unfolding find_or_create_google_user register_google link_google_account login_google_user
      open_session
  new_address_registers g email id n c now db v new free fresh = ground (
    arith,
    v.address,
    v.nonempty,
    v.verified,
    find-append_new (has_email email) db.users (google_user id email) free (==_self email),
  )

  -- The three ways into an account: by the subject that is linked to it, by a verified local account with
  -- the address, or by a new account.
  pub data Way (g : GoogleUser) (email id : Text) (db : Db) (u : User) : Type 0 where
    returning :
        (v : User)
        → returning_user g.google_id db.accounts db.users ≡ some v
        → find (has_email v.email) db.users ≡ some u
        → Way g email id db u
    adopted :
        returning_user g.google_id db.accounts db.users ≡ none
        → find (has_email email) db.users ≡ some u
        → u.is_verified ≡ true
        → Way g email id db u
    registered :
        returning_user g.google_id db.accounts db.users ≡ none
        → find (has_email email) db.users ≡ none
        → u ≡ google_user id email
        → Way g email id db u

  pub record IsSignedIn (g : GoogleUser) (id : Text) (n : Nonce) (now : Time) (db : Db)
      (t : TokenPair) : Type 0 where
    pub email : Text
    pub user : User
    pub vouched : IsVouched g email
    pub way : Way g email id db user
    pub active : is_active user.status ≡ true
    pub tokens : t ≡ sign_tokens d user n.session_id true now

  -- A sign-in by address that goes through opens the session of the active user with the address.
  opens :
      (email : Text) (n : Nonce) (c : Client) (now : Time) (db db' : Db) (t : TokenPair)
      → login_google_user d email n c now db ≡ (ok t, db')
      → (u : User) × (find (has_email email) db.users ≡ some u)
        × (is_active u.status ≡ true)
        × (t ≡ sign_tokens d u n.session_id true now)
  unfolding login_google_user open_session
  opens email n c now db db' t e = elim (Option-cases (find (has_email email) db.users)) [
    | inl gone ↦ ground arith
    | inr (u, f) ↦ elim (Bool-cases (is_active u.status)) [
      | inl active ↦ (u, f, active, ground arith)
      | inr suspended ↦ ground arith
    ]
  ]

  adopts :
      (v : User) (g : GoogleUser) (n : Nonce) (c : Client) (now : Time) (db db' : Db)
      (t : TokenPair)
      → adopt_local d v g n c now db ≡ (ok t, db')
      → (v.is_verified ≡ true)
        × ((u : User) × (find (has_email v.email) db.users ≡ some u)
            × (is_active u.status ≡ true)
            × (t ≡ sign_tokens d u n.session_id true now))
  unfolding adopt_local link_google_account
  adopts v g n c now db db' t e = elim (Bool-cases v.is_verified) [
    | inr unverified ↦ ground arith
    | inl verified ↦
        let linked = (link_google_account v.id g.google_id db).1 in
        let logged = (write_audit_log AuditAction.account_linked v.id none linked).1 in
        (verified, opens v.email n c now (send_mail v.email none logged).1 db' t (ground arith))
  ]

  registers :
      (id email : Text) (g : GoogleUser) (n : Nonce) (c : Client) (now : Time) (db db' : Db)
      (t : TokenPair)
      → register_google d id email g n c now db ≡ (ok t, db')
      → find (has_email email) db.users ≡ none
      → t ≡ sign_tokens d (google_user id email) n.session_id true now
  unfolding register_google link_google_account login_google_user open_session
  registers id email g n c now db db' t e free = ground (
    arith,
    find-append_new (has_email email) db.users (google_user id email) free (==_self email),
  )

  adopted_in :
      (v : User) (g : GoogleUser) (email id : Text) (n : Nonce) (now : Time) (db : Db)
      (t : TokenPair)
      → IsVouched g email
      → returning_user g.google_id db.accounts db.users ≡ none
      → find (has_email email) db.users ≡ some v
      → (v.is_verified ≡ true)
        × ((u : User) × (find (has_email v.email) db.users ≡ some u)
            × (is_active u.status ≡ true)
            × (t ≡ sign_tokens d u n.session_id true now))
      → IsSignedIn g id n now db t
  adopted_in v g email id n now db t vouched new f (known, (u, found, active, tokens)) =
      let address : v.email ≡ email =
        (==_iff v.email email).0 (find-fits (has_email email) db.users v f) in
      let same : some v ≡ some u =
        sym f ∙ ap (λ k. find (has_email k) db.users) (sym address) ∙ found in
      let equal : v ≡ u = ap (λ o. elim o [ none ↦ v | some x ↦ x ]) same in
      record {
        email = email;
        user = u;
        vouched = vouched;
        way = Way.adopted new (f ∙ same) (ap (λ (x : User). x.is_verified) (sym equal) ∙ known);
        active = active;
        tokens = tokens;
      }

  -- A Google sign-in that goes through: Google vouches for an address, and the session is that of an active
  -- user, who is linked to Google's subject, or has the address in a verified local account, or is new
  -- with it, in this order. (The user of the subject is looked up again by their own address.)
  pub find_or_create_google_user-IsSignedIn :
      (g : GoogleUser) (id : Text) (n : Nonce) (c : Client) (now : Time) (db db' : Db)
      (t : TokenPair)
      → find_or_create_google_user d g id n c now db ≡ (ok t, db')
      → IsSignedIn g id n now db t
  unfolding find_or_create_google_user
  find_or_create_google_user-IsSignedIn g id n c now db db' t e = elim (Option-cases g.email) [
    | inl no_address ↦ ground arith
    | inr (email, a) ↦ elim (Bool-cases (email == 0)) [
      | inl blank ↦ ground arith
      | inr given ↦ elim (Bool-cases g.email_verified) [
        | inr not_vouched ↦ ground arith
        | inl verified ↦
            let vouched : IsVouched g email = record {
              address = a;
              nonempty = given;
              verified = verified;
            } in
            elim (Option-cases (returning_user g.google_id db.accounts db.users)) [
              | inr (v, r) ↦
                  let (u, f, active, tokens) = opens v.email n c now db db' t (ground arith) in
                  record {
                    email = email;
                    user = u;
                    vouched = vouched;
                    way = Way.returning v r f;
                    active = active;
                    tokens = tokens;
                  }
              | inl new ↦ elim (Option-cases (find (has_email email) db.users)) [
                | inr (v, f) ↦
                    adopted_in v g email id n now db t vouched new f
                      (adopts v g n c now db db' t (ground arith))
                | inl free ↦ record {
                  email = email;
                  user = google_user id email;
                  vouched = vouched;
                  way = Way.registered new free refl;
                  active = refl;
                  tokens = registers id email g n c now db db' t (ground arith) free;
                }
              ]
            ]
      ]
    ]
  ]

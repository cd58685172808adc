-- ===== src/Auth/Passkeys/SigningIn.antt =====
-- Signing in with a passkey: verifyAuthentication and issueSession of src/auth/passkey.service.ts.
use workspacebridge_backend.Base.{
  ℕ, ◌≡◌, refl, ap, ◌∙◌, Bool, true, Option, some, List, arith, ok, inl, inr, or_else, truthy, find,
  update_where, Option-cases, Bool-cases, ==_self, find-update_where_hit,
}
use workspacebridge_backend.Store.{Text, Time, User, Session, Credential, is_active, Deps, Db}
use workspacebridge_backend.Auth.Login.{is_user}
use workspacebridge_backend.Auth.Sessions.{
  Client, Nonce, TokenPair, enforce_limit, new_session, sign_tokens,
}
use workspacebridge_backend.Auth.Sessions.Limit.{IsCapped, append-IsCapped}
use workspacebridge_backend.Auth.Alerts.{handle_successful_login}
use workspacebridge_backend.Auth.TwoFactor.{evict_oldest}
use workspacebridge_backend.Auth.TwoFactor.Eviction.{evict_oldest-eq-enforce_limit}
use workspacebridge_backend.Auth.Passkeys.{
  Purpose, Challenge, WebAuthn, Assertion, is_same, is_passkey, has_credential_id, evict_sessions,
  used_row, read_challenge, issue_session, verify_authentication,
}

-- The three logins make room for a session in the same way: that of the second factor and that of the
-- passkey evict the rows that the login by password evicts.
pub evictions_agree :
    (user_id : Text) (sessions : List Session)
    → (evict_oldest user_id sessions ≡ enforce_limit user_id sessions)
      × (evict_sessions user_id sessions ≡ enforce_limit user_id sessions)
unfolding evict_sessions evict_oldest
evictions_agree user_id sessions =
    (evict_oldest-eq-enforce_limit user_id sessions, evict_oldest-eq-enforce_limit user_id sessions)

-- A login by passkey keeps every user within ten sessions.
pub issue_session-IsCapped :
    (d : Deps) (u : User) (m : Bool) (n : Nonce) (c : Client) (now : Time) (db : Db)
    → IsCapped db.sessions
    → IsCapped (issue_session d u m n c now db).1.sessions
unfolding issue_session handle_successful_login
issue_session-IsCapped d u m n c now db h = λ v. ground (
  arith,
  (evictions_agree u.id db.sessions).1,
  append-IsCapped u.id (new_session d u n m c now) db.sessions refl h v,
)

pub issue_session-answer :
    (d : Deps) (u : User) (m : Bool) (n : Nonce) (c : Client) (now : Time) (db : Db)
    → (issue_session d u m n c now db).0 ≡ ok (sign_tokens d u n.session_id m now)
unfolding issue_session handle_successful_login
issue_session-answer d u m n c now db = ground arith

issue_session_keeps :
    (d : Deps) (u : User) (m : Bool) (n : Nonce) (c : Client) (now : Time) (db : Db)
    → ((issue_session d u m n c now db).1.users ≡ db.users)
      × ((issue_session d u m n c now db).1.credentials ≡ db.credentials)
unfolding issue_session handle_successful_login
issue_session_keeps d u m n c now db = (ground arith, ground arith)

module _ (d : Deps) (x : WebAuthn) (a : Assertion) (token : Option Text) (m : Bool) (n : Nonce)
    (c : Client) (now : Time) where
  -- What a login by passkey has passed.
  pub record IsAsserted (db : Db) : Type 0 where
    pub challenge : Challenge
    pub credential : Credential
    pub user : User
    pub counter : ℕ
    pub signed : x.read_token (or_else token 0) now ≡ some challenge
    pub for_login : is_same challenge.purpose Purpose.auth ≡ true
    pub known : find (has_credential_id a.credential_id) db.credentials ≡ some credential
    pub owner : find (is_user credential.user_id) db.users ≡ some user
    pub verified : x.verify_authentication a.response challenge.challenge credential ≡ some counter
    pub active : is_active user.status ≡ true

  abbrev advanced : Db → Credential → ℕ → Db
  advanced db k counter = record db {
    credentials = update_where (is_passkey k.id) (used_row counter now) db.credentials;
  }

  -- The login, once all is passed.
  pub verify_authentication_lem :
      (db : Db) (h : IsAsserted db)
      → truthy token ≡ true
      → verify_authentication d x a token m n c now db
        ≡ issue_session d h.user m n c now (advanced db h.credential h.counter)
  unfolding verify_authentication read_challenge
  verify_authentication_lem db h given =
      let e1 = h.signed in
      let e2 = h.for_login in
      let e3 = h.known in
      let e4 = h.owner in let e5 = h.verified in let e6 = h.active in ground arith

  -- A login by passkey answers with tokens only for a challenge that this server signed for a login and
  -- that has not expired, a passkey that is registered, a response that the library verifies for both,
  -- and an active owner of the passkey; and the tokens are the owner's.
  pub asserted :
      (db db' : Db) (t : TokenPair)
      → verify_authentication d x a token m n c now db ≡ (ok t, db')
      → (h : IsAsserted db) × (t ≡ sign_tokens d h.user n.session_id m now)
  unfolding verify_authentication read_challenge
  asserted db db' t e = elim (Bool-cases (truthy token)) [
    | inr no_token ↦ ground arith
    | inl given ↦ elim (Option-cases (x.read_token (or_else token 0) now)) [
      | inl unsigned ↦ ground arith
      | inr (p, e1) ↦ elim (Bool-cases (is_same p.purpose Purpose.auth)) [
        | inr other ↦ ground arith
        | inl login ↦
            elim (Option-cases (find (has_credential_id a.credential_id) db.credentials)) [
              | inl unknown ↦ ground arith
              | inr (k, e2) ↦ elim (Option-cases (find (is_user k.user_id) db.users)) [
                | inl gone ↦ ground arith
                | inr (u, e3) ↦
                    elim (Option-cases (x.verify_authentication a.response p.challenge k)) [
                      | inl failed ↦ ground arith
                      | inr (counter, e4) ↦ elim (Bool-cases (is_active u.status)) [
                        | inr suspended ↦ ground arith
                        | inl active ↦ (
                          record {
                            challenge = p;
                            credential = k;
                            user = u;
                            counter = counter;
                            signed = e1;
                            for_login = login;
                            known = e2;
                            owner = e3;
                            verified = e4;
                            active = active;
                          },
                          ground
                              (arith, issue_session-answer d u m n c now (advanced db k counter)),
                        )
                      ]
                    ]
              ]
            ]
      ]
    ]
  ]

-- Nothing remembers the challenges that have been used: where the library accepts the response again for
-- the advanced counter, as it does for a passkey whose counter is always zero, the same response and
-- cookie log in a second time until the challenge expires.
pub response_replayed :
    (d : Deps) (x : WebAuthn) (a : Assertion) (token : Option Text) (m : Bool) (n n' : Nonce)
    (c : Client) (now : Time) (db : Db) (h : IsAsserted d x a token m n c now db)
    → truthy token ≡ true
    → x.verify_authentication a.response h.challenge.challenge (used_row h.counter now h.credential)
      ≡ some h.counter
    → let once = (verify_authentication d x a token m n c now db).1 in
      (verify_authentication d x a token m n' c now once).0
      ≡ ok (sign_tokens d h.user n'.session_id m now)
response_replayed d x a token m n n' c now db h given again =
    let k = h.credential in
    let db' = record db {
      credentials = update_where (is_passkey k.id) (used_row h.counter now) db.credentials;
    } in
    let once = (issue_session d h.user m n c now db').1 in
    let (users, credentials) = issue_session_keeps d h.user m n c now db' in
    let h' : IsAsserted d x a token m n' c now once = record {
      challenge = h.challenge;
      credential = used_row h.counter now k;
      user = h.user;
      counter = h.counter;
      signed = h.signed;
      for_login = h.for_login;
      known =
          ap (find (has_credential_id a.credential_id)) credentials
          ∙ find-update_where_hit (has_credential_id a.credential_id) (is_passkey k.id)
              (used_row h.counter now) db.credentials k (λ r. refl) h.known (==_self k.id);
      owner = ap (find (is_user k.user_id)) users ∙ h.owner;
      verified = again;
      active = h.active;
    } in
    rw (verify_authentication_lem d x a token m n c now db h given) (
      ap (λ o. o.0) (verify_authentication_lem d x a token m n' c now once h' given)
      ∙ issue_session-answer d h.user m n' c now _)

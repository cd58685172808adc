-- ===== src/Auth/Passkeys/Registering.antt =====
-- Adding and removing a passkey: verifyRegistration and removePasskey of src/auth/passkey.service.ts.
use workspacebridge_backend.Base.{
  List, ℕ, ℕ, ◌≡◌, ap, ◌∙◌, Bool, true, Option, none, some, [], ◌∷◌, ◌++◌, arith, ok, err, conflict,
  or_else, truthy, find, ==_self, find-append_new,
}
use workspacebridge_backend.Store.{Text, Time, User, Credential, is_active, Deps, Db, Reason}
use workspacebridge_backend.Auth.Login.{is_user}
use workspacebridge_backend.Auth.Sessions.{Client, Nonce, sign_tokens}
use workspacebridge_backend.Auth.Passkeys.{
  name_of, Purpose, Challenge, NewPasskey, WebAuthn, Assertion, is_same, is_for, has_credential_id,
  read_challenge, verify_registration, verify_authentication,
}
use workspacebridge_backend.Auth.Passkeys.SigningIn.{
  IsAsserted, verify_authentication_lem, issue_session-answer,
}

module _ (x : WebAuthn) (id user_id response : Text) (token user_agent : Option Text)
    (label : Option (List ℕ)) (now : Time) where
  -- A registration that the library verifies, for a challenge that was signed for this user.
  pub record IsRegistering (db : Db) (p : Challenge) (new : NewPasskey) : Type 0 where
    pub given : truthy token ≡ true
    pub signed : x.read_token (or_else token 0) now ≡ some p
    pub for_registration : is_same p.purpose Purpose.reg ≡ true
    pub for_user : is_for x user_id p ≡ true
    pub verified : x.verify_registration response p.challenge ≡ some new

  abbrev pub passkey_row : NewPasskey → Credential
  passkey_row new = record {
    id = id;
    user_id = user_id;
    credential_id = new.credential_id;
    public_key = new.public_key;
    counter = new.counter;
    name = name_of label;
    last_used_at = none;
  }

  -- A passkey that is registered already is refused, whoever has it; nothing is written.
  pub twice_refused :
      (db : Db) (p : Challenge) (new : NewPasskey) (k : Credential)
      → IsRegistering db p new
      → find (has_credential_id new.credential_id) db.credentials ≡ some k
      → verify_registration x id user_id response token label user_agent now db
        ≡ (err conflict Reason.passkey_exists, db)
  unfolding verify_registration read_challenge
  twice_refused db p new k h taken =
      let e1 = h.given in
      let e2 = h.signed in
      let e3 = h.for_registration in let e4 = h.for_user in let e5 = h.verified in ground arith

  registered :
      (db : Db) (p : Challenge) (new : NewPasskey)
      → IsRegistering db p new
      → find (has_credential_id new.credential_id) db.credentials ≡ none
      → let out = verify_registration x id user_id response token label user_agent now db in
        (out.0 ≡ ok (passkey_row new))
        × (out.1.credentials ≡ db.credentials ++ passkey_row new ∷ [])
        × (out.1.users ≡ db.users)
  unfolding verify_registration read_challenge
  registered db p new h unknown =
      let e1 = h.given in
      let e2 = h.signed in
      let e3 = h.for_registration in
      let e4 = h.for_user in let e5 = h.verified in (ground arith, ground arith, ground arith)

-- A passkey that an active user registers logs this user in: with a challenge of the login and a response
-- that the library verifies for the new row, the answer is the tokens of the user.
pub register_sign_in :
    (d : Deps) (x : WebAuthn) (id user_id response : Text) (token user_agent : Option Text)
    (label : Option (List ℕ)) (now later : Time) (db : Db) (p q : Challenge) (new : NewPasskey)
    (u : User) (assertion : Text) (cookie : Option Text) (m : Bool) (n : Nonce) (c : Client)
    (counter : ℕ)
    → IsRegistering x id user_id response token user_agent label now db p new
    → find (has_credential_id new.credential_id) db.credentials ≡ none
    → find (is_user user_id) db.users ≡ some u
    → is_active u.status ≡ true
    → truthy cookie ≡ true
    → x.read_token (or_else cookie 0) later ≡ some q
    → is_same q.purpose Purpose.auth ≡ true
    → x.verify_authentication assertion q.challenge
        (passkey_row x id user_id response token user_agent label now new)
      ≡ some counter
    → let registered =
        (verify_registration x id user_id response token label user_agent now db).1 in
      let a : Assertion = record { credential_id = new.credential_id; response = assertion } in
      (verify_authentication d x a cookie m n c later registered).0
      ≡ ok (sign_tokens d u n.session_id m later)
register_sign_in d x id user_id response token user_agent label now later db p q new u assertion
      cookie m n c counter h unknown user active given signed purpose verified =
    let out = verify_registration x id user_id response token label user_agent now db in
    let row = passkey_row x id user_id response token user_agent label now new in
    let a : Assertion = record { credential_id = new.credential_id; response = assertion } in
    let (answer, credentials, users) =
      registered x id user_id response token user_agent label now db p new h unknown in
    let asserted : IsAsserted d x a cookie m n c later out.1 = record {
      challenge = q;
      credential = row;
      user = u;
      counter = counter;
      signed = signed;
      for_login = purpose;
      known =
          ap (find (has_credential_id new.credential_id)) credentials
          ∙ find-append_new (has_credential_id new.credential_id) db.credentials row unknown
              (==_self new.credential_id);
      owner = ap (find (is_user user_id)) users ∙ user;
      verified = verified;
      active = active;
    } in
    ap (λ o. o.0) (verify_authentication_lem d x a cookie m n c later out.1 asserted given)
    ∙ issue_session-answer d u m n c later _

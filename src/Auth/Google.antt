-- ===== src/Auth/Google.antt =====
-- Google sign-in and the exchange codes that bring its tokens to the browser: src/auth/auth.service.ts.
pub mod Codes
pub mod Identity
use workspacebridge_backend.Base.{
  ℕ, ◌+◌, ◌*◌, Bool, true, false, not, ◌&&◌, Option, none, some, List, [], ◌∷◌, ◌++◌, ltb, ◌==◌,
  if◌then◌else◌, is_some, or_else, truthy, find, delete_where, pure, throw, gets, or_throw, ◌>>=◌,
  ◌>>◌, throw_if, modify, unauthorized, not_found, conflict,
}
use workspacebridge_backend.Store.{
  Text, Time, User, UserRole, UserPlan, UserStatus, AuthMethod, Account, ExchangeCode, Deps, Db,
  Action, Reason, AuditAction, is_active, write_audit_log, send_mail,
}
use workspacebridge_backend.Auth.Sessions.{Client, Nonce, TokenPair, open_session}
use workspacebridge_backend.Auth.Alerts.{handle_successful_login}
use workspacebridge_backend.Auth.Login.{has_email, is_user}
use workspacebridge_backend.Auth.EmailTokens.{create_user}

abbrev pub exchange_code_ttl_ms : ℕ
exchange_code_ttl_ms = 30 * 1000

-- The bytes of 'google'.
abbrev pub google : Text
google = 113728308079717

abbrev pub has_code : Text → ExchangeCode → Bool
has_code code r = r.code == code

unfoldable pub create_exchange_code : Text → Text → Time → Action Text
create_exchange_code user_id code now = do
  modify λ db. record db {
    exchange_codes =
        db.exchange_codes
        ++ record { code = code; user_id = user_id; expires_at = now + exchange_code_ttl_ms } ∷ [];
  }
  pure code

-- What Google says of the user; `emailVerified` is false when it says nothing.
pub record GoogleUser : Type 0 where
  pub email : Option Text
  pub email_verified : Bool
  pub google_id : Option Text

abbrev pub has_subject : Text → Account → Bool
has_subject subject a =
    a.provider == google && (elim a.provider_account_id [ none ↦ false | some s ↦ s == subject ])

abbrev pub is_google_of : Text → Account → Bool
is_google_of user_id a = a.provider == google && a.user_id == user_id

-- `update` of the row that `findFirst` has found: its subject, if Google gave one.
unfoldable pub update_subject : Text → Option Text → List Account → List Account
update_subject user_id subject [] = []
update_subject user_id subject (a ∷ rest) =
    let others = update_subject user_id subject rest in
    if is_google_of user_id a
    then record a {
      provider_account_id = elim subject [ none ↦ a.provider_account_id | some s ↦ some s ];
    }
      ∷ rest
    else a ∷ others

unfoldable pub link_google_account : Text → Option Text → Action Unit
link_google_account user_id subject = modify λ db. record db {
  accounts =
      if is_some (find (is_google_of user_id) db.accounts)
      then update_subject user_id subject db.accounts
      else db.accounts
        ++ record { provider = google; provider_account_id = subject; user_id = user_id } ∷ [];
}

-- The user whose account has the subject.
unfoldable pub returning_user : Option Text → List Account → List User → Option User
returning_user subject accounts users =
    if not (truthy subject) then none else elim (find (has_subject (or_else subject 0)) accounts) [
      | none ↦ none
      | some a ↦ find (is_user a.user_id) users
    ]

abbrev pub google_user : Text → Text → User
google_user id email = record {
  id = id;
  email = email;
  password = none;
  is_verified = true;
  is_two_factor_enabled = false;
  two_factor_secret = none;
  failed_login_attempts = 0;
  locked_until = none;
  role = UserRole.freelancer;
  plan = UserPlan.free;
  status = UserStatus.active;
  method = AuthMethod.google;
}

module _ (d : Deps) where
  unfoldable pub exchange_code_for_tokens : Text → Nonce → Client → Time → Action TokenPair
  exchange_code_for_tokens code n c now = do
    codes ← gets (λ db. db.exchange_codes)
    r ← or_throw (find (has_code code) codes) unauthorized Reason.invalid_exchange_code
    modify λ db. record db { exchange_codes = delete_where (has_code code) db.exchange_codes }
    throw_if (ltb r.expires_at now) unauthorized Reason.invalid_exchange_code
    users ← gets (λ db. db.users)
    u ← or_throw (find (is_user r.user_id) users) unauthorized Reason.user_gone
    throw_if (not (is_active u.status)) unauthorized Reason.account_suspended
    tokens ← open_session d u n true c now
    handle_successful_login AuditAction.google_login u.id u.email c
    pure tokens

  unfoldable pub login_google_user : Text → Nonce → Client → Time → Action TokenPair
  login_google_user email n c now = do
    users ← gets (λ db. db.users)
    u ← or_throw (find (has_email email) users) not_found Reason.user_not_found
    throw_if (not (is_active u.status)) unauthorized Reason.account_suspended
    open_session d u n true c now

  -- A local account that is verified is linked; one that is not is never adopted.
  unfoldable pub adopt_local : User → GoogleUser → Nonce → Client → Time → Action TokenPair
  adopt_local u g n c now =
      if not u.is_verified
      then throw conflict Reason.unverified_local_account
      else link_google_account u.id g.google_id
        >> (write_audit_log AuditAction.account_linked u.id none
            >> (send_mail u.email none >> login_google_user u.email n c now))

  unfoldable pub register_google :
      Text → Text → GoogleUser → Nonce → Client → Time → Action TokenPair
  register_google id email g n c now = do
    create_user (google_user id email)
    link_google_account id g.google_id
    write_audit_log AuditAction.google_register id none
    login_google_user email n c now

  -- With the id of a new user.
  unfoldable pub find_or_create_google_user :
      GoogleUser → Text → Nonce → Client → Time → Action TokenPair
  find_or_create_google_user g id n c now = do
    throw_if (not (truthy g.email)) unauthorized Reason.google_no_email
    throw_if (not g.email_verified) unauthorized Reason.google_unverified_email
    let email = or_else g.email 0
    accounts ← gets (λ db. db.accounts)
    users ← gets (λ db. db.users)
    elim (returning_user g.google_id accounts users) [
      | some u ↦ login_google_user u.email n c now
      | none ↦ elim (find (has_email email) users) [
        | some u ↦ adopt_local u g n c now
        | none ↦ register_google id email g n c now
      ]
    ]

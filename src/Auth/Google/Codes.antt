-- ===== src/Auth/Google/Codes.antt =====
-- Exchange codes: createExchangeCode and exchangeCodeForTokens of src/auth/auth.service.ts.
use workspacebridge_backend.Base.{
  ◌+◌, ◌≤◌, ◌≡◌, refl, Bool, true, none, some, [], ◌∷◌, ◌++◌, arith, inl, inr, ok, err,
  unauthorized, find, delete_where, find-delete_where_self, find-append_new, Option-cases, ==_self,
}
use workspacebridge_backend.Store.{
  Text, Time, User, ExchangeCode, Deps, Db, Reason, AuditAction, is_active,
}
use workspacebridge_backend.Auth.Sessions.{Client, Nonce, open_session, sign_tokens}
use workspacebridge_backend.Auth.Alerts.{handle_successful_login}
use workspacebridge_backend.Auth.Login.{is_user}
use workspacebridge_backend.Auth.Login.Success.{ok-handle_successful_login, ok-open_session}
use workspacebridge_backend.Auth.Google.{
  has_code, exchange_code_ttl_ms, create_exchange_code, exchange_code_for_tokens,
}

codes-handle_successful_login :
    (a : AuditAction) (id email : Text) (c : Client) (db : Db)
    → (handle_successful_login a id email c db).1.exchange_codes ≡ db.exchange_codes
unfolding handle_successful_login
codes-handle_successful_login a id email c db = ground arith

module _ (d : Deps) where
  codes-open_session :
      (u : User) (n : Nonce) (r : Bool) (c : Client) (now : Time) (db : Db)
      → (open_session d u n r c now db).1.exchange_codes ≡ db.exchange_codes
  unfolding open_session
  codes-open_session u n r c now db = refl

  burned :
      (code : Text) (n : Nonce) (c : Client) (now : Time) (db : Db)
      → find (has_code code) (exchange_code_for_tokens d code n c now db).1.exchange_codes ≡ none
  unfolding exchange_code_for_tokens
  burned code n c now db = elim (Option-cases (find (has_code code) db.exchange_codes)) [
    | inl gone ↦ ground arith
    | inr (r, f) ↦
        let db' : Db = record db {
          exchange_codes = delete_where (has_code code) db.exchange_codes;
        } in
        elim (Option-cases (find (is_user r.user_id) db.users)) [
          | inl nobody ↦ ground (arith, find-delete_where_self (has_code code) db.exchange_codes)
          | inr (u, g) ↦ ground (
            arith,
            find-delete_where_self (has_code code) db.exchange_codes,
            ok-open_session d u n true c now db',
            codes-open_session u n true c now db',
            codes-handle_successful_login AuditAction.google_login u.id u.email c
                (open_session d u n true c now db').1,
          )
        ]
  ]

  -- An exchange code is good for one exchange, whatever came of it: presented again, it is refused and
  -- nothing is written.
  pub exchange_once :
      (code : Text) (n n' : Nonce) (c c' : Client) (now later : Time) (db : Db)
      → let out = (exchange_code_for_tokens d code n c now db).1 in
        exchange_code_for_tokens d code n' c' later out
        ≡ (err unauthorized Reason.invalid_exchange_code, out)
  exchange_once code n n' c c' now later db =
      unfold exchange_code_for_tokens in rw (burned code n c now db)

  -- A code that is exchanged within thirty seconds brings the tokens of the user that it was made for.
  pub exchange_in_time :
      (user_id code : Text) (n : Nonce) (c : Client) (now later : Time) (db : Db) (u : User)
      → find (has_code code) db.exchange_codes ≡ none
      → find (is_user user_id) db.users ≡ some u
      → is_active u.status ≡ true
      → later ≤ now + exchange_code_ttl_ms
      → (exchange_code_for_tokens d code n c later (create_exchange_code user_id code now db).1).0
        ≡ ok (sign_tokens d u n.session_id true later)
  unfolding create_exchange_code exchange_code_for_tokens
  exchange_in_time user_id code n c now later db u fresh found active soon =
      let r : ExchangeCode = record {
        code = code;
        user_id = user_id;
        expires_at = now + exchange_code_ttl_ms;
      } in
      let db' : Db = record db {
        exchange_codes = delete_where (has_code code) (db.exchange_codes ++ r ∷ []);
      } in
      ground (
        arith,
        find-append_new (has_code code) db.exchange_codes r fresh (==_self code),
        ok-open_session d u n true c later db',
        ok-handle_successful_login AuditAction.google_login u.id u.email c
            (open_session d u n true c later db').1,
      )

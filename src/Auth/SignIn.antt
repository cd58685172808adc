-- ===== src/Auth/SignIn.antt =====
-- The sign-in methods of an account: getSignInMethods and disconnectProvider of src/user/user.service.ts.
pub mod Methods
use workspacebridge_backend.Base.{
  ℕ, Bool, true, false, not, ◌&&◌, ◌||◌, Option, none, some, List, [], ◌∷◌, map, ◌==◌,
  if◌then◌else◌, truthy, find, select, count, delete_where, elem, pure, gets, or_throw, ◌>>=◌, ◌>>◌,
  throw_if, modify, bad_request, not_found,
}
use workspacebridge_backend.Store.{
  Text, User, Account, Action, Reason, AuditAction, write_audit_log,
}
use workspacebridge_backend.Auth.Login.{is_user}

abbrev pub is_account_of : Text → Account → Bool
is_account_of user_id a = a.user_id == user_id

abbrev pub is_link : Text → Text → Account → Bool
is_link user_id provider a = a.user_id == user_id && a.provider == provider

abbrev pub is_other_link : Text → Text → Account → Bool
is_other_link user_id provider a = a.user_id == user_id && not (a.provider == provider)

-- `[...new Set(providers)]`: each provider once, where it comes first.
unfoldable pub distinct : List Text → List Text → List Text
distinct seen [] = []
distinct seen (p ∷ ps) = elim (elem p seen) [
  | true ↦ distinct seen ps
  | false ↦ p ∷ distinct (p ∷ seen) ps
]

unfoldable pub get_sign_in_methods : Text → Action (Bool × List Text)
get_sign_in_methods user_id = do
  users ← gets (λ db. db.users)
  u ← or_throw (find (is_user user_id) users) not_found Reason.user_not_found
  accounts ← gets (λ db. db.accounts)
  pure (
    truthy u.password,
    distinct [] (map (λ a. a.provider) (select (is_account_of user_id) accounts)),
  )

unfoldable pub disconnect_provider : Text → Text → Action Unit
disconnect_provider user_id provider = do
  users ← gets (λ db. db.users)
  u ← or_throw (find (is_user user_id) users) not_found Reason.user_not_found
  accounts ← gets (λ db. db.accounts)
  throw_if (count (is_link user_id provider) accounts == 0) not_found Reason.provider_not_linked
  throw_if (not (truthy u.password) && count (is_other_link user_id provider) accounts == 0)
      bad_request Reason.last_sign_in_method
  modify λ db. record db { accounts = delete_where (is_link user_id provider) db.accounts }
  write_audit_log AuditAction.provider_disconnected user_id none

-- ===== src/Tests/Mails.antt =====
-- E-mail tokens and passwords at concrete inputs.
use workspacebridge_backend.Base.{
  ◌+◌, ◌≡◌, refl, none, some, List, [], ◌∷◌, arith, ok, find, select, take,
}
use workspacebridge_backend.Store.{Text, Token, OldPassword, Db}
use workspacebridge_backend.Auth.Login.{has_email}
use workspacebridge_backend.Auth.Passwords.{newest_first, remember, matches_any}
use workspacebridge_backend.Auth.Passwords.History.{remember_is_queue}
use workspacebridge_backend.Auth.EmailTokens.{
  has_token, verify_row, new_user, verify_email, register_user, reset_token, reset_password,
}
use workspacebridge_backend.Auth.EmailTokens.Reset.{CanReset, WasReset, reset_done}
use workspacebridge_backend.Auth.EmailTokens.Registration.{register_verify}
use workspacebridge_backend.Tests.Fixtures.{deps, world, ana}

abbrev link : Token
link = reset_token deps 11 70 1000

abbrev reset_world : Db
reset_world = record world { tokens = link ∷ [] }

abbrev can_reset : CanReset deps 70 50 2000 reset_world link ana
can_reset = record {
  unbreached = refl;
  stored = unfold find in refl;
  unexpired = refl;
  account = unfold find in refl;
  not_current = refl;
  not_recent = unfold matches_any select in refl;
}

reset_done_example :
    let out = reset_password deps 70 50 3 1 2000 reset_world in
    (out.0 ≡ ok tt) × WasReset deps 70 50 1 reset_world link ana out.1
reset_done_example = reset_done deps 70 50 3 1 2000 reset_world link ana can_reset

register_verify_example :
    let out = verify_email deps 72 5000 (register_user deps 13 50 3 1 72 1000 world).1 in
    (out.0 ≡ ok tt)
    × (find (has_email 13) out.1.users ≡ some (verify_row (new_user deps 3 13 50 1)))
    × (find (has_token 5072) out.1.tokens ≡ none)
register_verify_example =
    register_verify deps 13 50 3 1 72 1000 5000 world refl (unfold find in refl)
      (unfold find in refl) (omega arith)

abbrev entry : Text → OldPassword
entry id = record { id = id; user_id = 1; password = id + 100 }

abbrev five_old : List OldPassword
five_old = entry 1 ∷ entry 2 ∷ entry 3 ∷ entry 4 ∷ entry 5 ∷ []

remember_is_queue_example :
    newest_first 1 (remember 1 (entry 6) five_old) ≡ take 5 (entry 6 ∷ newest_first 1 five_old)
remember_is_queue_example =
    remember_is_queue 1 (entry 6) five_old refl
      (unfold find in (refl, (refl, (refl, (refl, (refl, (refl, tt)))))))

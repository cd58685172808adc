-- ===== src/Tests/TwoFactor.antt =====
-- Two-factor logins at concrete inputs.
use workspacebridge_backend.Base.{
  ◌≡◌, refl, true, false, none, some, List, [], ◌∷◌, err, unauthorized, find,
}
use workspacebridge_backend.Store.{Text, User, Attempt, Db, Reason}
use workspacebridge_backend.Auth.TwoFactor.{VerifyRequest, verify_two_factor}
use workspacebridge_backend.Auth.TwoFactor.Burn.{
  Pending, Guess, verify_all, IsWrong, fifth_guess_burns,
}
use workspacebridge_backend.Tests.Fixtures.{deps, pre_auth_claims, world, ana, ben, laptop, nonce}

abbrev careful : User
careful = record ana { is_two_factor_enabled = true; two_factor_secret = some 77 }

abbrev fresh : Attempt
fresh = record { jti = 9; user_id = 1; attempts = 0; consumed = false; expires_at = 90000 }

abbrev pending_world : Db
pending_world = record world { users = careful ∷ ben ∷ []; attempts = fresh ∷ [] }

abbrev guess : Text → VerifyRequest
guess code = record { temp_token = 1000; code = some code; backup_code = none; client = laptop }

abbrev pending : Pending pending_world pre_auth_claims fresh careful
pending = record {
  pre_auth = refl;
  has_claim = refl;
  tracked = unfold find in refl;
  unconsumed = refl;
  user = unfold find in refl;
  configured = refl;
}

abbrev once : Guess
once = (guess 122, nonce, 1000)

abbrev five : List Guess
five = once ∷ once ∷ once ∷ once ∷ once ∷ []

abbrev wrong : IsWrong deps pre_auth_claims careful 90000 (guess 122) 1000
wrong = record {
  code_given = refl;
  no_backup = refl;
  verified = refl;
  in_time = refl;
  wrong = refl;
}

fifth_guess_burns_example :
    (verify_two_factor deps (guess 123) nonce 6000 (verify_all deps five pending_world)).0
    ≡ err unauthorized Reason.invalid_session
fifth_guess_burns_example =
    fifth_guess_burns deps pre_auth_claims careful five pending_world fresh (guess 123) nonce 6000
      pending (wrong, (wrong, (wrong, (wrong, (wrong, tt))))) refl refl refl refl

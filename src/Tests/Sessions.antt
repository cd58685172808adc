-- ===== src/Tests/Sessions.antt =====
-- Sessions and refresh tokens at concrete inputs.
use workspacebridge_backend.Base.{
  ◌≡◌, refl, true, false, none, some, ok, err, unauthorized, count, find, arith, ltb, [], ◌∷◌,
}
use workspacebridge_backend.Store.{Text, Reason, Session, Db}
use workspacebridge_backend.Auth.Sessions.{
  has_id, refresh, rotated_tokens, open_session, session_ttl_ms, match_token,
}
use workspacebridge_backend.Auth.Sessions.Limit.{IsCapped, open_session-IsCapped}
use workspacebridge_backend.Auth.Sessions.Rotation.{
  Presents, IsLive, Refreshed, refresh-Refreshed, refresh_again, refresh_stale, rotated_row,
  rotated_db,
}
use workspacebridge_backend.Auth.Cleanup.{run_cleanup}
use workspacebridge_backend.Auth.Cleanup.Expired.{SameLive, cleanup_exact}
use workspacebridge_backend.Tests.Fixtures.{
  deps, refresh_claims, session, world, ana, laptop, nonce,
}

abbrev presented :
    (token : Text)
    → deps.verify 2000 1000 token ≡ some refresh_claims
    → Presents deps token 1000 world refresh_claims session
presented token e = record {
  verified = e;
  has_session = refl;
  found = unfold find in refl;
  same_user = refl;
}

abbrev live : IsLive deps 1000 world refresh_claims session
live = record { unexpired = refl; user_active = unfold find in refl }

refresh-Refreshed_example :
    Refreshed deps 2001 1 1000 world
      (rotated_tokens deps refresh_claims session 1000)
      (rotated_db deps refresh_claims session 1 false 1000 world)
unfolding refresh match_token find
refresh-Refreshed_example =
    refresh-Refreshed deps 2001 1 1000 world _ (rotated_tokens deps refresh_claims session 1000)
      refl

refresh_again_example :
    let db' = (refresh deps 2001 1 1000 world).1 in
    refresh deps 2000 2 5000 db' ≡ (
      ok (
          rotated_tokens deps refresh_claims
            (rotated_row deps refresh_claims session 1 false 1000)
            5000),
      rotated_db deps refresh_claims
          (rotated_row deps refresh_claims session 1 false 1000)
          2
          false
          5000
          db',
    )
unfolding rotated_tokens session_ttl_ms
refresh_again_example =
    refresh_again deps 2001 1 2 1000 5000 world refresh_claims session (presented 2001 refl) live
      refl (refl, refl) (omega arith)

refresh_stale_example :
    let r = refresh deps 2001 2 40000 (refresh deps 2001 1 1000 world).1 in
    (r.0 ≡ err unauthorized Reason.invalid_refresh_token) × (find (has_id 7) r.1.sessions ≡ none)
unfolding rotated_tokens session_ttl_ms
refresh_stale_example =
    refresh_stale deps 2001 1 2 1000 40000 world refresh_claims session (presented 2001 refl) live
      refl refl refl (omega arith)

world-IsCapped : IsCapped world.sessions
unfolding count
world-IsCapped u = ground arith

open_session-IsCapped_example :
    IsCapped (open_session deps ana nonce true laptop 1000 world).1.sessions
open_session-IsCapped_example =
    open_session-IsCapped deps ana nonce true laptop 1000 world world-IsCapped

abbrev stale_session : Session
stale_session = record session { id = 9; expires_at = 500 }

abbrev stale_world : Db
stale_world = record world { sessions = stale_session ∷ session ∷ [] }

cleanup_exact_example :
    SameLive 1000 2000 (omega arith) stale_world (run_cleanup 1 1000 stale_world)
    × (let out = run_cleanup 5 1000 stale_world in
        (count (λ s. ltb s.expires_at 1000) out.sessions ≡ 0)
        × (count (λ t. ltb t.expires_in 1000) out.tokens ≡ 0)
        × (count (λ c. ltb c.expires_at 1000) out.exchange_codes ≡ 0)
        × (count (λ a. ltb a.expires_at 1000) out.attempts ≡ 0)
        × (count (λ p. ltb p.expires_at 1000) out.pending_setups ≡ 0))
cleanup_exact_example = cleanup_exact 1000 2000 (omega arith) 1 stale_world

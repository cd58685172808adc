-- ===== src/Tests/Presence.antt =====
-- Presence at concrete inputs.
use workspacebridge_backend.Base.{elem, refl, false, List, [], ◌∷◌}
use workspacebridge_backend.Presence.{lookup}
use workspacebridge_backend.Presence.Refinement.{
  PresenceEvent, Represents, run, abstract_run, run-Represents,
}

-- Two sockets of one user and one of another; the first of them goes.
abbrev events : List PresenceEvent
events =
    PresenceEvent.adds 1 100
    ∷ PresenceEvent.adds 2 200
    ∷ PresenceEvent.adds 1 101
    ∷ PresenceEvent.removes 1 100
    ∷ []

run-Represents_example : Represents (run events []) (abstract_run events (λ u s. false))
unfolding lookup elem
run-Represents_example =
    run-Represents events [] (λ u s. false) (record { sockets = λ v t. refl; nonempty = λ v. refl })

-- ===== src/Boards/Live/Presenting.antt =====
-- The board that late joiners are led to: presentedBoards of src/whiteboard/whiteboard.gateway.ts.
use workspacebridge_backend.Base.{◌≡◌, refl, subst, []}
use workspacebridge_backend.Boards.Live.Pointers.{
  AllSettled, shown-AllSettled, settled-AllShown, persist-Rescened,
}
use workspacebridge_backend.Boards.{persist}
use workspacebridge_backend.Boards.Versions.{restore}
use workspacebridge_backend.Boards.Live.{
  Live, fire, restore_live, handle_scene_update, schedule_persist,
}
use workspacebridge_backend.Boards.Live.Overlap.{
  Server, LiveEvent, handle, IsFair, Reaches, IsSettled, IsShowing,
}
use workspacebridge_backend.Boards.Live.Settling.{
  fire-Rescened, restore-Rescened, Rescened-IsSettled, draws-Rescened, presented-IsSettled,
  presents-IsSettled, deletes-IsSettled, dropped-IsSettled, announced-IsSettled,
}

handle-IsSettled :
    (e : LiveEvent) (st : Server) → IsFair e st → IsSettled st → IsSettled (handle e st)
handle-IsSettled (LiveEvent.draws s k scene now) st fair h =
    let (rescened, same) = draws-Rescened s k scene now st.live in
    Rescened-IsSettled st (handle_scene_update s k scene now st.live).1 rescened same h
handle-IsSettled (LiveEvent.draws_late k scene now) st fair h = unfold schedule_persist in h
handle-IsSettled (LiveEvent.times_out k) st fair h =
    let (rescened, same) = fire-Rescened k st.live in
    Rescened-IsSettled st (fire k st.live) rescened same h
handle-IsSettled (LiveEvent.restores texts id v user_id now) st fair h =
    unfold restore_live in
    Rescened-IsSettled st (record st.live { db = (restore texts id v user_id now st.live.db).1 })
      (restore-Rescened texts id v user_id now st.live.db) refl h
handle-IsSettled (LiveEvent.writes_late k scene) st fair h =
    Rescened-IsSettled st (record st.live { db = (persist k scene st.live.db).1 })
      (persist-Rescened k scene st.live.db) refl h
handle-IsSettled (LiveEvent.presents s k now) st fair h = presents-IsSettled s k now st h
handle-IsSettled (LiveEvent.presents_late p) st fair h = presented-IsSettled p st fair h
handle-IsSettled (LiveEvent.deletes k user_id) st fair h = deletes-IsSettled k user_id st h
handle-IsSettled (LiveEvent.deletes_late k) st fair h = dropped-IsSettled k st h
handle-IsSettled (LiveEvent.announces p) st fair h = announced-IsSettled p st h

run-IsSettled : (st st' : Server) → Reaches st st' → IsSettled st → IsSettled st'
run-IsSettled st st' Reaches.start h = h
run-IsSettled st st' (Reaches.next {st' = between} run e fair) h =
    handle-IsSettled e between fair (run-IsSettled st between run h)

-- Whatever is drawn, presented, saved, deleted and restored, one request after the other or
-- overlapping: if at first every pointer is to a board that is there, in the workspace of the
-- pointer, and no deletion is under way, and if each pointer is set before the deletion of its
-- board is announced, then, once every deletion has been announced, a late joiner is only ever
-- led to a board that is there and belongs to the workspace.
pub run-IsShowing :
    (l : Live) (st' : Server)
    → Reaches (record { live = l; leaving = [] }) st'
    → st'.leaving ≡ []
    → IsShowing l
    → IsShowing st'.live
run-IsShowing l st' run over h =
    let start : Server = record { live = l; leaving = [] } in
    let settled =
      run-IsSettled start st' run (shown-AllSettled l.db.whiteboards [] l.presented h) in
    settled-AllShown st'.live.db.whiteboards st'.live.presented
      (subst (λ gone. AllSettled st'.live.db.whiteboards gone st'.live.presented) over settled)

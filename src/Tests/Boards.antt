-- ===== src/Tests/Boards.antt =====
-- Whiteboards at concrete inputs.
use workspacebridge_backend.Base.{◌≡◌, refl, true, none, some, [], ◌∷◌, ok, find, delete_where}
use workspacebridge_backend.Store.{
  Db, Scene, Whiteboard, WhiteboardVersion, VersionType, MemberRole,
}
use workspacebridge_backend.Notifications.{is_board}
use workspacebridge_backend.Boards.{
  can_access_board, board_workspace, set_scene, get_by_id, start_delete, owned_board_workspace_id,
}
use workspacebridge_backend.Boards.Versions.{LabelTexts, restore}
use workspacebridge_backend.Boards.Versions.Restoring.{MayRestore, restore_undone}
use workspacebridge_backend.Boards.Access.{IsShutOut, removal_cuts_off}
use workspacebridge_backend.Boards.Live.Pointers.{is_settled}
use workspacebridge_backend.Teams.Workspaces.{remove_member}
use workspacebridge_backend.Boards.Live.{
  handle_present_board, handle_scene_update, Live, Presented, is_unsaved, fire, schedule_persist,
  restore_live,
}
use workspacebridge_backend.Boards.Live.Saving.{last_scene_saved, pending_undoes_restore}
use workspacebridge_backend.Boards.Live.Overlap.{LiveEvent, Server, handle, Reaches, IsShowing}
use workspacebridge_backend.Boards.Live.Presenting.{run-IsShowing}
use workspacebridge_backend.Sockets.{Socket, is_socket_token_expired}
use workspacebridge_backend.Tests.Fixtures.{world, office}

abbrev blank : Scene
blank = record { elements = 1; app_state = none; files = none }

abbrev sketch : Scene
sketch = record { elements = 2; app_state = some 3; files = none }

abbrev board : Whiteboard
board = record { id = 70; workspace_id = 30; name = 66 ∷ []; scene = blank }

abbrev version : WhiteboardVersion
version = record {
  id = 71;
  whiteboard_id = 70;
  scene = sketch;
  label = none;
  type = VersionType.manual;
  created_by_id = 1;
  created_at = 500;
}

abbrev board_world : Db
board_world = record world { whiteboards = board ∷ []; whiteboard_versions = version ∷ [] }

abbrev texts : LabelTexts
texts = record { before_restoring = λ label. label; before_snapshot_from = λ t. t ∷ [] }

may_restore : MayRestore 71 1 board_world version board
unfolding find can_access_board board_workspace
may_restore = record { version = refl; access = refl; board = refl }

restore_undone_example :
    let once = restore texts 72 71 1 1000 board_world in
    let twice = restore texts 73 72 1 2000 once.1 in
    (once.0 ≡ ok (set_scene sketch board))
    × (twice.0 ≡ ok board)
    × (find (is_board 70) twice.1.whiteboards ≡ some board)
unfolding find can_access_board board_workspace
restore_undone_example =
    restore_undone texts 72 73 71 1 1 1000 2000 board_world version board may_restore refl refl

abbrev shared_world : Db
shared_world = record board_world {
  members = record { workspace_id = 30; user_id = 2; role = MemberRole.client } ∷ [];
}

removal_cuts_off_example :
    let out = remove_member 30 2 1 shared_world in
    (get_by_id 70 2 shared_world ≡ (ok board, shared_world))
    × (out.0 ≡ ok tt)
    × IsShutOut 70 2 71 out.1
    × (can_access_board 70 5 out.1 ≡ can_access_board 70 5 shared_world)
unfolding find
removal_cuts_off_example =
    removal_cuts_off 70 2 5 1 71 shared_world board office version refl refl refl refl refl refl
      refl refl

abbrev quiet : Live
quiet = record { db = board_world; pending = []; presented = []; unhandled = 0 }

last_scene_saved_example :
    let out = fire 70 (schedule_persist 70 sketch 1000 quiet) in
    (find (is_board 70) out.db.whiteboards ≡ some (set_scene sketch board))
    × (find (is_board 75) out.db.whiteboards ≡ find (is_board 75) board_world.whiteboards)
    × (find (is_unsaved 70) out.pending ≡ none)
    × (find (is_unsaved 75) out.pending ≡ find (is_unsaved 75) [])
    × (out.unhandled ≡ 0)
unfolding find
last_scene_saved_example = last_scene_saved 70 sketch 1000 quiet board 75 refl refl

abbrev waiting : Live
waiting = record quiet { pending = record { board_id = 70; scene = blank; due = 2000 } ∷ [] }

pending_undoes_restore_example :
    let restored = restore_live texts 72 71 1 1000 waiting in
    (restored.0 ≡ ok (set_scene sketch board))
    × (find (is_board 70) restored.1.db.whiteboards ≡ some (set_scene sketch board))
    × (find (is_board 70) (fire 70 restored.1).db.whiteboards ≡ some (set_scene blank board))
unfolding find
pending_undoes_restore_example =
    pending_undoes_restore texts 72 71 1 1000 waiting version board
      (record { board_id = 70; scene = blank; due = 2000 }) may_restore refl

abbrev pen : Socket
pen = record { id = 400; user_id = some 1; expires_at = some 9000; connected = true }

abbrev pointer : Presented
pointer = record { workspace_id = 30; board_id = 70 }

abbrev opened : Server
opened = record { live = quiet; leaving = [] }

-- The board is drawn on and presented, it is deleted, a second presentation that had passed its check sets
-- the pointer again, and then the deletion is announced.
abbrev drawn : Server
drawn = handle (LiveEvent.draws pen 70 sketch 1000) opened

abbrev shown : Server
shown = handle (LiveEvent.presents pen 70 1000) drawn

abbrev deleted : Server
deleted = handle (LiveEvent.deletes 70 1) shown

abbrev shown_again : Server
shown_again = handle (LiveEvent.presents_late pointer) deleted

abbrev announced : Server
announced = handle (LiveEvent.announces pointer) shown_again

shown_again-IsFair : is_settled deleted.live.db.whiteboards deleted.leaving pointer ≡ true
unfolding start_delete board_workspace find delete_where handle_present_board
    is_socket_token_expired owned_board_workspace_id handle_scene_update can_access_board
shown_again-IsFair = refl

abbrev an_hour : Reaches opened announced
an_hour =
    Reaches.next
      (Reaches.next
        (Reaches.next
          (Reaches.next (Reaches.next Reaches.start (LiveEvent.draws pen 70 sketch 1000) tt)
            (LiveEvent.presents pen 70 1000) tt)
          (LiveEvent.deletes 70 1) tt)
        (LiveEvent.presents_late pointer) shown_again-IsFair)
      (LiveEvent.announces pointer) tt

run-IsShowing_example : IsShowing announced.live
unfolding start_delete board_workspace find delete_where handle_present_board
    is_socket_token_expired owned_board_workspace_id handle_scene_update can_access_board
run-IsShowing_example = run-IsShowing quiet announced an_hour refl tt

-- ===== src/Boards/Live.antt =====
-- Drawing together: src/whiteboard/whiteboard.gateway.ts.
pub mod Saving
pub mod Flushing
pub mod Pointers
pub mod Overlap
pub mod Settling
pub mod Presenting
pub mod Overtaken
use workspacebridge_backend.Base.{
  ℕ, ◌+◌, Bool, true, false, not, ◌&&◌, Option, none, some, List, [], ◌∷◌, ◌++◌, ◌==◌,
  if◌then◌else◌, ltb, is_some, or_else, find, update_where, delete_where, Result, ok, err,
  forbidden, pure, throw, gets, throw_if, ◌>>=◌, ◌>>◌,
}
use workspacebridge_backend.Store.{
  Text, Time, Scene, Whiteboard, Db, Action, Reason, Room, Event, emit,
}
use workspacebridge_backend.Notifications.{is_board}
use workspacebridge_backend.Boards.{
  can_access_board, can_access_workspace, owned_board_workspace_id, persist, start_delete,
}
use workspacebridge_backend.Boards.Versions.{LabelTexts, restore}
use workspacebridge_backend.Sockets.{Socket, disconnect, is_socket_token_expired}

abbrev pub persist_debounce_ms : ℕ
persist_debounce_ms = 2000

-- An entry of `pendingPayloads` with the time of its timer in `pendingTimers`: both maps have the same
-- keys.
pub record Unsaved : Type 0 where
  pub board_id : Text
  pub scene : Scene
  pub due : Time

-- An entry of `presentedBoards`.
pub record Presented : Type 0 where
  pub workspace_id : Text
  pub board_id : Text

-- The gateway beside the database; `unhandled` counts the rejected promises that no one catches.
pub record Live : Type 0 where
  pub db : Db
  pub pending : List Unsaved
  pub presented : List Presented
  pub unhandled : ℕ

abbrev pub is_unsaved : Text → Unsaved → Bool
is_unsaved board_id p = p.board_id == board_id

abbrev pub is_presented_in : Text → Presented → Bool
is_presented_in workspace_id p = p.workspace_id == workspace_id

-- `Map.set`: an old key keeps its place.
unfoldable pub set_unsaved : Unsaved → List Unsaved → List Unsaved
set_unsaved p [] = p ∷ []
set_unsaved p (q ∷ qs) = if q.board_id == p.board_id then p ∷ qs else q ∷ set_unsaved p qs

unfoldable pub set_presented : Presented → List Presented → List Presented
set_presented p [] = p ∷ []
set_presented p (q ∷ qs) =
    if q.workspace_id == p.workspace_id then p ∷ qs else q ∷ set_presented p qs

-- The last payload of a board waits for two quiet seconds.
unfoldable pub schedule_persist : Text → Scene → Time → Live → Live
unfolding set_unsaved
schedule_persist board_id scene now l = record l {
  pending =
      set_unsaved (record { board_id = board_id; scene = scene; due = now + persist_debounce_ms })
        l.pending;
}

-- `void persist(…)`: a refusal of the database is a rejection without a handler.
abbrev pub after_void : Live → Result Reason Unit × Db → Live
after_void l (ok _, db) = record l { db = db }
after_void l (err _ _, db) = record l { db = db; unhandled = l.unhandled + 1 }

-- The callback of the timer.
unfoldable pub fire : Text → Live → Live
fire board_id l = elim (find (is_unsaved board_id) l.pending) [
  | none ↦ l
  | some p ↦
      after_void (record l { pending = delete_where (is_unsaved board_id) l.pending })
        (persist board_id p.scene l.db)
]

-- `onModuleDestroy`: the payloads in order; the first refusal ends the loop and leaves the rest.
unfoldable pub flush : List Unsaved → Db → Result Reason Unit × Db
flush [] db = (ok tt, db)
flush (p ∷ ps) db = elim (persist p.board_id p.scene db).0 [
  | ok _ ↦ flush ps (persist p.board_id p.scene db).1
  | err c e ↦ (err c e, (persist p.board_id p.scene db).1)
]

-- The handlers answer only sockets whose token has not expired.
abbrev pub may_speak : Socket → Time → Bool
may_speak s now = not (is_socket_token_expired s now)

abbrev pub user_of : Socket → Text
user_of s = or_else s.user_id 0

-- What goes out is relayed to the others in the room, then saved after a while. Like each handler, it
-- closes a socket whose token has expired.
unfoldable pub handle_scene_update : Socket → Text → Scene → Time → Live → Socket × Live
unfolding schedule_persist
handle_scene_update s board_id scene now l =
    if may_speak s now
    then if can_access_board board_id (user_of s) l.db
      then (
        s,
        schedule_persist board_id scene now (record l {
          db = (emit (Room.board_room board_id) (Event.scene_updated board_id) l.db).1;
        }),
      )
      else (s, l)
    else (disconnect s, l)

-- `handlePresentBoard` up to the end of its await: the pointer to be set, if the user owns the workspace.
unfoldable pub start_present : Socket → Text → Time → Live → Socket × Option Presented
start_present s board_id now l =
    if may_speak s now
    then (
      s,
      elim (owned_board_workspace_id board_id (user_of s) l.db) [
        | none ↦ none
        | some w ↦ some (record { workspace_id = w; board_id = board_id })
      ],
    )
    else (disconnect s, none)

-- After it: the clients of the workspace follow, whether or not the board is still there.
unfoldable pub finish_present : Presented → Live → Live
unfolding set_presented
finish_present p l = record l {
  presented = set_presented p l.presented;
  db = (emit (Room.boards_room p.workspace_id) (Event.board_presented p.board_id) l.db).1;
}

-- The owner turns to a board and nothing comes between.
unfoldable pub handle_present_board : Socket → Text → Time → Live → Socket × Live
unfolding start_present finish_present
handle_present_board s board_id now l =
    let (s', pointer) = start_present s board_id now l in
    (s', elim pointer [ none ↦ l | some p ↦ finish_present p l ])

-- What a socket that joins is sent: `none` when it is refused.
unfoldable pub handle_join_board : Socket → Text → Time → Live → Socket × Option Whiteboard
handle_join_board s board_id now l =
    if may_speak s now
    then if can_access_board board_id (user_of s) l.db
      then (s, find (is_board board_id) l.db.whiteboards)
      else (s, none)
    else (disconnect s, none)

-- The board that a late joiner is led to.
unfoldable pub handle_join_workspace_boards : Socket → Text → Time → Live → Socket × Option Text
handle_join_workspace_boards s workspace_id now l =
    if may_speak s now
    then if can_access_workspace workspace_id (user_of s) l.db
      then (
        s,
        elim (find (is_presented_in workspace_id) l.presented) [
          | none ↦ none
          | some p ↦ some p.board_id
        ],
      )
      else (s, none)
    else (disconnect s, none)

abbrev pub is_stale : Text → Text → Presented → Bool
is_stale workspace_id board_id p = p.workspace_id == workspace_id && p.board_id == board_id

-- `broadcastBoardDeleted` drops a pointer to the board and tells the workspace.
unfoldable pub broadcast_deleted : Presented → Live → Live
broadcast_deleted p l = record l {
  presented = delete_where (is_stale p.workspace_id p.board_id) l.presented;
  db = (emit (Room.boards_room p.workspace_id) (Event.board_deleted p.board_id) l.db).1;
}

-- The deletion of a board as the server runs it, when nothing comes between: the service, and its call of
-- the gateway.
unfoldable pub delete_live : Text → Text → Live → Result Reason Unit × Live
unfolding start_delete broadcast_deleted
delete_live board_id user_id l =
    let (r, db) = start_delete board_id user_id l.db in
    elim r [
      | err c e ↦ (err c e, record l { db = db })
      | ok w ↦ (
        ok tt,
        broadcast_deleted (record { workspace_id = w; board_id = board_id }) (record l { db = db }),
      )
    ]

-- The restoration of a version as the server runs it: the pending payload of the board stays.
unfoldable pub restore_live :
    LabelTexts → Text → Text → Text → Time → Live → Result Reason Whiteboard × Live
restore_live texts id version_id user_id now l =
    let (r, db) = restore texts id version_id user_id now l.db in (r, record l { db = db })

-- ===== src/Boards/Live/Overlap.antt =====
-- Requests that overlap, as the parts of them in some order: src/whiteboard/whiteboard.gateway.ts.
use workspacebridge_backend.Base.{
  ◌≡◌, true, none, some, List, ◌∷◌, ok, err, find, delete_where, Result, Option,
}
use workspacebridge_backend.Store.{Text, Time, Scene, Whiteboard, Db, Reason}
use workspacebridge_backend.Notifications.{is_board}
use workspacebridge_backend.Boards.Live.Pointers.{is_settled, AllShown, AllSettled}
use workspacebridge_backend.Boards.{persist, delete_board, start_delete}
use workspacebridge_backend.Boards.Versions.{LabelTexts}
use workspacebridge_backend.Sockets.{Socket}
use workspacebridge_backend.Boards.Live.{
  Presented, Live, fire, broadcast_deleted, finish_present, restore_live, handle_scene_update,
  handle_present_board, schedule_persist, is_stale,
}

-- The server, and the deletions whose row has gone and that have still to be announced.
pub record Server : Type 0 where
  pub live : Live
  pub leaving : List Presented

-- What happens to the boards of a server and to what is presented. Requests that overlap are their parts
-- in some order: what ends in `_late` is the last part of a request alone, whatever has come since its
-- checks, and `deletes` is a deletion without its announcement.
pub data LiveEvent : Type 0 where
  draws : Socket → Text → Scene → Time → LiveEvent
  draws_late : Text → Scene → Time → LiveEvent
  times_out : Text → LiveEvent
  restores : LabelTexts → Text → Text → Text → Time → LiveEvent
  writes_late : Text → Scene → LiveEvent
  presents : Socket → Text → Time → LiveEvent
  presents_late : Presented → LiveEvent
  deletes : Text → Text → LiveEvent
  deletes_late : Text → LiveEvent
  announces : Presented → LiveEvent

-- The row of a board goes.
abbrev pub drop_row : Whiteboard → Server → Server
drop_row b st = record st {
  live = record st.live { db = delete_board b.id st.live.db };
  leaving = record { workspace_id = b.workspace_id; board_id = b.id } ∷ st.leaving;
}

abbrev pub drop_found : Option Whiteboard → Server → Server
drop_found none st = st
drop_found (some b) st = drop_row b st

abbrev pub after_delete : Text → Server → Result Reason Text × Db → Server
after_delete k st (err c e, db) = record st { live = record st.live { db = db } }
after_delete k st (ok w, db) = record st {
  live = record st.live { db = db };
  leaving = record { workspace_id = w; board_id = k } ∷ st.leaving;
}

abbrev pub announce : Presented → Server → Server
announce p st = record st {
  live = broadcast_deleted p st.live;
  leaving = delete_where (is_stale p.workspace_id p.board_id) st.leaving;
}

abbrev pub handle : LiveEvent → Server → Server
handle (LiveEvent.draws s k scene now) st = record st {
  live = (handle_scene_update s k scene now st.live).1;
}
handle (LiveEvent.draws_late k scene now) st = record st {
  live = schedule_persist k scene now st.live;
}
handle (LiveEvent.times_out k) st = record st { live = fire k st.live }
handle (LiveEvent.restores texts id v user_id now) st = record st {
  live = (restore_live texts id v user_id now st.live).1;
}
handle (LiveEvent.writes_late k scene) st = record st {
  live = record st.live { db = (persist k scene st.live.db).1 };
}
handle (LiveEvent.presents s k now) st = record st {
  live = (handle_present_board s k now st.live).1;
}
handle (LiveEvent.presents_late p) st = record st { live = finish_present p st.live }
handle (LiveEvent.deletes k user_id) st = after_delete k st (start_delete k user_id st.live.db)
handle (LiveEvent.deletes_late k) st = drop_found (find (is_board k) st.live.db.whiteboards) st
handle (LiveEvent.announces p) st = announce p st

-- A pointer that is set late is set before the deletion of its board is announced.
abbrev pub IsFair : LiveEvent → Server → Type 0
IsFair (LiveEvent.presents_late p) st = is_settled st.live.db.whiteboards st.leaving p ≡ true
IsFair _ st = Unit

-- The states that a run of events reaches.
pub data Reaches : Server → Server → Type 0 where
  start : {st : Server} → Reaches st st
  next :
      {st st' : Server}
      → Reaches st st'
      → (e : LiveEvent) → IsFair e st'
      → Reaches st (handle e st')

abbrev pub IsSettled : Server → Type 0
IsSettled st = AllSettled st.live.db.whiteboards st.leaving st.live.presented

abbrev pub IsShowing : Live → Type 0
IsShowing l = AllShown l.db.whiteboards l.presented

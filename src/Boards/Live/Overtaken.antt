-- ===== src/Boards/Live/Overtaken.antt =====
-- A presentation that a deletion overtakes: handlePresentBoard of src/whiteboard/whiteboard.gateway.ts.
use workspacebridge_backend.Base.{
  ◌≡◌, some, List, [], ◌∷◌, arith, inl, inr, ◌==◌, find, delete_where, Option-cases, Bool-cases,
  ==_self, find-delete_where_self, false,
}
use workspacebridge_backend.Store.{Text, Time}
use workspacebridge_backend.Teams.Workspaces.{is_workspace}
use workspacebridge_backend.Notifications.{is_board}
use workspacebridge_backend.Boards.Live.Pointers.{is_shown}
use workspacebridge_backend.Boards.{start_delete, owned_board_workspace_id, board_workspace}
use workspacebridge_backend.Sockets.{Socket}
use workspacebridge_backend.Boards.Live.{
  Presented, Live, set_presented, broadcast_deleted, start_present, finish_present, delete_live,
  is_presented_in, user_of,
}

find-set_presented :
    (p : Presented) (qs : List Presented)
    → find (is_presented_in p.workspace_id) (set_presented p qs) ≡ some p
unfolding find set_presented
find-set_presented p [] = ground (arith, ==_self p.workspace_id)
find-set_presented p (q ∷ qs) = ground (arith, ==_self p.workspace_id, find-set_presented p qs)

-- The board of a pointer that has passed the check, deleted by the owner.
overtaken :
    (s : Socket) (k : Text) (now : Time) (l : Live) (p : Presented)
    → (start_present s k now l).1 ≡ some p
    → (p.board_id ≡ k)
      × ((delete_live k (user_of s) l).1.db.whiteboards
          ≡ delete_where (is_board k) l.db.whiteboards)
unfolding start_present owned_board_workspace_id board_workspace delete_live start_delete
    broadcast_deleted
overtaken s k now l p e = elim (Option-cases (find (is_board k) l.db.whiteboards)) [
  | inl gone ↦ ground arith
  | inr (b, f) ↦ elim (Option-cases (find (is_workspace b.workspace_id) l.db.workspaces)) [
    | inl no_workspace ↦ ground arith
    | inr (w, g) ↦ elim (Bool-cases (w.owner_id == user_of s)) [
      | inr not_owner ↦ ground arith
      | inl owner ↦ (ground arith, ground arith)
    ]
  ]
]

-- Without that condition the pointer stays: a presentation that has passed its check before the deletion
-- and is set after it leads late joiners to a board that is gone.
pub late_present_lingers :
    (s : Socket) (k : Text) (now : Time) (l : Live) (p : Presented)
    → (start_present s k now l).1 ≡ some p
    → let late = finish_present p (delete_live k (user_of s) l).1 in
      (is_shown late.db.whiteboards p ≡ false)
      × (find (is_presented_in p.workspace_id) late.presented ≡ some p)
late_present_lingers s k now l p e =
    let (same, gone) = overtaken s k now l p e in
    let late = finish_present p (delete_live k (user_of s) l).1 in
    (
      unfold finish_present in
          rw (gone, same) (ground (arith, find-delete_where_self (is_board k) l.db.whiteboards)),
      unfold finish_present in find-set_presented p (delete_live k (user_of s) l).1.presented,
    )

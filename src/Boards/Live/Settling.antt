-- ===== src/Boards/Live/Settling.antt =====
-- What each step does to the pointers of presentedBoards: src/whiteboard/whiteboard.gateway.ts.
use workspacebridge_backend.Base.{
  ◌≡◌, refl, sym, subst, true, some, List, arith, ok, err, inl, inr, ◌==◌, find, delete_where,
  Option-cases, Bool-cases, ==_iff, ==_self, Result, find-fits, Status, not_found, forbidden, ◌⊎◌,
}
use workspacebridge_backend.Store.{Text, Time, Scene, Whiteboard, Db, Reason}
use workspacebridge_backend.Teams.Workspaces.{is_workspace}
use workspacebridge_backend.Notifications.{is_board}
use workspacebridge_backend.Boards.Live.Pointers.{
  is_shown, is_settled, AllSettled, Rescened, set_presented-AllSettled, drop-AllSettled,
  announce-AllSettled, Rescened-AllSettled, persist-Rescened,
}
use workspacebridge_backend.Boards.Live.Saving.{fire_lem}
use workspacebridge_backend.Boards.{
  can_access_board, persist, delete_board, start_delete, owned_board_workspace_id, board_workspace,
  find_board, ensure_board_access,
}
use workspacebridge_backend.Boards.Versions.{LabelTexts, restore, find_version, is_version}
use workspacebridge_backend.Sockets.{Socket}
use workspacebridge_backend.Boards.Live.{
  Presented, Live, is_unsaved, fire, after_void, broadcast_deleted, start_present, finish_present,
  handle_scene_update, handle_present_board, schedule_persist,
}
use workspacebridge_backend.Boards.Live.Overlap.{
  Server, LiveEvent, after_delete, announce, handle, IsSettled,
}

after_void_lem :
    (l : Live) (r : Result Reason Unit × Db)
    → ((after_void l r).db ≡ r.1) × ((after_void l r).presented ≡ l.presented)
after_void_lem l (ok x, db) = (refl, refl)
after_void_lem l (err c e, db) = (refl, refl)

pub fire-Rescened :
    (k : Text) (l : Live)
    → Rescened l.db.whiteboards (fire k l).db.whiteboards × ((fire k l).presented ≡ l.presented)
fire-Rescened k l = elim (Option-cases (find (is_unsaved k) l.pending)) [
  | inl quiet ↦ unfold fire in (inl (ground arith), ground arith)
  | inr (p, e) ↦
      let l' = record l { pending = delete_where (is_unsaved k) l.pending } in
      let (db_kept, shown_kept) = after_void_lem l' (persist k p.scene l.db) in
      rw (fire_lem k l p e) (
        subst (λ (d : Db). Rescened l.db.whiteboards d.whiteboards) (sym db_kept)
            (persist-Rescened k p.scene l.db),
        shown_kept,
      )
]

pub restore-Rescened :
    (texts : LabelTexts) (id version_id user_id : Text) (now : Time) (db : Db)
    → Rescened db.whiteboards (restore texts id version_id user_id now db).1.whiteboards
unfolding restore find_version find_board ensure_board_access
restore-Rescened texts id version_id user_id now db =
    elim (Option-cases (find (is_version version_id) db.whiteboard_versions)) [
      | inl gone ↦ inl (ground arith)
      | inr (v, e) ↦ elim (Bool-cases (can_access_board v.whiteboard_id user_id db)) [
        | inr refused ↦ inl (ground arith)
        | inl allowed ↦ elim (Option-cases (find (is_board v.whiteboard_id) db.whiteboards)) [
          | inl no_board ↦ inl (ground arith)
          | inr (b, f) ↦ inr (is_board b.id, v.scene, ground arith)
        ]
      ]
    ]

IsSettled-as :
    (st : Server) (bs : List Whiteboard) (gone ps : List Presented)
    → st.live.db.whiteboards ≡ bs
    → st.leaving ≡ gone
    → st.live.presented ≡ ps
    → AllSettled bs gone ps
    → IsSettled st
IsSettled-as st bs gone ps e f g h = rw (e, f, g) h

pub Rescened-IsSettled :
    (st : Server) (l : Live)
    → Rescened st.live.db.whiteboards l.db.whiteboards
    → l.presented ≡ st.live.presented
    → IsSettled st
    → IsSettled (record st { live = l })
Rescened-IsSettled st l r same h =
    IsSettled-as (record st { live = l }) l.db.whiteboards st.leaving st.live.presented refl refl
      same
      (Rescened-AllSettled st.live.db.whiteboards l.db.whiteboards st.leaving st.live.presented r h)

pub draws-Rescened :
    (s : Socket) (k : Text) (scene : Scene) (now : Time) (l : Live)
    → Rescened l.db.whiteboards (handle_scene_update s k scene now l).1.db.whiteboards
      × ((handle_scene_update s k scene now l).1.presented ≡ l.presented)
unfolding handle_scene_update schedule_persist
draws-Rescened s k scene now l = (inl (ground arith), ground arith)

-- A pointer that passes the check is to a board of the workspace.
started_shown :
    (s : Socket) (k : Text) (now : Time) (l : Live) (p : Presented)
    → (start_present s k now l).1 ≡ some p
    → is_shown l.db.whiteboards p ≡ true
unfolding start_present owned_board_workspace_id board_workspace
started_shown s k now l p e = elim (Option-cases (find (is_board k) l.db.whiteboards)) [
  | inl gone ↦ ground arith
  | inr (b, f) ↦ elim (Option-cases (find (is_workspace b.workspace_id) l.db.workspaces)) [
    | inl no_workspace ↦ ground arith
    | inr (w, g) ↦
        let parts : (p.workspace_id ≡ b.workspace_id) × (p.board_id ≡ k) = ground arith in
        rw (parts.0, parts.1) (ground (arith, f, ==_self b.workspace_id))
  ]
]

pub presented-IsSettled :
    (p : Presented) (st : Server)
    → is_settled st.live.db.whiteboards st.leaving p ≡ true
    → IsSettled st
    → IsSettled (record st { live = finish_present p st.live })
unfolding finish_present
presented-IsSettled p st e h =
    set_presented-AllSettled st.live.db.whiteboards st.leaving p st.live.presented e h

pub presents-IsSettled :
    (s : Socket) (k : Text) (now : Time) (st : Server)
    → IsSettled st
    → IsSettled (record st { live = (handle_present_board s k now st.live).1 })
presents-IsSettled s k now st h = elim (Option-cases (start_present s k now st.live).1) [
  | inl refused ↦
      let same : (handle_present_board s k now st.live).1 ≡ st.live =
        unfold handle_present_board in ground arith in
      rw same h
  | inr (p, e) ↦
      let done : (handle_present_board s k now st.live).1 ≡ finish_present p st.live =
        unfold handle_present_board in ground arith in
      let shown = started_shown s k now st.live p e in
      rw done (presented-IsSettled p st (ground (arith, shown)) h)
]

started_delete :
    (k user_id : Text) (db : Db)
    → ((c : Status) × (e : Reason) × (start_delete k user_id db ≡ (err c e, db)))
      ⊎ ((b : Whiteboard) × (find (is_board k) db.whiteboards ≡ some b)
          × (start_delete k user_id db ≡ (ok b.workspace_id, delete_board k db)))
unfolding start_delete board_workspace
started_delete k user_id db = elim (Option-cases (find (is_board k) db.whiteboards)) [
  | inl gone ↦ inl (not_found, Reason.board_not_found, ground arith)
  | inr (b, e) ↦ elim (Option-cases (find (is_workspace b.workspace_id) db.workspaces)) [
    | inl no_workspace ↦ inl (not_found, Reason.board_not_found, ground arith)
    | inr (w, f) ↦ elim (Bool-cases (w.owner_id == user_id)) [
      | inr not_owner ↦ inl (forbidden, Reason.owner_only, ground arith)
      | inl owner ↦
          let same : w.id ≡ b.workspace_id =
            (==_iff w.id b.workspace_id).0
              (find-fits (is_workspace b.workspace_id) db.workspaces w f) in
          inr (b, e, rw (sym same) (ground arith))
    ]
  ]
]

pub deletes-IsSettled :
    (k user_id : Text) (st : Server)
    → IsSettled st
    → IsSettled (after_delete k st (start_delete k user_id st.live.db))
deletes-IsSettled k user_id st h = elim (started_delete k user_id st.live.db) [
  | inl (c, x, refused) ↦ rw refused h
  | inr (b, e, gone) ↦
      rw gone (drop-AllSettled k b st.live.db.whiteboards st.leaving st.live.presented e h)
]

pub dropped-IsSettled :
    (k : Text) (st : Server) → IsSettled st → IsSettled (handle (LiveEvent.deletes_late k) st)
dropped-IsSettled k st h = elim (Option-cases (find (is_board k) st.live.db.whiteboards)) [
  | inl gone ↦ rw gone h
  | inr (b, e) ↦
      let same : b.id ≡ k = (==_iff b.id k).0 (find-fits (is_board k) st.live.db.whiteboards b e) in
      rw (e, same) (drop-AllSettled k b st.live.db.whiteboards st.leaving st.live.presented e h)
]

pub announced-IsSettled : (p : Presented) (st : Server) → IsSettled st → IsSettled (announce p st)
unfolding broadcast_deleted
announced-IsSettled p st h =
    announce-AllSettled st.live.db.whiteboards p st.leaving st.live.presented h

-- ===== src/Boards/Live/Flushing.antt =====
-- Shutting down: onModuleDestroy of src/whiteboard/whiteboard.gateway.ts.
use workspacebridge_backend.Base.{
  ◌+◌, ◌≡◌, refl, ap, ◌∙◌, subst, true, none, some, List, [], ◌∷◌, arith, ok, err, inl, inr, ◌==◌,
  is_some, find, internal, Option-cases, Bool-cases, ==_iff, Result,
}
use workspacebridge_backend.Store.{Text, Scene, Whiteboard, Db, Reason}
use workspacebridge_backend.Notifications.{is_board}
use workspacebridge_backend.Boards.{set_scene, persist}
use workspacebridge_backend.Boards.Live.{Unsaved, Live, is_unsaved, flush, fire}
use workspacebridge_backend.Boards.Live.Saving.{persist_self, persist_other, persist_gone, fire_lem}

-- The payloads of a list that stand in the boards.
abbrev pub AllSaved : List Unsaved → Db → Type 0
AllSaved [] db = Unit
AllSaved (p ∷ ps) db =
    ((b : Whiteboard) × (find (is_board p.board_id) db.whiteboards ≡ some b) × (b.scene ≡ p.scene))
    × AllSaved ps db

-- Each board is there, and waits once.
abbrev pub AllThere : List Unsaved → Db → Type 0
AllThere [] db = Unit
AllThere (p ∷ ps) db =
    (is_some (find (is_board p.board_id) db.whiteboards) ≡ true)
    × (find (is_unsaved p.board_id) ps ≡ none)
    × AllThere ps db

persist-AllThere :
    (k : Text) (scene : Scene) (ps : List Unsaved) (db : Db) (b : Whiteboard)
    → find (is_board k) db.whiteboards ≡ some b
    → AllThere ps db
    → AllThere ps (persist k scene db).1
persist-AllThere k scene [] db b e h = tt
persist-AllThere k scene (p ∷ ps) db b e h = (
  elim (Bool-cases (k == p.board_id)) [
    | inl same ↦
        subst (λ j. is_some (find (is_board j) (persist k scene db).1.whiteboards) ≡ true)
          ((==_iff k p.board_id).0 same) (ap is_some (persist_self k scene db b e).1)
    | inr other ↦ ap is_some (persist_other k p.board_id scene db other) ∙ h.0
  ],
  h.1,
  persist-AllThere k scene ps db b e h.2,
)

flush_step :
    (p : Unsaved) (ps : List Unsaved) (db : Db)
    → (persist p.board_id p.scene db).0 ≡ ok tt
    → flush (p ∷ ps) db ≡ flush ps (persist p.board_id p.scene db).1
unfolding flush
flush_step p ps db e = ground arith

flush_stops :
    (p : Unsaved) (ps : List Unsaved) (db : Db)
    → find (is_board p.board_id) db.whiteboards ≡ none
    → flush (p ∷ ps) db ≡ (err internal Reason.record_not_found, db)
unfolding flush
flush_stops p ps db gone = ground (arith, persist_gone p.board_id p.scene db gone)

flush-other :
    (k : Text) (ps : List Unsaved) (db : Db)
    → find (is_unsaved k) ps ≡ none
    → find (is_board k) (flush ps db).1.whiteboards ≡ find (is_board k) db.whiteboards
unfolding find
flush-other k [] db n = unfold flush in refl
flush-other k (p ∷ ps) db n = elim (Option-cases (find (is_board p.board_id) db.whiteboards)) [
  | inl gone ↦
      ap (λ (o : Result Reason Unit × Db). find (is_board k) o.1.whiteboards)
        (flush_stops p ps db gone)
  | inr (b, e) ↦
      ap (λ (o : Result Reason Unit × Db). find (is_board k) o.1.whiteboards)
        (flush_step p ps db (persist_self p.board_id p.scene db b e).0)
      ∙ flush-other k ps (persist p.board_id p.scene db).1 (ground arith)
      ∙ persist_other p.board_id k p.scene db (ground arith)
]

-- Shutting down answers once every waiting payload stands in its board, if the boards are still there
-- and each waits once.
pub flush_saves :
    (ps : List Unsaved) (db : Db)
    → AllThere ps db
    → ((flush ps db).0 ≡ ok tt) × AllSaved ps (flush ps db).1
unfolding flush
flush_saves [] db h = (refl, tt)
flush_saves (p ∷ ps) db h = elim (Option-cases (find (is_board p.board_id) db.whiteboards)) [
  | inl gone ↦ ground (arith, h.0)
  | inr (b, e) ↦
      let (done, saved) = persist_self p.board_id p.scene db b e in
      let db' = (persist p.board_id p.scene db).1 in
      let (ended, rest) = flush_saves ps db' (persist-AllThere p.board_id p.scene ps db b e h.2) in
      rw (flush_step p ps db done)
        (ended, ((set_scene p.scene b, flush-other p.board_id ps db' h.1 ∙ saved, refl), rest))
]

-- A waiting payload of a board that is gone is a rejection that nobody handles, and at the shutdown it
-- keeps every payload behind it from being saved.
pub deleted_board_stops :
    (p : Unsaved) (ps : List Unsaved) (l : Live)
    → find (is_board p.board_id) l.db.whiteboards ≡ none
    → find (is_unsaved p.board_id) l.pending ≡ some p
    → ((fire p.board_id l).unhandled ≡ l.unhandled + 1)
      × ((fire p.board_id l).db ≡ l.db)
      × (flush (p ∷ ps) l.db ≡ (err internal Reason.record_not_found, l.db))
deleted_board_stops p ps l gone waits =
    let fired = fire_lem p.board_id l p waits in
    let fails = persist_gone p.board_id p.scene l.db gone in
    (
      ap (λ (o : Live). o.unhandled) fired ∙ ground (arith, fails),
      ap (λ (o : Live). o.db) fired ∙ ground (arith, fails),
      flush_stops p ps l.db gone,
    )

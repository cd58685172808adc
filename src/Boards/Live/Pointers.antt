-- ===== src/Boards/Live/Pointers.antt =====
-- Pointers to boards that are there, for presentedBoards of src/whiteboard/whiteboard.gateway.ts.
use workspacebridge_backend.Base.{
  ◌≡◌, refl, sym, subst, Bool, true, false, none, some, List, [], ◌∷◌, arith, inl, inr, ◌⊎◌, ◌==◌,
  ◌||◌, is_some, ==_self, find, update_where, delete_where, All, Option-cases, Bool-cases, ==_iff,
  find-delete_where_other,
}
use workspacebridge_backend.Store.{Text, Scene, Whiteboard, Db}
use workspacebridge_backend.Notifications.{is_board}
use workspacebridge_backend.Boards.{set_scene, persist}
use workspacebridge_backend.Boards.Live.{Presented, set_presented, is_stale}

-- The board of a pointer is there, in the workspace of the pointer.
abbrev pub is_shown : List Whiteboard → Presented → Bool
is_shown boards p = elim (find (is_board p.board_id) boards) [
  | none ↦ false
  | some b ↦ b.workspace_id == p.workspace_id
]

-- The deletion of the board of a pointer has still to be announced.
abbrev pub is_leaving : List Presented → Presented → Bool
is_leaving leaving p = is_some (find (is_stale p.workspace_id p.board_id) leaving)

abbrev pub is_settled : List Whiteboard → List Presented → Presented → Bool
is_settled boards leaving p = is_shown boards p || is_leaving leaving p

abbrev pub AllShown : List Whiteboard → List Presented → Type 0
AllShown boards ps = All (λ p. is_shown boards p ≡ true) ps

-- Each pointer is to a board that is there, or that is about to be announced as deleted.
abbrev pub AllSettled : List Whiteboard → List Presented → List Presented → Type 0
AllSettled boards leaving ps = All (λ p. is_settled boards leaving p ≡ true) ps

pub shown-AllSettled :
    (boards : List Whiteboard) (leaving ps : List Presented)
    → AllShown boards ps
    → AllSettled boards leaving ps
shown-AllSettled boards leaving [] h = tt
shown-AllSettled boards leaving (p ∷ ps) h =
    (ground (arith, h.0), shown-AllSettled boards leaving ps h.1)

pub settled-AllShown :
    (boards : List Whiteboard) (ps : List Presented) → AllSettled boards [] ps → AllShown boards ps
unfolding find
settled-AllShown boards [] h = tt
settled-AllShown boards (p ∷ ps) h = (ground (arith, h.0), settled-AllShown boards ps h.1)

pub set_presented-AllSettled :
    (boards : List Whiteboard) (leaving : List Presented) (p : Presented) (ps : List Presented)
    → is_settled boards leaving p ≡ true
    → AllSettled boards leaving ps
    → AllSettled boards leaving (set_presented p ps)
unfolding set_presented
set_presented-AllSettled boards leaving p [] e h = (e, tt)
set_presented-AllSettled boards leaving p (q ∷ qs) e h =
    elim (Bool-cases (q.workspace_id == p.workspace_id)) [
      | inl same ↦ rw same (e, h.1)
      | inr other ↦ rw other (h.0, set_presented-AllSettled boards leaving p qs e h.1)
    ]

-- New scenes move no board.
is_shown-set_scene :
    (q : Whiteboard → Bool) (scene : Scene) (boards : List Whiteboard) (p : Presented)
    → is_shown (update_where q (set_scene scene) boards) p ≡ is_shown boards p
unfolding find update_where
is_shown-set_scene q scene [] p = refl
is_shown-set_scene q scene (b ∷ bs) p = ground (arith, is_shown-set_scene q scene bs p)

pub set_scene-AllSettled :
    (q : Whiteboard → Bool) (scene : Scene) (boards : List Whiteboard) (leaving ps : List Presented)
    → AllSettled boards leaving ps
    → AllSettled (update_where q (set_scene scene) boards) leaving ps
set_scene-AllSettled q scene boards leaving [] h = tt
set_scene-AllSettled q scene boards leaving (p ∷ ps) h = (
  ground (arith, h.0, is_shown-set_scene q scene boards p),
  set_scene-AllSettled q scene boards leaving ps h.1,
)

-- A board goes, and its deletion is to be announced.
pub drop-AllSettled :
    (k : Text) (b : Whiteboard) (boards : List Whiteboard) (leaving ps : List Presented)
    → find (is_board k) boards ≡ some b
    → AllSettled boards leaving ps
    → AllSettled
        (delete_where (is_board k) boards)
        (record { workspace_id = b.workspace_id; board_id = k } ∷ leaving)
        ps
unfolding find
drop-AllSettled k b boards leaving [] e h = tt
drop-AllSettled k b boards leaving (p ∷ ps) e h =
    let rest = drop-AllSettled k b boards leaving ps e h.1 in
    elim (Bool-cases (p.board_id == k)) [
      | inl same ↦
          let there : find (is_board p.board_id) boards ≡ some b =
            subst (λ j. find (is_board j) boards ≡ some b) (sym ((==_iff p.board_id k).0 same)) e in
          (
            ground (
              arith,
              h.0,
              ==_iff p.workspace_id b.workspace_id,
              ==_iff p.board_id k,
              ==_self b.workspace_id,
              ==_self k,
            ),
            rest,
          )
      | inr other ↦
          let kept : find (is_board p.board_id) (delete_where (is_board k) boards)
              ≡ find (is_board p.board_id) boards =
            find-delete_where_other (is_board p.board_id) (is_board k) boards
              (λ x f. ground arith) in
          (ground (arith, h.0, kept), rest)
    ]

-- The announcement clears the pointers to the board.
pub announce-AllSettled :
    (boards : List Whiteboard) (d : Presented) (leaving ps : List Presented)
    → AllSettled boards leaving ps
    → AllSettled boards
        (delete_where (is_stale d.workspace_id d.board_id) leaving)
        (delete_where (is_stale d.workspace_id d.board_id) ps)
unfolding delete_where
announce-AllSettled boards d leaving [] h = tt
announce-AllSettled boards d leaving (p ∷ ps) h =
    let rest = announce-AllSettled boards d leaving ps h.1 in
    elim (Bool-cases (is_stale d.workspace_id d.board_id p)) [
      | inl stale ↦ rw stale rest
      | inr other ↦
          let kept : find (is_stale p.workspace_id p.board_id)
                (delete_where (is_stale d.workspace_id d.board_id) leaving)
              ≡ find (is_stale p.workspace_id p.board_id) leaving =
            find-delete_where_other (is_stale p.workspace_id p.board_id)
              (is_stale d.workspace_id d.board_id) leaving (λ x f. ground arith) in
          rw other (ground (arith, h.0, kept), rest)
    ]

-- The boards are the same, but for the scenes of some.
abbrev pub Rescened : List Whiteboard → List Whiteboard → Type 0
Rescened bs bs' =
    (bs' ≡ bs)
    ⊎ ((q : Whiteboard → Bool) × (scene : Scene) × (bs' ≡ update_where q (set_scene scene) bs))

pub Rescened-AllSettled :
    (bs bs' : List Whiteboard) (leaving ps : List Presented)
    → Rescened bs bs'
    → AllSettled bs leaving ps
    → AllSettled bs' leaving ps
Rescened-AllSettled bs bs' leaving ps r h = elim r [
  | inl same ↦ subst (λ b. AllSettled b leaving ps) (sym same) h
  | inr (q, scene, e) ↦
      subst (λ b. AllSettled b leaving ps) (sym e) (set_scene-AllSettled q scene bs leaving ps h)
]

pub persist-Rescened :
    (k : Text) (scene : Scene) (db : Db)
    → Rescened db.whiteboards (persist k scene db).1.whiteboards
unfolding persist
persist-Rescened k scene db = elim (Option-cases (find (is_board k) db.whiteboards)) [
  | inl gone ↦ inl (ground arith)
  | inr (b, e) ↦ inr (is_board k, scene, ground arith)
]

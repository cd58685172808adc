-- ===== src/Search/Visible.antt =====
-- What a search can show: the access filter of src/search/search.service.ts.
use workspacebridge_backend.Base.{
  ◌≡◌, ap, ◌∙◌, ◌≤◌, ℕ, Bool, true, false, not, ◌&&◌, Option, none, some, List, [], ◌∷◌, arith, ok,
  err, Status, ◌⊎◌, map, length, find, select, elem, is_some, truthy, or_else, ◌==◌, ==_iff,
  ==_self, Bool-cases, Option-cases, inl, inr, All, All-select, find-fits, if◌then◌else◌,
}
use workspacebridge_backend.Store.{Text, UserRole, Workspace, PrivateTask, Db, Reason}
use workspacebridge_backend.Teams.Workspaces.{
  is_workspace, is_member, ensure_workspace_access, get_workspace,
}
use workspacebridge_backend.Files.{is_file, is_live}
use workspacebridge_backend.Notifications.{is_board}
use workspacebridge_backend.Search.{
  ResultType, is_type, Hit, SearchResult, Matching, is_accessible, file_workspace,
  whiteboard_workspace, is_scope_of, is_client, jobs, settle, search, resolve_accessible_workspaces,
  set_workspace_name, top, matches, search_workspaces, search_messages, search_files,
  search_file_comments, search_shared_tasks, search_shared_links, search_whiteboard_comments,
  search_private_tasks,
}
use workspacebridge_backend.Search.Ranking.{
  All-top, All-map, All-matches, All-settle, IsRanked, top-IsRanked, length-top,
}

abbrev pub is_own_task : Text → Text → PrivateTask → Bool
is_own_task user_id id t = t.id == id && t.user_id == user_id

abbrev pub may_enter : Text → Db → Text → Bool
may_enter user_id db id =
    is_some (find (λ w. w.id == id && is_accessible user_id db w) db.workspaces)

-- A private task is shown to its user only, who is no client; any other result is in a workspace
-- that the user owns or belongs to.
abbrev pub is_visible : Text → UserRole → Db → SearchResult → Bool
is_visible user_id role db r =
    if is_type ResultType.private_task r.type
    then not (is_client role) && is_some (find (is_own_task user_id r.id) db.private_tasks)
    else elim r.workspace_id [ none ↦ false | some w ↦ may_enter user_id db w ]

All-found_cons :
    (user_id : Text) (s : PrivateTask) (ts xs : List PrivateTask)
    → All (λ t. is_some (find (is_own_task user_id t.id) ts) ≡ true) xs
    → All (λ t. is_some (find (is_own_task user_id t.id) (s ∷ ts)) ≡ true) xs
unfolding find
All-found_cons user_id s ts [] h = tt
All-found_cons user_id s ts (t ∷ xs) h = (ground (arith, h.0), All-found_cons user_id s ts xs h.1)

-- The rows of the user's own private tasks are found as such.
All-found :
    (user_id : Text) (scope : Option Text) (ts : List PrivateTask)
    → All
        (λ t. is_some (find (is_own_task user_id t.id) ts) ≡ true)
        (select (λ t. t.user_id == user_id && is_scope_of scope t) ts)
unfolding find select
All-found user_id scope [] = tt
All-found user_id scope (t ∷ ts) =
    let rest =
      All-found_cons user_id t ts (select (λ t. t.user_id == user_id && is_scope_of scope t) ts)
        (All-found user_id scope ts) in
    elim (Bool-cases (t.user_id == user_id && is_scope_of scope t)) [
      | inl own ↦ rw own (ground (arith, ==_self t.id), rest)
      | inr other ↦ rw other rest
    ]

entered :
    (p : Workspace → Bool) (id : Text) (ws : List Workspace)
    → elem id (map (λ w. w.id) (select p ws)) ≡ true
    → is_some (find (λ w. w.id == id && p w) ws) ≡ true
unfolding find select elem
entered p id [] e = e
entered p id (w ∷ ws) e = elim (Bool-cases (p w)) [
  | inr closed ↦ ground (arith, entered p id ws)
  | inl open_ ↦ elim (Bool-cases (w.id == id)) [
    | inl same ↦ ground arith
    | inr other ↦ ground (arith, entered p id ws)
  ]
]

found_both :
    (p q : Workspace → Bool) (ws : List Workspace) (w : Workspace)
    → find p ws ≡ some w
    → q w ≡ true
    → is_some (find (λ v. p v && q v) ws) ≡ true
unfolding find
found_both p q [] w e f = ground arith
found_both p q (v ∷ ws) w e f = elim (Bool-cases (p v)) [
  | inl hit ↦ ground arith
  | inr miss ↦ ground (arith, found_both p q ws w)
]

file_workspace_in :
    (ids : List Text) (file_id w : Text) (db : Db)
    → file_workspace ids file_id db ≡ some w
    → elem w ids ≡ true
file_workspace_in ids file_id w db e = elim (Option-cases (find (is_file file_id) db.files)) [
  | inl gone ↦ ground arith
  | inr (f, found) ↦ elim (Bool-cases (elem f.workspace_id ids && is_live f)) [
    | inl inside ↦ ground arith
    | inr outside ↦ ground arith
  ]
]

whiteboard_workspace_in :
    (ids : List Text) (board_id w : Text) (db : Db)
    → whiteboard_workspace ids board_id db ≡ some w
    → elem w ids ≡ true
whiteboard_workspace_in ids board_id w db e =
    elim (Option-cases (find (is_board board_id) db.whiteboards)) [
      | inl gone ↦ ground arith
      | inr (b, found) ↦ elim (Bool-cases (elem b.workspace_id ids)) [
        | inl inside ↦ ground arith
        | inr outside ↦ ground arith
      ]
    ]

module _ (x : Matching) (user_id : Text) (role : UserRole) (limit : ℕ) (ids : List Text) (db : Db)
    (enter : (id : Text) → elem id ids ≡ true → may_enter user_id db id ≡ true) where
  abbrev Visible : SearchResult → Type 0
  Visible r = is_visible user_id role db r ≡ true

  -- One source: the rows that pass its filter are visible.
  source-Visible {ℓ} :
      {A : Type ℓ} (q : A → Bool) (hit : A → Option Hit) (make : A → Hit → SearchResult)
      (rows : List A)
      → ((a : A) (h : Hit) → q a ≡ true → Visible (make a h))
      → All Visible (top limit (matches hit make (select q rows)))
  source-Visible q hit make rows good =
      All-top Visible limit (matches hit make (select q rows))
        (All-matches Visible (λ a. q a ≡ true) hit make (select q rows) good (All-select q rows))

  messages-Visible : All Visible (search_messages x limit db ids)
  unfolding search_messages
  messages-Visible =
      source-Visible _ x.in_message _ db.messages
        (λ m h e. enter m.workspace_id (ground (arith, e)))

  files-Visible : All Visible (search_files x limit db ids)
  unfolding search_files
  files-Visible =
      source-Visible _ x.in_file _ db.files (λ f h e. enter f.workspace_id (ground (arith, e)))

  file_comments-Visible : All Visible (search_file_comments x limit db ids)
  unfolding search_file_comments
  file_comments-Visible = source-Visible _ x.in_file_comment _ db.file_comments (λ c h e.
      elim (Option-cases (file_workspace ids c.file_id db)) [
        | inl gone ↦ ground arith
        | inr (w, f) ↦ rw f (enter w (file_workspace_in ids c.file_id w db f))
      ])

  whiteboard_comments-Visible : All Visible (search_whiteboard_comments x limit db ids)
  unfolding search_whiteboard_comments
  whiteboard_comments-Visible =
      source-Visible _ x.in_whiteboard_comment _ db.whiteboard_comments (λ c h e.
        elim (Option-cases (whiteboard_workspace ids c.whiteboard_id db)) [
          | inl gone ↦ ground arith
          | inr (w, f) ↦ rw f (enter w (whiteboard_workspace_in ids c.whiteboard_id w db f))
        ])

  private_tasks-Visible :
      (scope : Option Text)
      → is_client role ≡ false
      → All Visible (search_private_tasks x limit db user_id scope)
  unfolding search_private_tasks
  private_tasks-Visible scope freelancer = All-top Visible limit _ (
      All-matches Visible (λ t. is_some (find (is_own_task user_id t.id) db.private_tasks) ≡ true)
        x.in_private_task _ _ (λ t h e. ground arith) (All-found user_id scope db.private_tasks))

  workspaces-Visible : All Visible (search_workspaces x limit db ids)
  unfolding search_workspaces
  workspaces-Visible = source-Visible _ x.in_workspace _ db.workspaces (λ w h e. enter w.id e)

  shared_tasks-Visible : All Visible (search_shared_tasks x limit db ids)
  unfolding search_shared_tasks
  shared_tasks-Visible =
      source-Visible _ x.in_shared_task _ db.shared_tasks (λ t h e. enter t.workspace_id e)

  shared_links-Visible : All Visible (search_shared_links x limit db ids)
  unfolding search_shared_links
  shared_links-Visible =
      source-Visible _ x.in_shared_link _ db.shared_links (λ l h e. enter l.workspace_id e)

  jobs-Visible :
      (scope : Option Text) (types : List ResultType)
      → All Visible (settle (jobs x user_id role scope types limit ids db))
  jobs-Visible scope types = All-settle Visible (jobs x user_id role scope types limit ids db) (
    λ on. workspaces-Visible,
    (
      λ on. messages-Visible,
      (
        λ on. files-Visible,
        (
          λ on. file_comments-Visible,
          (
            λ on. shared_tasks-Visible,
            (
              λ on. shared_links-Visible,
              (
                λ on. whiteboard_comments-Visible,
                (λ on. private_tasks-Visible scope (ground (arith, on)), tt),
              ),
            ),
          ),
        ),
      ),
    ),
  )

-- Where the search may look: the workspace asked for, or all of the user's.
resolve_cases :
    (user_id : Text) (scope : Option Text) (db : Db)
    → ((ws : List Workspace) × (resolve_accessible_workspaces user_id scope db ≡ (ok ws, db))
        × ((id : Text) → elem id (map (λ w. w.id) ws) ≡ true → may_enter user_id db id ≡ true))
      ⊎ ((c : Status) × (e : Reason) × (resolve_accessible_workspaces user_id scope db
            ≡ (err c e, db)))
unfolding resolve_accessible_workspaces ensure_workspace_access get_workspace elem
resolve_cases user_id scope db = elim (Bool-cases (truthy scope)) [
  | inr all ↦ inl (
    select (is_accessible user_id db) db.workspaces,
    ground arith,
    (λ id e. entered (is_accessible user_id db) id db.workspaces e),
  )
  | inl scoped ↦ elim (Option-cases (find (is_workspace (or_else scope 0)) db.workspaces)) [
    | inl gone ↦ inr (Status.not_found, Reason.workspace_not_found, ground arith)
    | inr (w, e) ↦
        let named : w.id ≡ or_else scope 0 =
          (==_iff w.id (or_else scope 0)).0
            (find-fits (is_workspace (or_else scope 0)) db.workspaces w e) in
        elim (Bool-cases (is_accessible user_id db w)) [
          | inl allowed ↦ inl (
            w ∷ [],
            ground (arith, named, ap (λ k. is_member k user_id db) named),
            (λ id one.
                let same : id ≡ w.id = (==_iff id w.id).0 (ground arith) in
                found_both (is_workspace id) (is_accessible user_id db) db.workspaces w
                  (ap (λ k. find (is_workspace k) db.workspaces) (same ∙ named) ∙ e) allowed),
          )
          | inr refused ↦ inr (
            Status.forbidden,
            Reason.not_member,
            ground (arith, named, ap (λ k. is_member k user_id db) named),
          )
        ]
  ]
]

-- Whoever searches, for whatever, sees only what is theirs: each private task in the answer is the user's
-- own, and not one is shown to a client; every other result is in a workspace that the user owns or belongs
-- to. The answer is ordered by rank and time, and is not longer than asked for.
pub search_shows_own :
    (x : Matching) (user_id : Text) (role : UserRole) (scope : Option Text)
    (types : List ResultType) (limit : ℕ) (db db' : Db) (rs : List SearchResult)
    → search x user_id role scope types limit db ≡ (ok rs, db')
    → All (λ r. is_visible user_id role db r ≡ true) rs
      × IsRanked rs
      × (length rs ≤ limit)
      × (db' ≡ db)
unfolding search
search_shows_own x user_id role scope types limit db db' rs e =
    elim (resolve_cases user_id scope db) [
      | inr (c, why, refused) ↦ ground arith
      | inl (ws, here, enter) ↦
          let ids = map (λ (w : Workspace). w.id) ws in
          let found =
            map (set_workspace_name ws) (settle (jobs x user_id role scope types limit ids db)) in
          let answer : rs ≡ top limit found = ground arith in
          rw answer (
            All-top (λ r. is_visible user_id role db r ≡ true) limit found
                (All-map (λ r. is_visible user_id role db r ≡ true) (set_workspace_name ws)
                  (settle (jobs x user_id role scope types limit ids db)) (λ r h. h)
                  (jobs-Visible x user_id role limit ids db enter scope types)),
            top-IsRanked limit found,
            length-top limit found,
            ground arith,
          )
    ]

-- ===== src/Search.antt =====
-- The search: src/search/search.service.ts. What PostgreSQL's text search does is a parameter; the
-- titles, snippets and authors of the results are left out.
pub mod Ranking
pub mod Visible
use workspacebridge_backend.Base.{
  ℕ, Bool, true, false, not, ◌&&◌, ◌||◌, Option, none, some, List, [], ◌∷◌, ◌++◌, map, ◌==◌, ltb,
  if◌then◌else◌, is_some, truthy, or_else, take, length, find, select, elem, pure, gets, ◌>>=◌,
}
use workspacebridge_backend.Store.{
  Text, Time, UserRole, Workspace, Message, File, FileComment, SharedTask, PrivateTask, SharedLink,
  WhiteboardComment, Db, Action,
}
use workspacebridge_backend.Auth.Login.{is_user}
use workspacebridge_backend.Teams.Workspaces.{is_workspace, is_member, ensure_workspace_access}
use workspacebridge_backend.Files.{is_file, is_live}
use workspacebridge_backend.Notifications.{is_board}

pub data ResultType : Type 0 where
  workspace message file file_comment : ResultType
  shared_task private_task shared_link whiteboard_comment : ResultType

abbrev pub is_type : ResultType → ResultType → Bool
is_type ResultType.workspace ResultType.workspace = true
is_type ResultType.message ResultType.message = true
is_type ResultType.file ResultType.file = true
is_type ResultType.file_comment ResultType.file_comment = true
is_type ResultType.shared_task ResultType.shared_task = true
is_type ResultType.private_task ResultType.private_task = true
is_type ResultType.shared_link ResultType.shared_link = true
is_type ResultType.whiteboard_comment ResultType.whiteboard_comment = true
is_type _ _ = false

-- The columns that order the results.
pub record Hit : Type 0 where
  pub rank : ℕ
  pub created_at : Time

pub record SearchResult : Type 0 where
  pub type : ResultType
  pub id : Text
  pub parent_id : Option Text
  pub workspace_id : Option Text
  pub workspace_name : Option Text
  pub hit : Hit

-- What the database says of a row for the query: `none` if it does not match.
pub record Matching : Type 0 where
  pub in_workspace : Workspace → Option Hit
  pub in_message : Message → Option Hit
  pub in_file : File → Option Hit
  pub in_file_comment : FileComment → Option Hit
  pub in_shared_task : SharedTask → Option Hit
  pub in_shared_link : SharedLink → Option Hit
  pub in_whiteboard_comment : WhiteboardComment → Option Hit
  pub in_private_task : PrivateTask → Option Hit

-- `b.rank - a.rank || b.createdAt - a.createdAt`: the first result stands before the second.
abbrev pub is_before : SearchResult → SearchResult → Bool
is_before a b =
    ltb b.hit.rank a.hit.rank
    || a.hit.rank == b.hit.rank && not (ltb a.hit.created_at b.hit.created_at)

unfoldable pub insert : SearchResult → List SearchResult → List SearchResult
insert a [] = a ∷ []
insert a (b ∷ bs) = let rest = insert a bs in if is_before a b then a ∷ b ∷ bs else b ∷ rest

unfoldable pub by_rank : List SearchResult → List SearchResult
unfolding insert
by_rank [] = []
by_rank (a ∷ rs) = insert a (by_rank rs)

-- The rows that match, as results.
unfoldable pub matches {ℓ} :
    {A : Type ℓ} → (A → Option Hit) → (A → Hit → SearchResult) → List A → List SearchResult
matches hit make [] = []
matches hit make (a ∷ rows) = elim (hit a) [
  | none ↦ matches hit make rows
  | some h ↦ make a h ∷ matches hit make rows
]

-- `ORDER BY rank DESC, created_at DESC LIMIT`
unfoldable pub top : ℕ → List SearchResult → List SearchResult
unfolding by_rank
top limit rs = take limit (by_rank rs)

abbrev pub result : ResultType → Text → Option Text → Option Text → Hit → SearchResult
result type id parent w h = record {
  type = type;
  id = id;
  parent_id = parent;
  workspace_id = w;
  workspace_name = none;
  hit = h;
}

-- The file of a comment and the board of a comment, if they are in one of the workspaces.
abbrev pub file_workspace : List Text → Text → Db → Option Text
file_workspace ids file_id db = elim (find (is_file file_id) db.files) [
  | none ↦ none
  | some f ↦ if elem f.workspace_id ids && is_live f then some f.workspace_id else none
]

abbrev pub whiteboard_workspace : List Text → Text → Db → Option Text
whiteboard_workspace ids board_id db = elim (find (is_board board_id) db.whiteboards) [
  | none ↦ none
  | some b ↦ if elem b.workspace_id ids then some b.workspace_id else none
]

abbrev pub is_scope_of : Option Text → PrivateTask → Bool
is_scope_of scope t =
    not (truthy scope) || elim t.workspace_id [ none ↦ false | some w ↦ w == or_else scope 0 ]

module _ (x : Matching) (limit : ℕ) (db : Db) where
  unfoldable pub search_workspaces : List Text → List SearchResult
  unfolding matches top
  search_workspaces ids = top limit (
      matches x.in_workspace (λ w h. result ResultType.workspace w.id none (some w.id) h)
        (select (λ w. elem w.id ids) db.workspaces))

  unfoldable pub search_messages : List Text → List SearchResult
  unfolding matches top
  search_messages ids = top limit (
      matches x.in_message (λ m h. result ResultType.message m.id none (some m.workspace_id) h)
        (select (λ m. elem m.workspace_id ids && is_some (find (is_user m.sender_id) db.users))
          db.messages))

  unfoldable pub search_files : List Text → List SearchResult
  unfolding matches top
  search_files ids = top limit (
      matches x.in_file (λ f h. result ResultType.file f.id none (some f.workspace_id) h)
        (select (λ f. elem f.workspace_id ids && is_live f) db.files))

  unfoldable pub search_file_comments : List Text → List SearchResult
  unfolding matches top
  search_file_comments ids = top limit (
      matches x.in_file_comment
        (λ c h.
          result ResultType.file_comment c.id (some c.file_id) (file_workspace ids c.file_id db) h)
        (select (λ c. is_some (file_workspace ids c.file_id db)) db.file_comments))

  unfoldable pub search_shared_tasks : List Text → List SearchResult
  unfolding matches top
  search_shared_tasks ids = top limit (
      matches x.in_shared_task
        (λ t h. result ResultType.shared_task t.id none (some t.workspace_id) h)
        (select (λ t. elem t.workspace_id ids) db.shared_tasks))

  unfoldable pub search_shared_links : List Text → List SearchResult
  unfolding matches top
  search_shared_links ids = top limit (
      matches x.in_shared_link
        (λ l h. result ResultType.shared_link l.id none (some l.workspace_id) h)
        (select (λ l. elem l.workspace_id ids) db.shared_links))

  unfoldable pub search_whiteboard_comments : List Text → List SearchResult
  unfolding matches top
  search_whiteboard_comments ids = top limit (
      matches x.in_whiteboard_comment
        (λ c h.
          result ResultType.whiteboard_comment c.id (some c.whiteboard_id)
            (whiteboard_workspace ids c.whiteboard_id db) h)
        (select
          (λ c.
            is_some (whiteboard_workspace ids c.whiteboard_id db)
            && is_some (find (is_user c.author_id) db.users))
          db.whiteboard_comments))

  unfoldable pub search_private_tasks : Text → Option Text → List SearchResult
  unfolding matches top
  search_private_tasks user_id scope = top limit (
      matches x.in_private_task (λ t h. result ResultType.private_task t.id none t.workspace_id h)
        (select (λ t. t.user_id == user_id && is_scope_of scope t) db.private_tasks))

abbrev pub is_accessible : Text → Db → Workspace → Bool
is_accessible user_id db w = w.owner_id == user_id || is_member w.id user_id db

-- `resolveAccessibleWorkspaces`: the one asked for, after the check of access, or all of the user's.
abbrev pub resolve_scoped : Text → Text → Action (List Workspace)
resolve_scoped user_id id = do w ← ensure_workspace_access id user_id; pure (w ∷ [])

unfoldable pub resolve_accessible_workspaces : Text → Option Text → Action (List Workspace)
resolve_accessible_workspaces user_id scope =
    if truthy scope
    then resolve_scoped user_id (or_else scope 0)
    else gets (λ db. select (is_accessible user_id db) db.workspaces)

-- No types asked for are all types.
abbrev pub is_wanted : List ResultType → ResultType → Bool
is_wanted [] t = true
is_wanted (w ∷ ws) t = is_some (find (is_type t) (w ∷ ws))

abbrev pub is_client : UserRole → Bool
is_client UserRole.client = true
is_client _ = false

abbrev pub has_any : List Text → Bool
has_any ids = not (length ids == 0)

abbrev pub only_if : Bool → List SearchResult → List SearchResult
only_if c rs = if c then rs else []

abbrev pub name_of : List Workspace → Text → Option Text
name_of ws id = elim (find (is_workspace id) ws) [ none ↦ none | some w ↦ some w.name ]

abbrev pub set_workspace_name : List Workspace → SearchResult → SearchResult
set_workspace_name ws r = record r {
  workspace_name = elim r.workspace_id [
    | none ↦ none
    | some id ↦ if id == 0 then none else name_of ws id
  ];
}

-- `jobs` with what guards each of them, in the order in which they are pushed.
abbrev pub jobs :
    Matching
    → Text
    → UserRole
    → Option Text
    → List ResultType
    → ℕ
    → List Text
    → Db
    → List (Bool × List SearchResult)
jobs x user_id role scope types limit ids db =
    (
      not (truthy scope) && has_any ids && is_wanted types ResultType.workspace,
      search_workspaces x limit db ids,
    )
    ∷ (has_any ids && is_wanted types ResultType.message, search_messages x limit db ids)
    ∷ (has_any ids && is_wanted types ResultType.file, search_files x limit db ids)
    ∷ (has_any ids && is_wanted types ResultType.file_comment, search_file_comments x limit db ids)
    ∷ (has_any ids && is_wanted types ResultType.shared_task, search_shared_tasks x limit db ids)
    ∷ (has_any ids && is_wanted types ResultType.shared_link, search_shared_links x limit db ids)
    ∷ (
      has_any ids && is_wanted types ResultType.whiteboard_comment,
      search_whiteboard_comments x limit db ids,
    )
    ∷ (
      not (is_client role) && is_wanted types ResultType.private_task,
      search_private_tasks x limit db user_id scope,
    )
    ∷ []

-- `Promise.all(jobs)` and `flat`
unfoldable pub settle : List (Bool × List SearchResult) → List SearchResult
settle [] = []
settle ((c, rs) ∷ js) = only_if c rs ++ settle js

unfoldable pub search :
    Matching → Text → UserRole → Option Text → List ResultType → ℕ → Action (List SearchResult)
unfolding resolve_accessible_workspaces settle top
search x user_id role scope types limit = do
  workspaces ← resolve_accessible_workspaces user_id scope
  found ← gets (jobs x user_id role scope types limit (map (λ w. w.id) workspaces))
  pure (top limit (map (set_workspace_name workspaces) (settle found)))

-- ===== src/Teams/Links.antt =====
-- Links shared in a workspace: src/shared-link/shared-link.service.ts.
pub mod Access
use workspacebridge_backend.Base.{
  ℕ, Bool, not, ◌&&◌, Option, none, some, List, [], ◌∷◌, ◌++◌, ◌==◌, reverse, find, select,
  delete_where, pure, gets, or_throw, ◌>>=◌, ◌>>◌, throw_if, modify, forbidden, not_found, internal,
}
use workspacebridge_backend.Store.{Text, SharedLink, Db, Action, Reason, Room, Event, emit}
use workspacebridge_backend.Teams.Workspaces.{is_workspace, ensure_workspace_access}
use workspacebridge_backend.Teams.Tasks.{is_by}

abbrev pub is_shared_link : Text → SharedLink → Bool
is_shared_link id l = l.id == id

unfoldable pub list : Text → Text → Action (List SharedLink)
list workspace_id user_id = do
  ensure_workspace_access workspace_id user_id
  gets (λ db. reverse (select (λ l. l.workspace_id == workspace_id) db.shared_links))

unfoldable pub create : Text → Text → Text → Text → Option Text → Action SharedLink
create id workspace_id user_id url title = do
  ensure_workspace_access workspace_id user_id
  let l : SharedLink = record {
    id = id;
    workspace_id = workspace_id;
    added_by_id = some user_id;
    url = url;
    title = title;
  }
  modify λ db. record db { shared_links = db.shared_links ++ l ∷ [] }
  emit (Room.links_room workspace_id) (Event.link_created id)
  pure l

unfoldable pub remove : Text → Text → Action Unit
remove link_id user_id = do
  links ← gets (λ db. db.shared_links)
  l ← or_throw (find (is_shared_link link_id) links) not_found Reason.link_not_found
  workspaces ← gets (λ db. db.workspaces)
  w ← or_throw (find (is_workspace l.workspace_id) workspaces) internal Reason.record_not_found
  throw_if (not (is_by user_id l.added_by_id) && not (w.owner_id == user_id)) forbidden
      Reason.creator_or_owner_only
  modify λ db. record db { shared_links = delete_where (is_shared_link link_id) db.shared_links }
  emit (Room.links_room l.workspace_id) (Event.link_deleted link_id)

-- ===== src/Teams/Links/Access.antt =====
-- Who lists, adds and deletes the links of a workspace: src/shared-link/shared-link.service.ts.
use workspacebridge_backend.Base.{
  ◌≡◌, false, true, ◌||◌, Option, some, arith, ok, err, forbidden, find, ◌==◌, delete_where, [],
  ◌∷◌, ◌++◌,
}
use workspacebridge_backend.Store.{Text, Workspace, SharedLink, Db, Reason, Room, Event}
use workspacebridge_backend.Teams.Workspaces.{is_workspace, ensure_workspace_access, get_workspace}
use workspacebridge_backend.Teams.Tasks.{is_by}
use workspacebridge_backend.Teams.Tasks.Shared.Access.{IsStranger}
use workspacebridge_backend.Teams.Links.{is_shared_link, list, create, remove}

-- A link is deleted for the one who added it and for the owner of its workspace, and its workspace is
-- told; anyone else is refused. Strangers to the workspace neither list nor add links, and every
-- refusal writes nothing.
pub links_guarded :
    (link_id user_id id url : Text) (title : Option Text) (db : Db) (l : SharedLink) (w : Workspace)
    → find (is_shared_link link_id) db.shared_links ≡ some l
    → find (is_workspace l.workspace_id) db.workspaces ≡ some w
    → ((is_by user_id l.added_by_id || w.owner_id == user_id) ≡ true
        → remove link_id user_id db ≡ (
          ok tt,
          record db {
            shared_links = delete_where (is_shared_link link_id) db.shared_links;
            emitted =
                db.emitted
                ++ record {
                  room = Room.links_room l.workspace_id;
                  event = Event.link_deleted link_id;
                }
                  ∷ [];
          },
        ))
      × ((is_by user_id l.added_by_id || w.owner_id == user_id) ≡ false
          → remove link_id user_id db ≡ (err forbidden Reason.creator_or_owner_only, db))
      × (IsStranger user_id l.workspace_id db w
          → (list l.workspace_id user_id db ≡ (err forbidden Reason.not_member, db))
            × (create id l.workspace_id user_id url title db
                ≡ (err forbidden Reason.not_member, db)))
unfolding list create remove ensure_workspace_access get_workspace
links_guarded link_id user_id id url title db l w f e = (
  (λ may. ground arith),
  (λ may_not. ground arith),
  (λ h. let o = h.not_owner in let m = h.not_member in (ground arith, ground arith)),
)

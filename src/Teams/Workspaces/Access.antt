-- ===== src/Teams/Workspaces/Access.antt =====
-- Who may do what to a workspace, and what goes with it: src/workspace/workspace.service.ts.
use workspacebridge_backend.Base.{
  ◌≡◌, true, false, Option, some, arith, ok, err, forbidden, find, select, count, ◌==◌,
  count-delete_where_self, select-delete_where_other, ◌≢◌, find-delete_where_self,
}
use workspacebridge_backend.Store.{Text, Workspace, Member, File, Message, Invite, Db, Reason}
use workspacebridge_backend.Teams.Workspaces.{
  is_workspace, is_member, is_membership, delete_workspace, update_workspace, remove_workspace,
  remove_member, ensure_workspace_access,
}

-- Who does not own the workspace changes nothing of it: no rename, no deletion, no removal of a member.
pub only_owner_changes :
    (id user_id member_id : Text) (name : Option Text) (db : Db) (w : Workspace)
    → find (is_workspace id) db.workspaces ≡ some w
    → (w.owner_id == user_id) ≡ false
    → (update_workspace id user_id name db ≡ (err forbidden Reason.access_denied, db))
      × (remove_workspace id user_id db ≡ (err forbidden Reason.access_denied, db))
      × (remove_member id member_id user_id db ≡ (err forbidden Reason.access_denied, db))
unfolding update_workspace remove_workspace remove_member
only_owner_changes id user_id member_id name db w f o = (ground arith, ground arith, ground arith)

-- The owner's deletion takes the workspace with its members, invites, files and messages, and
-- leaves the members and the files of any other workspace as they were.
pub remove_workspace_clears :
    (id user_id other : Text) (db : Db) (w : Workspace)
    → find (is_workspace id) db.workspaces ≡ some w
    → (w.owner_id == user_id) ≡ true
    → other ≢ id
    → let out = remove_workspace id user_id db in
      (out.0 ≡ ok tt)
      × (count (is_workspace id) out.1.workspaces ≡ 0)
      × (count (λ m. m.workspace_id == id) out.1.members ≡ 0)
      × (count (λ i. i.workspace_id == id) out.1.invites ≡ 0)
      × (count (λ f. f.workspace_id == id) out.1.files ≡ 0)
      × (count (λ m. m.workspace_id == id) out.1.messages ≡ 0)
      × (select (λ m. m.workspace_id == other) out.1.members
          ≡ select (λ m. m.workspace_id == other) db.members)
      × (select (λ f. f.workspace_id == other) out.1.files
          ≡ select (λ f. f.workspace_id == other) db.files)
unfolding remove_workspace delete_workspace
remove_workspace_clears id user_id other db w f o ne = (
  ground arith,
  ground (arith, count-delete_where_self (is_workspace id) db.workspaces),
  ground (arith, count-delete_where_self (λ (m : Member). m.workspace_id == id) db.members),
  ground (arith, count-delete_where_self (λ (i : Invite). i.workspace_id == id) db.invites),
  ground (arith, count-delete_where_self (λ (f : File). f.workspace_id == id) db.files),
  ground (arith, count-delete_where_self (λ (m : Message). m.workspace_id == id) db.messages),
  ground (
    arith,
    select-delete_where_other (λ (m : Member). m.workspace_id == other) (λ m. m.workspace_id == id)
        db.members (λ x e. ground arith),
  ),
  ground (
    arith,
    select-delete_where_other (λ (f : File). f.workspace_id == other) (λ f. f.workspace_id == id)
        db.files (λ x e. ground arith),
  ),
)

-- A member whom the owner has removed, and who does not own the workspace, is refused by the
-- access check from then on.
pub removed_member_has_no_access :
    (id member_id owner_id : Text) (db : Db) (w : Workspace)
    → find (is_workspace id) db.workspaces ≡ some w
    → (w.owner_id == owner_id) ≡ true
    → is_member id member_id db ≡ true
    → (w.owner_id == member_id) ≡ false
    → let out = remove_member id member_id owner_id db in
      (out.0 ≡ ok tt)
      × (ensure_workspace_access id member_id out.1 ≡ (err forbidden Reason.not_member, out.1))
unfolding remove_member ensure_workspace_access
removed_member_has_no_access id member_id owner_id db w f o m stranger =
    ground (arith, find-delete_where_self (is_membership id member_id) db.members)

-- ===== src/Tests/Teams.antt =====
-- Workspaces, tasks and invites at concrete inputs.
use workspacebridge_backend.Base.{
  ◌≡◌, refl, none, some, [], ◌∷◌, arith, ok, find, count, select, ◌==◌,
}
use workspacebridge_backend.Store.{
  TaskStatus, Member, MemberRole, Workspace, PrivateTask, Invite, Db,
}
use workspacebridge_backend.Auth.Login.{has_email}
use workspacebridge_backend.Teams.Workspaces.{
  is_workspace, remove_workspace, ensure_workspace_access,
}
use workspacebridge_backend.Teams.Workspaces.Access.{remove_workspace_clears}
use workspacebridge_backend.Teams.Tasks.{TaskChange}
use workspacebridge_backend.Teams.Tasks.Private
use workspacebridge_backend.Teams.Tasks.Private.Isolation.{tasks_of, others_keep_private_tasks}
use workspacebridge_backend.Teams.Invites.{
  has_invite_token, Acceptance, Draws, use_row, client_user, accept_invite,
}
use workspacebridge_backend.Teams.Invites.Joining.{CanJoin, accept_invite_joins}
use workspacebridge_backend.Tests.Fixtures.{deps, world, office, laptop, nonce}

abbrev ben_in : Member
ben_in = record { workspace_id = 30; user_id = 2; role = MemberRole.client }

abbrev shop : Workspace
shop = record { id = 40; name = 41; owner_id = 2 }

abbrev team_world : Db
team_world = record world { workspaces = office ∷ shop ∷ []; members = ben_in ∷ [] }

remove_workspace_clears_example :
    let out = remove_workspace 30 1 team_world in
    (out.0 ≡ ok tt)
    × (count (is_workspace 30) out.1.workspaces ≡ 0)
    × (count (λ m. m.workspace_id == 30) out.1.members ≡ 0)
    × (count (λ i. i.workspace_id == 30) out.1.invites ≡ 0)
    × (count (λ f. f.workspace_id == 30) out.1.files ≡ 0)
    × (count (λ m. m.workspace_id == 30) out.1.messages ≡ 0)
    × (select (λ m. m.workspace_id == 40) out.1.members
        ≡ select (λ m. m.workspace_id == 40) team_world.members)
    × (select (λ f. f.workspace_id == 40) out.1.files
        ≡ select (λ f. f.workspace_id == 40) team_world.files)
remove_workspace_clears_example =
    remove_workspace_clears 30 1 40 team_world office (unfold find in refl) refl
      (λ e. omega (arith, e))

abbrev finish : TaskChange
finish = record { title = none; status = some TaskStatus.done }

abbrev private_task : PrivateTask
private_task = record {
  id = 60;
  user_id = 1;
  workspace_id = some 30;
  title = 61;
  status = TaskStatus.todo;
}

abbrev own_world : Db
own_world = record world { private_tasks = private_task ∷ [] }

others_keep_private_tasks_example :
    (tasks_of 1 (Private.create 30 2 60 63 own_world).1 ≡ tasks_of 1 own_world)
    × (tasks_of 1 (Private.update 60 2 finish own_world).1 ≡ tasks_of 1 own_world)
    × (tasks_of 1 (Private.remove 60 2 own_world).1 ≡ tasks_of 1 own_world)
others_keep_private_tasks_example =
    others_keep_private_tasks 1 2 60 30 63 finish own_world (λ e. omega (arith, e))
      (unfold find in (refl, tt))

abbrev invite : Invite
invite = record {
  token = 80;
  email = some 15;
  workspace_id = 30;
  expires_at = 9000;
  used_at = none;
}

abbrev invite_world : Db
invite_world = record world { invites = invite ∷ [] }

abbrev acceptance : Acceptance
acceptance = record { email = none; password = 50; client = laptop }

abbrev draws : Draws
draws = record { user_id = 3; salt = 1; session = nonce }

abbrev can_join : CanJoin deps 604800 80 acceptance 1000 invite_world invite 15
can_join = record {
  stored = unfold find in refl;
  unused = refl;
  unexpired = refl;
  address = refl;
  has_address = refl;
  free = unfold find in refl;
  unbreached = refl;
}

accept_invite_joins_example :
    let out = accept_invite deps 604800 80 acceptance draws 1000 invite_world in
    (find (has_email 15) out.1.users ≡ some (client_user deps 604800 3 15 50 1))
    × (ensure_workspace_access 30 3 out.1 ≡ (ok office, out.1))
    × (find (has_invite_token 80) out.1.invites ≡ some (use_row 1000 invite))
accept_invite_joins_example =
    accept_invite_joins deps 604800 80 acceptance draws 1000 invite_world invite 15 office can_join
      (unfold find in refl)

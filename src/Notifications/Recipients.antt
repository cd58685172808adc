-- ===== src/Notifications/Recipients.antt =====
-- Who is told: resolveRecipients of src/notification/notification.service.ts.
use workspacebridge_backend.Base.{
  ◌≡◌, refl, Bool, true, false, not, ◌&&◌, ◌||◌, some, List, [], ◌∷◌, arith, inl, inr, ◌==◌,
  is_some, find, delete_where, elem, Option-cases, Bool-cases, find-fits,
}
use workspacebridge_backend.Store.{Text, User, Workspace, Member, Db}
use workspacebridge_backend.Auth.Login.{is_user}
use workspacebridge_backend.Teams.Workspaces.{is_workspace, is_membership, is_member}
use workspacebridge_backend.Notifications.{
  Recipient, is_recipient, set_recipient, add_members, owner_entry, resolve_recipients, without,
}

abbrev pub tells : Text → List Recipient → Bool
tells v rs = is_some (find (is_recipient v) rs)

tells-set_recipient :
    (v : Text) (r : Recipient) (rs : List Recipient)
    → tells v (set_recipient r rs) ≡ (r.user_id == v || tells v rs)
unfolding find set_recipient
tells-set_recipient v r [] = ground arith
tells-set_recipient v r (x ∷ xs) = ground (arith, tells-set_recipient v r xs)

-- The foreign key: every member is a user.
abbrev pub MembersExist : List User → List Member → Type 0
MembersExist users [] = Unit
MembersExist users (m ∷ ms) =
    (is_some (find (is_user m.user_id) users) ≡ true) × MembersExist users ms

tells-add_members :
    (w v : Text) (users : List User) (ms : List Member) (rs : List Recipient)
    → MembersExist users ms
    → tells v (add_members w users ms rs) ≡ (tells v rs || is_some (find (is_membership w v) ms))
unfolding find add_members
tells-add_members w v users [] rs h = ground arith
tells-add_members w v users (m ∷ ms) rs h = elim (Option-cases (find (is_user m.user_id) users)) [
  | inl gone ↦ ground (arith, h.0)
  | inr (u, e) ↦ ground (
    arith,
    find-fits (is_user m.user_id) users u e,
    tells-add_members w v users ms rs h.1,
    tells-add_members w v users ms
        (set_recipient (record { user_id = u.id; email = u.email; role = m.role }) rs) h.1,
    tells-set_recipient v (record { user_id = u.id; email = u.email; role = m.role }) rs,
  )
]

pub tells-delete :
    (v k : Text) (rs : List Recipient)
    → tells v (delete_where (is_recipient k) rs) ≡ (tells v rs && not (v == k))
unfolding find delete_where
tells-delete v k [] = refl
tells-delete v k (r ∷ rs) = ground (arith, tells-delete v k rs)

pub tells-without :
    (v : Text) (ks : List Text) (rs : List Recipient)
    → tells v (without ks rs) ≡ (tells v rs && not (elem v ks))
unfolding without elem
tells-without v [] rs = ground arith
tells-without v (k ∷ ks) rs =
    ground (arith, tells-without v ks (delete_where (is_recipient k) rs), tells-delete v k rs)

-- The recipients are the owner and the members, without the one who acted.
pub resolved_tells :
    (w v x : Text) (db : Db) (ws : Workspace) (u : User) (rs : List Recipient)
    → find (is_workspace w) db.workspaces ≡ some ws
    → find (is_user ws.owner_id) db.users ≡ some u
    → MembersExist db.users db.members
    → resolve_recipients w x db ≡ some rs
    → tells v rs ≡ ((ws.owner_id == v || is_member w v db) && not (v == x))
unfolding resolve_recipients find
resolved_tells w v x db ws u rs e o h r = ground (
  arith,
  find-fits (is_user ws.owner_id) db.users u o,
  tells-add_members w v db.users db.members (owner_entry u) h,
  tells-delete v x (add_members w db.users db.members (owner_entry u)),
)

-- No one is told twice.
abbrev pub AreDistinct : List Recipient → Type 0
AreDistinct [] = Unit
AreDistinct (r ∷ rs) = (tells r.user_id rs ≡ false) × AreDistinct rs

set_recipient-AreDistinct :
    (r : Recipient) (rs : List Recipient) → AreDistinct rs → AreDistinct (set_recipient r rs)
unfolding find set_recipient
set_recipient-AreDistinct r [] h = (refl, tt)
set_recipient-AreDistinct r (x ∷ xs) h =
    ground (arith, tells-set_recipient x.user_id r xs, set_recipient-AreDistinct r xs h.1)

add_members-AreDistinct :
    (w : Text) (users : List User) (ms : List Member) (rs : List Recipient)
    → AreDistinct rs
    → AreDistinct (add_members w users ms rs)
unfolding add_members
add_members-AreDistinct w users [] rs h = h
add_members-AreDistinct w users (m ∷ ms) rs h =
    add_members-AreDistinct w users ms _ (elim (Bool-cases (m.workspace_id == w)) [
      | inl here ↦ elim (Option-cases (find (is_user m.user_id) users)) [
        | inl gone ↦ rw (here, gone) h
        | inr (u, e) ↦
            rw (here, e)
              (set_recipient-AreDistinct (record { user_id = u.id; email = u.email; role = m.role })
                rs h)
      ]
      | inr there ↦ rw there h
    ])

pub delete-AreDistinct :
    (k : Text) (rs : List Recipient)
    → AreDistinct rs
    → AreDistinct (delete_where (is_recipient k) rs)
unfolding delete_where
delete-AreDistinct k [] h = tt
delete-AreDistinct k (r ∷ rs) h =
    ground (arith, tells-delete r.user_id k rs, delete-AreDistinct k rs h.1)

pub without-AreDistinct :
    (ks : List Text) (rs : List Recipient) → AreDistinct rs → AreDistinct (without ks rs)
unfolding without
without-AreDistinct [] rs h = h
without-AreDistinct (k ∷ ks) rs h =
    without-AreDistinct ks (delete_where (is_recipient k) rs) (delete-AreDistinct k rs h)

pub resolved-AreDistinct :
    (w x : Text) (db : Db) (ws : Workspace) (u : User)
    → find (is_workspace w) db.workspaces ≡ some ws
    → find (is_user ws.owner_id) db.users ≡ some u
    → (rs : List Recipient) × (resolve_recipients w x db ≡ some rs) × AreDistinct rs
unfolding resolve_recipients find
resolved-AreDistinct w x db ws u e o = (
  delete_where (is_recipient x) (add_members w db.users db.members (owner_entry u)),
  ground arith,
  delete-AreDistinct x _ (add_members-AreDistinct w db.users db.members (owner_entry u) (refl, tt)),
)

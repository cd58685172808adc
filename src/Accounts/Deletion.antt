-- ===== src/Accounts/Deletion.antt =====
-- What is left of an account that its user deletes: deleteOwnAccount of src/user/user.service.ts.
use workspacebridge_backend.Base.{
  select-delete_where_other, ◌≡◌, refl, ap, ◌∙◌, sym, subst, Bool, true, false, not, ◌&&◌, Option,
  none, some, List, [], ◌∷◌, map, arith, inl, inr, ok, err, unauthorized, ◌==◌, truthy, or_else,
  find, select, count, update_where, delete_where, elem, All, Bool-cases, ==_iff, ==_self,
  find-fits, count-delete_where_self, find-delete_where_self,
}
use workspacebridge_backend.Store.{
  Text, User, Session, Account, Token, Workspace, Member, Message, Notification, PrivateTask, File,
  Deps, Db, Reason, AuditAction, write_audit_log,
}
use workspacebridge_backend.Auth.Login.{is_user}
use workspacebridge_backend.Teams.Workspaces.{delete_workspace}
use workspacebridge_backend.Teams.Tasks.{is_by}
use workspacebridge_backend.Accounts.{
  delete_workspaces, delete_user, erase_account, delete_own_account, is_owned_by, forget_uploader,
}

ids_of : List Workspace → List Text
ids_of ws = map (λ w. w.id) ws

delete_where-elem_nil :
    {A : Type 0} (key : A → Text) (xs : List A) → delete_where (λ x. elem (key x) []) xs ≡ xs
unfolding delete_where elem
delete_where-elem_nil key [] = refl
delete_where-elem_nil key (x ∷ xs) = ap (◌∷◌ x) (delete_where-elem_nil key xs)

delete_where-elem_cons :
    {A : Type 0} (key : A → Text) (k : Text) (ks : List Text) (xs : List A)
    → delete_where (λ x. elem (key x) ks) (delete_where (λ x. key x == k) xs)
      ≡ delete_where (λ x. elem (key x) (k ∷ ks)) xs
unfolding delete_where elem
delete_where-elem_cons key k ks [] = refl
delete_where-elem_cons key k ks (x ∷ xs) = ground (arith, delete_where-elem_cons key k ks xs)

-- The deletion of workspaces one after the other, on the tables that the theorem is about.
delete_workspaces_lem :
    (ws : List Workspace) (db : Db)
    → let out = delete_workspaces ws db in
      (out.workspaces ≡ delete_where (λ w. elem w.id (ids_of ws)) db.workspaces)
      × (out.files ≡ delete_where (λ f. elem f.workspace_id (ids_of ws)) db.files)
      × (out.sessions ≡ db.sessions)
      × (out.accounts ≡ db.accounts)
      × (out.users ≡ db.users)
      × (out.tokens ≡ db.tokens)
      × (out.objects ≡ db.objects)
unfolding delete_workspaces delete_workspace ids_of
delete_workspaces_lem [] db = (
  sym (delete_where-elem_nil (λ (w : Workspace). w.id) db.workspaces),
  sym (delete_where-elem_nil (λ (f : File). f.workspace_id) db.files),
  refl,
  refl,
  refl,
  refl,
  refl,
)
delete_workspaces_lem (w ∷ ws) db =
    let h = delete_workspaces_lem ws (delete_workspace w.id db) in
    (
      h.0 ∙ delete_where-elem_cons (λ (x : Workspace). x.id) w.id (ids_of ws) db.workspaces,
      h.1 ∙ delete_where-elem_cons (λ (x : File). x.workspace_id) w.id (ids_of ws) db.files,
      h.2,
      h.3,
      h.4,
      h.5,
      h.6,
    )

-- The keys of the selected rows cover every selected row, in a longer list too.
Covered : (Workspace → Bool) → List Text → List Workspace → Type 0
Covered p ks ws = All (λ w. p w ≡ true → elem w.id ks ≡ true) ws

Covered-cons :
    (p : Workspace → Bool) (k : Text) (ks : List Text) (ws : List Workspace)
    → Covered p ks ws
    → Covered p (k ∷ ks) ws
unfolding Covered elem
Covered-cons p k ks [] h = tt
Covered-cons p k ks (w ∷ ws) h = ((λ e. ground (arith, h.0 e)), Covered-cons p k ks ws h.1)

select-Covered : (p : Workspace → Bool) (ws : List Workspace) → Covered p (ids_of (select p ws)) ws
unfolding Covered select ids_of elem
select-Covered p [] = tt
select-Covered p (w ∷ ws) = elim (Bool-cases (p w)) [
  | inl fits ↦
      let chosen : w ∷ select p ws ≡ select p (w ∷ ws) = ground arith in
      (
        (λ e. ground (arith, ==_self w.id)),
        subst (λ l. Covered p (ids_of l) ws) chosen
            (Covered-cons p w.id (ids_of (select p ws)) ws (select-Covered p ws)),
      )
  | inr unfit ↦
      let passed : select p ws ≡ select p (w ∷ ws) = ground arith in
      ((λ e. ground arith), subst (λ l. Covered p (ids_of l) ws) passed (select-Covered p ws))
]

none_left :
    (p : Workspace → Bool) (ks : List Text) (ws : List Workspace)
    → Covered p ks ws
    → count p (delete_where (λ w. elem w.id ks) ws) ≡ 0
unfolding Covered count delete_where
none_left p ks [] h = refl
none_left p ks (w ∷ ws) h = elim (Bool-cases (p w)) [
  | inl fits ↦ ground (arith, h.0 fits, none_left p ks ws h.1)
  | inr unfit ↦ ground (arith, none_left p ks ws h.1)
]

count-update_keeps :
    (p q : File → Bool) (fs : List File)
    → ((f : File) → p (forget_uploader f) ≡ p f)
    → count p (update_where q forget_uploader fs) ≡ count p fs
unfolding count update_where
count-update_keeps p q [] h = refl
count-update_keeps p q (f ∷ fs) h = ground (arith, h f, count-update_keeps p q fs h)

none_uploaded :
    (u : Text) (fs : List File)
    → count
        (λ f. is_by u f.uploaded_by_id)
        (update_where (λ f. is_by u f.uploaded_by_id) forget_uploader fs)
      ≡ 0
unfolding count update_where
none_uploaded u [] = refl
none_uploaded u (f ∷ fs) = ground (arith, none_uploaded u fs)

module _ (u : User) (db : Db) where
  -- What is gone of the user, and what stays.
  pub record IsErased (db' : Db) : Type 0 where
    pub no_user : find (is_user u.id) db'.users ≡ none
    pub no_sessions : count (λ s. s.user_id == u.id) db'.sessions ≡ 0
    pub no_accounts : count (λ a. a.user_id == u.id) db'.accounts ≡ 0
    pub no_workspaces : count (is_owned_by u.id) db'.workspaces ≡ 0
    pub no_tokens : count (λ t. t.email == u.email) db'.tokens ≡ 0
    pub other_tokens_stay :
        select (λ t. not (t.email == u.email)) db'.tokens
        ≡ select (λ t. not (t.email == u.email)) db.tokens
    pub no_memberships : count (λ m. m.user_id == u.id) db'.members ≡ 0
    pub no_messages : count (λ m. m.sender_id == u.id) db'.messages ≡ 0
    pub no_private_tasks : count (λ t. t.user_id == u.id) db'.private_tasks ≡ 0
    pub no_notifications : count (λ n. n.user_id == u.id) db'.notifications ≡ 0
    pub no_uploader : count (λ f. is_by u.id f.uploaded_by_id) db'.files ≡ 0
    pub objects_stay : db'.objects ≡ db.objects

  erase_account-IsErased : IsErased (erase_account u db)
  unfolding erase_account delete_user
  erase_account-IsErased =
      let cleared = record db {
        sessions = delete_where (λ s. s.user_id == u.id) db.sessions;
        accounts = delete_where (λ a. a.user_id == u.id) db.accounts;
      } in
      let owned = select (is_owned_by u.id) db.workspaces in
      let left = delete_workspaces owned cleared in
      let h = delete_workspaces_lem owned cleared in
      record {
        no_user = find-delete_where_self (is_user u.id) left.users;
        no_sessions =
            ap (count (λ (s : Session). s.user_id == u.id)) h.2
            ∙ count-delete_where_self (λ (s : Session). s.user_id == u.id) db.sessions;
        no_accounts =
            ap (count (λ (a : Account). a.user_id == u.id)) h.3
            ∙ count-delete_where_self (λ (a : Account). a.user_id == u.id) db.accounts;
        no_workspaces =
            ap (count (is_owned_by u.id)) h.0
            ∙ none_left (is_owned_by u.id) (ids_of owned) db.workspaces
                (select-Covered (is_owned_by u.id) db.workspaces);
        no_tokens = count-delete_where_self (λ (t : Token). t.email == u.email) left.tokens;
        other_tokens_stay =
            select-delete_where_other (λ (t : Token). not (t.email == u.email))
              (λ t. t.email == u.email) left.tokens (λ t e. ground arith)
            ∙ ap (select (λ (t : Token). not (t.email == u.email))) h.5;
        no_memberships = count-delete_where_self (λ (m : Member). m.user_id == u.id) left.members;
        no_messages = count-delete_where_self (λ (m : Message). m.sender_id == u.id) left.messages;
        no_private_tasks =
            count-delete_where_self (λ (t : PrivateTask). t.user_id == u.id) left.private_tasks;
        no_notifications =
            count-delete_where_self (λ (n : Notification). n.user_id == u.id) left.notifications;
        no_uploader = none_uploaded u.id left.files;
        objects_stay = h.6;
      }

logged-IsErased :
    (u : User) (db db' : Db)
    → IsErased u db db'
    → IsErased u db (write_audit_log AuditAction.account_deleted u.id none db').1
logged-IsErased u db db' h = record {
  no_user = h.no_user;
  no_sessions = h.no_sessions;
  no_accounts = h.no_accounts;
  no_workspaces = h.no_workspaces;
  no_tokens = h.no_tokens;
  other_tokens_stay = h.other_tokens_stay;
  no_memberships = h.no_memberships;
  no_messages = h.no_messages;
  no_private_tasks = h.no_private_tasks;
  no_notifications = h.no_notifications;
  no_uploader = h.no_uploader;
  objects_stay = h.objects_stay;
}

delete_own_account_lem :
    (d : Deps) (user_id : Text) (password : Option Text) (db : Db) (u : User)
    → find (is_user user_id) db.users ≡ some u
    → (truthy u.password && not (truthy password)) ≡ false
    → (truthy u.password && not (d.argon2_verify (or_else u.password 0) (or_else password 0)))
      ≡ false
    → delete_own_account d user_id password db ≡ (
      ok u.email,
      (write_audit_log AuditAction.account_deleted user_id none (erase_account u db)).1,
    )
unfolding delete_own_account
delete_own_account_lem d user_id password db u e given right = rw (e, given, right) refl

-- The deletion of an account, once its password is given or none is set, leaves no user, session, sign-in
-- account, owned workspace, membership, message, private task, notification or uploader that is theirs, and
-- no token for their address. Tokens for other addresses stay, also one that would change their address,
-- and so do the stored bytes of their files.
pub account_deleted :
    (d : Deps) (user_id : Text) (password : Option Text) (db : Db) (u : User)
    → find (is_user user_id) db.users ≡ some u
    → (truthy u.password && not (truthy password)) ≡ false
    → (truthy u.password && not (d.argon2_verify (or_else u.password 0) (or_else password 0)))
      ≡ false
    → let out = delete_own_account d user_id password db in
      (out.0 ≡ ok u.email) × IsErased u db out.1
account_deleted d user_id password db u e given right =
    let same : u.id ≡ user_id =
      (==_iff u.id user_id).0 (find-fits (is_user user_id) db.users u e) in
    rw (delete_own_account_lem d user_id password db u e given right) (
      refl,
      subst
          (λ k.
            IsErased u db
              (write_audit_log AuditAction.account_deleted k none (erase_account u db)).1)
          same (logged-IsErased u db (erase_account u db) (erase_account-IsErased u db)),
    )

-- A wrong password is refused and nothing is written.
pub wrong_password_keeps :
    (d : Deps) (user_id : Text) (password : Option Text) (db : Db) (u : User)
    → find (is_user user_id) db.users ≡ some u
    → truthy u.password ≡ true
    → truthy password ≡ true
    → d.argon2_verify (or_else u.password 0) (or_else password 0) ≡ false
    → delete_own_account d user_id password db ≡ (err unauthorized Reason.invalid_password, db)
unfolding delete_own_account
wrong_password_keeps d user_id password db u e set given wrong = ground arith

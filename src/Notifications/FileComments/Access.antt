-- ===== src/Notifications/FileComments/Access.antt =====
-- Who comments on a file and who is told: src/file/file-comment.service.ts.
use workspacebridge_backend.Base.{
  ℕ, ◌+◌, ◌≡◌, ap, ◌∙◌, refl, false, true, not, ◌&&◌, ◌||◌, some, arith, ok, err, forbidden,
  not_found, find, ◌==◌, if◌then◌else◌, Bool, delete_where, List, [], ◌∷◌, ◌++◌,
}
use workspacebridge_backend.Store.{
  Text, User, Workspace, File, FileComment, NotificationType, Db, Reason, Room, Event,
}
use workspacebridge_backend.Auth.Login.{is_user}
use workspacebridge_backend.Teams.Workspaces.{is_workspace, is_member}
use workspacebridge_backend.Teams.Tasks.{is_by}
use workspacebridge_backend.Files.Names.{is_empty}
use workspacebridge_backend.Files.{is_file, is_live, owner_of_workspace}
use workspacebridge_backend.Presence.{Registry}
use workspacebridge_backend.Notifications.{
  Recipient, Notice, trim, truncate, preview_max_length, notify_file_comment, dispatch,
  resolve_recipients, unread_count,
}
use workspacebridge_backend.Notifications.Recipients.{
  MembersExist, resolved_tells, resolved-AreDistinct,
}
use workspacebridge_backend.Notifications.Delivery.{dispatch_told}
use workspacebridge_backend.Notifications.FileComments.{
  is_comment, ensure_file_access, list, create, delete, file_of,
}

-- A comment is deleted for its author and for the owner of the workspace of its file, and the files
-- room is told; anyone else is refused and nothing is written.
pub comment_deleted_by :
    (comment_id user_id : Text) (db : Db) (c : FileComment) (f : File) (w : Workspace)
    → find (is_comment comment_id) db.file_comments ≡ some c
    → find (is_file c.file_id) db.files ≡ some f
    → find (is_workspace f.workspace_id) db.workspaces ≡ some w
    → ((is_by user_id c.author_id || w.owner_id == user_id) ≡ true
        → delete comment_id user_id db ≡ (
          ok tt,
          record db {
            file_comments = delete_where (is_comment comment_id) db.file_comments;
            emitted =
                db.emitted
                ++ record {
                  room = Room.files_room f.workspace_id;
                  event = Event.comment_deleted comment_id;
                }
                  ∷ [];
          },
        ))
      × ((is_by user_id c.author_id || w.owner_id == user_id) ≡ false
          → delete comment_id user_id db ≡ (err forbidden Reason.author_or_owner_only, db))
unfolding delete file_of owner_of_workspace
comment_deleted_by comment_id user_id db c f w e g h =
    ((λ may. ground arith), (λ may_not. ground arith))

-- A file in the trash takes no comment and shows none, and an outsider to its workspace is refused.
pub comments_refused :
    (ids : Text → Text) (online : Registry) (id file_id user_id : Text) (text : List ℕ) (db : Db)
    (f : File) (w : Workspace)
    → find (is_file file_id) db.files ≡ some f
    → find (is_workspace f.workspace_id) db.workspaces ≡ some w
    → (is_live f ≡ false
        → (list file_id user_id db ≡ (err not_found Reason.file_not_found, db))
          × (create ids online id file_id user_id text db
              ≡ (err not_found Reason.file_not_found, db)))
      × (is_live f ≡ true
          → (w.owner_id == user_id || is_member f.workspace_id user_id db) ≡ false
          → (list file_id user_id db ≡ (err forbidden Reason.not_member, db))
            × (create ids online id file_id user_id text db
                ≡ (err forbidden Reason.not_member, db)))
unfolding list create ensure_file_access owner_of_workspace
comments_refused ids online id file_id user_id text db f w e g =
    ((λ dead. (ground arith, ground arith)), (λ live out. (ground arith, ground arith)))

module _ (ids : Text → Text) (online : Registry) (id file_id user_id : Text) (text : List ℕ)
    (db : Db) (f : File) (w : Workspace) where
  -- The file is live and the user may see it.
  pub record MayComment : Type 0 where
    pub file : find (is_file file_id) db.files ≡ some f
    pub live : is_live f ≡ true
    pub workspace : find (is_workspace f.workspace_id) db.workspaces ≡ some w
    pub inside : (w.owner_id == user_id || is_member f.workspace_id user_id db) ≡ true

  abbrev commented : Db
  commented = record db {
    file_comments =
        db.file_comments
        ++ record { id = id; file_id = file_id; author_id = some user_id; body = trim text } ∷ [];
    emitted =
        db.emitted
        ++ record { room = Room.files_room f.workspace_id; event = Event.comment_created id } ∷ [];
  }

  create_lem :
      MayComment
      → is_empty (trim text) ≡ false
      → create ids online id file_id user_id text db ≡ (
        ok (record { id = id; file_id = file_id; author_id = some user_id; body = trim text }),
        (notify_file_comment ids online file_id user_id (trim text) commented).1,
      )
  unfolding create ensure_file_access owner_of_workspace
  create_lem h n =
      let a = h.file in let b = h.live in let c = h.workspace in let d = h.inside in ground arith

  abbrev comment_notice : Notice
  comment_notice = record {
    workspace_id = f.workspace_id;
    type = NotificationType.file_comment;
    actor_id = user_id;
    preview = truncate (trim text) preview_max_length;
  }

  notify_file_comment_lem :
      (rs : List Recipient)
      → find (is_file file_id) db.files ≡ some f
      → resolve_recipients f.workspace_id user_id commented ≡ some rs
      → notify_file_comment ids online file_id user_id (trim text) commented
        ≡ dispatch ids online comment_notice rs commented
  unfolding notify_file_comment
  notify_file_comment_lem rs e r = ground arith

  -- A comment that is not blank is stored for an owner or member, and adds one unread notification for
  -- the owner and each member of the workspace, but none for the commenter and for anyone else.
  pub comment_told :
      (v : Text) (u : User)
      → MayComment
      → is_empty (trim text) ≡ false
      → find (is_user w.owner_id) db.users ≡ some u
      → MembersExist db.users db.members
      → let out = create ids online id file_id user_id text db in
        (out.0
          ≡ ok (record { id = id; file_id = file_id; author_id = some user_id; body = trim text }))
        × (unread_count v out.1
            ≡ unread_count v db
              + (if (w.owner_id == v || is_member f.workspace_id v db) && not (v == user_id)
                  then 1
                  else 0))
  unfolding unread_count
  comment_told v u h n o m =
      let (rs, resolved, distinct) =
        resolved-AreDistinct f.workspace_id user_id commented w u h.workspace o in
      rw (create_lem h n, notify_file_comment_lem rs h.file resolved)
        (
          refl,
          dispatch_told ids online comment_notice v rs commented distinct
              ∙ ap (λ (b : Bool). unread_count v db + (if b then 1 else 0))
                  (resolved_tells f.workspace_id v user_id commented w u rs h.workspace o m
                    resolved),
        )

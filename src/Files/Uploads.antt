-- ===== src/Files/Uploads.antt =====
-- What an upload has passed when its bytes are stored: upload of src/file/file.service.ts.
use workspacebridge_backend.Base.{
  ◌+◌, ◌≤◌, ◌≡◌, Bool, true, false, not, ◌&&◌, some, arith, ◌⊎◌, inl, inr, bad_request, ok, err,
  ◌==◌, find, elem, Option-cases, Bool-cases, take,
}
use workspacebridge_backend.Store.{Text, Time, User, Workspace, Db, Reason}
use workspacebridge_backend.Auth.Login.{is_user}
use workspacebridge_backend.Teams.Workspaces.{
  is_workspace, is_member, ensure_workspace_access, get_workspace,
}
use workspacebridge_backend.Files.{
  null_byte_sample_size, Upload, Formats, Pending, start_upload, verify_mime_type, file_size_limit,
  storage_limit, usage,
}
use workspacebridge_backend.Files.Names.{sanitize_filename}

module _ (x : Formats) where
  -- The look at the contents answers or refuses, and writes nothing.
  verify_mime_type-cases :
      (f : Upload) (ext : Text) (db : Db)
      → ((m : Text) × (verify_mime_type x f ext db ≡ (ok m, db)))
        ⊎ ((r : Reason) × (verify_mime_type x f ext db ≡ (err bad_request r, db)))
  unfolding verify_mime_type
  verify_mime_type-cases f ext db = elim (Option-cases (x.detect_file_type f.buffer)) [
    | inr (mime, known) ↦ elim (Bool-cases (elem mime x.allowed_mime_types)) [
      | inl good ↦ inl (mime, ground arith)
      | inr bad ↦ inr (Reason.mime_not_allowed, ground arith)
    ]
    | inl unknown ↦ elim (Bool-cases (elem ext x.text_based_extensions)) [
      | inr bad ↦ inr (Reason.unknown_content, ground arith)
      | inl text ↦ elim (Bool-cases (elem f.mime_type x.text_based_mime_types)) [
        | inr bad ↦ inr (Reason.mime_not_allowed, ground arith)
        | inl typed ↦ elim (Bool-cases (elem 0 (take null_byte_sample_size f.buffer))) [
          | inl binary ↦ inr (Reason.binary_content, ground arith)
          | inr clean ↦ inl (f.mime_type, ground arith)
        ]
      ]
    ]
  ]

  -- The checks that stand before the storage.
  pub record IsChecked (workspace_id user_id : Text) (f : Upload) (now : Time) (db : Db)
      (p : Pending) : Type 0 where
    pub workspace : Workspace
    pub owner : User
    pub exists : find (is_workspace workspace_id) db.workspaces ≡ some workspace
    pub access :
        (not (workspace.owner_id == user_id) && not (is_member workspace_id user_id db)) ≡ false
    pub owned : find (is_user workspace.owner_id) db.users ≡ some owner
    pub named : sanitize_filename x.extname f.original_name ≡ some p.name
    pub extension : elem (x.to_lower_case (x.extname p.name)) x.allowed_extensions ≡ true
    pub small : f.size ≤ file_size_limit owner.plan
    pub room : usage now workspace_id db.files + f.size ≤ storage_limit owner.plan
    pub limit : p.limit ≡ storage_limit owner.plan
    pub same_size : p.size ≡ f.size

  -- An upload whose bytes are stored came from the owner or a member, has a clean name with an allowed
  -- extension, and is within the two limits of the owner's plan.
  pub start_upload-IsChecked :
      (workspace_id user_id file_id : Text) (f : Upload) (stored : Bool) (now : Time) (db db' : Db)
      (p : Pending)
      → start_upload x workspace_id user_id (some f) file_id stored now db ≡ (ok p, db')
      → IsChecked workspace_id user_id f now db p
  unfolding start_upload ensure_workspace_access get_workspace
  start_upload-IsChecked workspace_id user_id file_id f stored now db db' p e =
      elim (Option-cases (find (is_workspace workspace_id) db.workspaces)) [
        | inl gone ↦ ground arith
        | inr (w, g) ↦ elim (Option-cases (find (is_user w.owner_id) db.users)) [
          | inl gone ↦ ground arith
          | inr (u, h) ↦ elim (Option-cases (sanitize_filename x.extname f.original_name)) [
            | inl nameless ↦ ground arith
            | inr (name, k) ↦
                let ext = x.to_lower_case (x.extname name) in
                elim (verify_mime_type-cases f ext db) [
                  | inr (r, refused) ↦ ground arith
                  | inl (mime, m) ↦ record {
                    workspace = w;
                    owner = u;
                    exists = g;
                    access = ground arith;
                    owned = h;
                    named = ground arith;
                    extension = ground arith;
                    small = ground arith;
                    room = ground arith;
                    limit = ground arith;
                    same_size = ground arith;
                  }
                ]
          ]
        ]
      ]

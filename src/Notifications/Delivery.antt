-- ===== src/Notifications/Delivery.antt =====
-- What is sent: dispatch and truncate of src/notification/notification.service.ts.
use mathlib.Core.List.{append_assoc, append-nil}
use workspacebridge_backend.Base.{
  Option-cases, inl, inr, ℕ, ◌+◌, ◌-◌, ◌≤◌, ◌≡◌, refl, ap, ◌∙◌, Bool, false, not, ◌&&◌, ◌||◌,
  ==_iff, subst, none, some, List, [], ◌∷◌, ◌++◌, arith, ok, inl, inr, ◌==◌, if◌then◌else◌, length,
  take, find, count, elem, map, Bool-cases, length-append, length-take, count-append,
}
use workspacebridge_backend.Store.{
  Text, User, Workspace, NotificationType, Db, Mail, Emission, Room, Event,
}
use workspacebridge_backend.Auth.Login.{is_user}
use workspacebridge_backend.Teams.Workspaces.{is_workspace, is_member}
use workspacebridge_backend.Presence.{Registry, is_online}
use workspacebridge_backend.Notifications.{
  Recipient, Notice, is_unread, unread_count, ellipsis, notification_row, dispatch,
  notify_new_message, resolve_recipients, without, truncate, trim, preview_max_length,
}
use workspacebridge_backend.Notifications.Recipients.{
  tells, AreDistinct, MembersExist, resolved_tells, resolved-AreDistinct, tells-without,
  without-AreDistinct,
}

-- The e-mails that a list of recipients gets: one for each who is away.
abbrev pub mails_to : Registry → List Recipient → List Mail
mails_to online [] = []
mails_to online (r ∷ rs) =
    if is_online r.user_id online
    then mails_to online rs
    else record { to = r.email; token = none } ∷ mails_to online rs

abbrev pub pushes_to : (Text → Text) → List Recipient → List Emission
pushes_to ids [] = []
pushes_to ids (r ∷ rs) =
    record { room = Room.user_room r.user_id; event = Event.notification (ids r.user_id) }
    ∷ pushes_to ids rs

-- The loop of `dispatch`, as one write: a row and a push for each recipient, an e-mail for each who
-- is away, and nothing else.
pub dispatch_lem :
    (ids : Text → Text) (online : Registry) (n : Notice) (rs : List Recipient) (db : Db)
    → dispatch ids online n rs db ≡ (
      ok tt,
      record db {
        notifications = db.notifications ++ map (notification_row ids n) rs;
        emitted = db.emitted ++ pushes_to ids rs;
        outbox = db.outbox ++ mails_to online rs;
      },
    )
unfolding dispatch
dispatch_lem ids online n [] db = simp append-nil
dispatch_lem ids online n (r ∷ rs) db = elim (Bool-cases (is_online r.user_id online)) [
  | inl here ↦ rw (here, dispatch_lem ids online n rs) (simp append_assoc)
  | inr away ↦ rw (away, dispatch_lem ids online n rs) (simp append_assoc)
]

unread-rows :
    (v : Text) (ids : Text → Text) (n : Notice) (rs : List Recipient)
    → AreDistinct rs
    → count (is_unread v) (map (notification_row ids n) rs) ≡ (if tells v rs then 1 else 0)
unfolding count find
unread-rows v ids n [] h = refl
unread-rows v ids n (r ∷ rs) h = elim (Bool-cases (r.user_id == v)) [
  | inl same ↦
      let alone : tells v rs ≡ false =
        subst (λ k. tells k rs ≡ false) ((==_iff r.user_id v).0 same) h.0 in
      ground (arith, unread-rows v ids n rs h.1)
  | inr other ↦ ground (arith, unread-rows v ids n rs h.1)
]

-- A notice adds one unread notification for each recipient.
pub dispatch_told :
    (ids : Text → Text) (online : Registry) (n : Notice) (v : Text) (rs : List Recipient) (db : Db)
    → AreDistinct rs
    → unread_count v (dispatch ids online n rs db).1
      ≡ unread_count v db + (if tells v rs then 1 else 0)
unfolding unread_count
dispatch_told ids online n v rs db distinct = rw (dispatch_lem ids online n rs db) (
    count-append (is_unread v) db.notifications (map (notification_row ids n) rs)
    ∙ ap (λ k. count (is_unread v) db.notifications + k) (unread-rows v ids n rs distinct))

abbrev message_notice : Text → Text → List ℕ → Notice
message_notice w sender content = record {
  workspace_id = w;
  type = NotificationType.new_message;
  actor_id = sender;
  preview = truncate content preview_max_length;
}

notify_new_message_lem :
    (ids : Text → Text) (online : Registry) (w sender : Text) (content : List ℕ)
    (viewers : List Text) (db : Db) (rs : List Recipient)
    → resolve_recipients w sender db ≡ some rs
    → notify_new_message ids online w sender content viewers db
      ≡ dispatch ids online (message_notice w sender content) (without viewers rs) db
unfolding notify_new_message
notify_new_message_lem ids online w sender content viewers db rs e = ground arith

-- Telling people leaves the messages alone.
pub notify_new_message-messages :
    (ids : Text → Text) (online : Registry) (w sender : Text) (content : List ℕ)
    (viewers : List Text) (db : Db)
    → (notify_new_message ids online w sender content viewers db).1.messages ≡ db.messages
notify_new_message-messages ids online w sender content viewers db =
    elim (Option-cases (resolve_recipients w sender db)) [
      | inl gone ↦ unfold notify_new_message in ground arith
      | inr (rs, e) ↦
          rw
            (
              notify_new_message_lem ids online w sender content viewers db rs e,
              dispatch_lem ids online (message_notice w sender content) (without viewers rs) db,
            )
            refl
    ]

-- A message adds one unread notification for the owner and for each member of the workspace, but none
-- for the sender, for those who have the thread open, and for anyone else.
pub message_told :
    (ids : Text → Text) (online : Registry) (w sender v : Text) (content : List ℕ)
    (viewers : List Text) (db : Db) (ws : Workspace) (u : User)
    → find (is_workspace w) db.workspaces ≡ some ws
    → find (is_user ws.owner_id) db.users ≡ some u
    → MembersExist db.users db.members
    → let out = notify_new_message ids online w sender content viewers db in
      (out.0 ≡ ok tt)
      × (unread_count v out.1
          ≡ unread_count v db
            + (if (ws.owner_id == v || is_member w v db)
                  && not (v == sender)
                  && not (elem v viewers)
                then 1
                else 0))
message_told ids online w sender v content viewers db ws u e o h =
    let (rs, resolved, distinct) = resolved-AreDistinct w sender db ws u e o in
    let n = message_notice w sender content in
    let told : List Recipient = without viewers rs in
    rw (notify_new_message_lem ids online w sender content viewers db rs resolved) (
      ap (λ o. o.0) (dispatch_lem ids online n told db),
      dispatch_told ids online n v told db (without-AreDistinct viewers rs distinct)
          ∙ ap (λ (b : Bool). unread_count v db + (if b then 1 else 0))
              (tells-without v viewers rs
                ∙ ap (λ b. b && not (elem v viewers))
                    (resolved_tells w v sender db ws u rs e o h resolved)
                ∙ ground arith),
    )

-- A preview has at most the wanted length, and is the whole trimmed text if that is short enough; a
-- longer text is cut to make room for the ellipsis.
pub truncate_bounds :
    (text : List ℕ) (max : ℕ)
    → 1 ≤ max
    → (length (truncate text max) ≤ max)
      × (length (trim text) ≤ max → truncate text max ≡ trim text)
      × (max + 1 ≤ length (trim text) → length (truncate text max) ≡ max)
unfolding truncate
truncate_bounds text max pos = ground (
  arith,
  length-append (take (max - 1) (trim text)) (ellipsis ∷ []),
  length-take (max - 1) (trim text),
)

-- ===== src/Chat.antt =====
-- The chat of a workspace: src/message/message.service.ts.
pub mod Reading
pub mod Gateway
use workspacebridge_backend.Base.{
  ℕ, Bool, true, false, not, ◌&&◌, Option, none, some, List, [], ◌∷◌, ◌++◌, reverse, ltb, ◌==◌,
  if◌then◌else◌, is_some, or_else, truthy, length, take, find, select, count, pure, gets, ◌>>=◌,
  ◌>>◌, modify,
}
use workspacebridge_backend.Store.{Text, Time, Message, Seen, Db, Action}
use workspacebridge_backend.Teams.Workspaces.{is_workspace, is_member}
use workspacebridge_backend.Files.{is_view_of, upsert_view}

unfoldable pub is_workspace_member : Text → Text → Db → Bool
is_workspace_member workspace_id user_id db =
    elim (find (is_workspace workspace_id) db.workspaces) [
      | none ↦ false
      | some w ↦ if w.owner_id == user_id then true else is_member workspace_id user_id db
    ]

unfoldable pub save_message : Text → Text → List ℕ → Text → Time → Action Message
save_message workspace_id sender_id content id now = do
  let m : Message = record {
    id = id;
    workspace_id = workspace_id;
    sender_id = sender_id;
    content = content;
    created_at = now;
  }
  modify λ db. record db { messages = db.messages ++ m ∷ [] }
  pure m

-- What comes after the row of a cursor; nothing does when there is no such row.
unfoldable pub after_cursor : Text → List Message → List Message
after_cursor id [] = []
after_cursor id (m ∷ ms) = if m.id == id then ms else after_cursor id ms

-- A page of at most `limit` messages, oldest first, and whether the page is full.
unfoldable pub get_messages : Text → ℕ → Option Text → Db → List Message × Bool
get_messages workspace_id limit cursor db =
    let newest = reverse (select (λ m. m.workspace_id == workspace_id) db.messages) in
    let page =
      take limit (if truthy cursor then after_cursor (or_else cursor 0) newest else newest) in
    (reverse page, length page == limit)

unfoldable pub mark_read : Text → Text → Time → Action Time
mark_read workspace_id user_id now = do
  modify λ db. record db { chat_reads = upsert_view workspace_id user_id now db.chat_reads }
  pure now

unfoldable pub get_read_state : Text → Text → Db → List Seen
get_read_state workspace_id except_user_id db =
    select (λ r. r.workspace_id == workspace_id && not (r.user_id == except_user_id)) db.chat_reads

abbrev pub is_unread_for : Text → Text → Option Seen → Message → Bool
is_unread_for workspace_id user_id read m =
    m.workspace_id == workspace_id
    && not (m.sender_id == user_id)
    && (elim read [ none ↦ true | some r ↦ ltb r.at m.created_at ])

unfoldable pub unread_count : Text → Text → Db → ℕ
unread_count workspace_id user_id db =
    count
      (is_unread_for workspace_id user_id (find (is_view_of workspace_id user_id) db.chat_reads))
      db.messages

-- ===== src/Chat/Gateway.antt =====
-- The chat over sockets: src/message/message.gateway.ts.
pub mod Viewing
pub mod Late
use workspacebridge_backend.Base.{
  ℕ, Bool, true, false, not, ◌&&◌, Option, none, some, List, [], ◌∷◌, ◌++◌, map, ◌==◌,
  if◌then◌else◌, is_some, or_else, truthy, length, find, select, elem, delete_where, ok, Result,
}
use workspacebridge_backend.Store.{Text, Time, User, Message, Seen, Deps, Db, Room, Event, emit}
use workspacebridge_backend.Auth.Login.{is_user}
use workspacebridge_backend.Files.Names.{is_empty}
use workspacebridge_backend.Presence
use workspacebridge_backend.Presence.{Registry, lookup, put, drop_key}
use workspacebridge_backend.Notifications.{trim, notify_new_message}
use workspacebridge_backend.Chat.{
  is_workspace_member, save_message, get_messages, mark_read, get_read_state, unread_count,
}
use workspacebridge_backend.Sockets.{
  Socket, disconnect, is_admitted, admit, is_socket_token_expired,
}

-- `messageViewers`: of each workspace, who has its thread open on which sockets.
abbrev pub Viewers : Type 0
Viewers = List (Text × Registry)

-- A client: its socket, `viewingWorkspaceId` and the rooms that it has joined.
pub record ChatClient : Type 0 where
  pub socket : Socket
  pub viewing : Option Text
  pub rooms : List Text

-- What the server keeps beside the database.
pub record ChatServer : Type 0 where
  pub db : Db
  pub online : Registry
  pub viewers : Viewers

abbrev pub user_of : ChatClient → Text
user_of c = or_else c.socket.user_id 0

abbrev pub viewers_in : Text → Viewers → Registry
viewers_in workspace_id viewers = or_else (lookup workspace_id viewers) []

-- `removeViewer` on the registry and on the client.
unfoldable pub drop_viewer : Text → Text → Text → Viewers → Viewers
drop_viewer workspace_id user_id socket_id viewers = elim (lookup workspace_id viewers) [
  | none ↦ viewers
  | some by_user ↦
      let rest = Presence.remove user_id socket_id by_user in
      if length rest == 0 then drop_key workspace_id viewers else put workspace_id rest viewers
]

abbrev pub clear_viewing : Text → ChatClient → ChatClient
clear_viewing workspace_id c =
    if or_else c.viewing 0 == workspace_id then record c { viewing = none } else c

unfoldable pub remove_viewer : Text → ChatClient → Viewers → ChatClient × Viewers
unfolding drop_viewer
remove_viewer workspace_id c viewers =
    (clear_viewing workspace_id c, drop_viewer workspace_id (user_of c) c.socket.id viewers)

-- A client views one workspace at a time.
abbrev pub leave_other : Text → ChatClient → Viewers → Viewers
leave_other workspace_id c viewers =
    if truthy c.viewing && not (or_else c.viewing 0 == workspace_id)
    then drop_viewer (or_else c.viewing 0) (user_of c) c.socket.id viewers
    else viewers

unfoldable pub put_viewer : Text → Text → Text → Viewers → Viewers
put_viewer workspace_id user_id socket_id viewers = elim (lookup workspace_id viewers) [
  | none ↦ viewers ++ (workspace_id, Presence.add user_id socket_id []) ∷ []
  | some by_user ↦ put workspace_id (Presence.add user_id socket_id by_user) viewers
]

unfoldable pub add_viewer : Text → ChatClient → Viewers → ChatClient × Viewers
unfolding put_viewer drop_viewer
add_viewer workspace_id c viewers = (
  record c { viewing = some workspace_id },
  put_viewer workspace_id (user_of c) c.socket.id (leave_other workspace_id c viewers),
)

-- `getViewerIds`
unfoldable pub get_viewer_ids : Text → Viewers → List Text
get_viewer_ids workspace_id viewers = map (λ e. e.0) (viewers_in workspace_id viewers)

-- The end of `handleConnection`, when the user's row has been read: the user is online.
unfoldable pub finish_connection : ChatClient → Option User → ChatServer → ChatClient × ChatServer
unfolding admit
finish_connection c user s = (
  record c { socket = admit c.socket user },
  if is_admitted user
      then record s { online = Presence.add (user_of c) c.socket.id s.online }
      else s,
)

unfoldable pub handle_disconnect : ChatClient → ChatServer → ChatClient × ChatServer
unfolding drop_viewer
handle_disconnect c s =
    if truthy c.socket.user_id
    then (
      record c { rooms = []; viewing = if truthy c.viewing then none else c.viewing },
      record s {
        online = Presence.remove (user_of c) c.socket.id s.online;
        viewers =
            if truthy c.viewing
            then drop_viewer (or_else c.viewing 0) (user_of c) c.socket.id s.viewers
            else s.viewers;
      },
    )
    else (record c { rooms = [] }, s)

-- The handlers drop events of a socket whose token has expired and close it, and drop those about a
-- workspace that is not the user's.
abbrev pub may_speak : ChatClient → Time → Bool
may_speak c now = not (is_socket_token_expired c.socket now)

abbrev pub join : Text → ChatClient → ChatClient
join room c = if elem room c.rooms then c else record c { rooms = c.rooms ++ room ∷ [] }

-- What a client is sent.
pub data Reply : Type 0 where
  nothing denied : Reply
  history : List Message × Bool → List Seen → Reply
  older : List Message × Bool → Reply
  unread : ℕ → Reply

-- `joinRoom` after its two waits: the membership has been asked, the room joined.
unfoldable pub finish_join : Text → ChatClient → ChatServer → ChatClient × ChatServer × Reply
unfolding add_viewer
finish_join workspace_id c s =
    let (viewing, viewers) = add_viewer workspace_id c s.viewers in
    (
      viewing,
      record s { viewers = viewers },
      Reply.history (get_messages workspace_id 50 none s.db)
          (get_read_state workspace_id (user_of c) s.db),
    )

-- `rejectExpiredSocket` closes the socket; `handleDisconnect`, which the library then calls, is a handler
-- of its own.
abbrev pub expel : ChatClient → ChatClient
expel c = record c { socket = disconnect c.socket }

unfoldable pub handle_join_room :
    Text → Time → ChatClient → ChatServer → ChatClient × ChatServer × Reply
unfolding finish_join
handle_join_room workspace_id now c s =
    if may_speak c now
    then if is_workspace_member workspace_id (user_of c) s.db
      then finish_join workspace_id (join workspace_id c) s
      else (c, s, Reply.denied)
    else (expel c, s, Reply.nothing)

unfoldable pub handle_leave_room : Text → Time → ChatClient → ChatServer → ChatClient × ChatServer
unfolding remove_viewer
handle_leave_room workspace_id now c s =
    let (left, viewers) = remove_viewer workspace_id c s.viewers in
    if may_speak c now then (left, record s { viewers = viewers }) else (expel c, s)

unfoldable pub handle_load_more :
    Text → Option Text → Time → ChatClient → ChatServer → ChatClient × Reply
handle_load_more workspace_id cursor now c s =
    if may_speak c now
    then if is_workspace_member workspace_id (user_of c) s.db
      then (c, Reply.older (get_messages workspace_id 50 cursor s.db))
      else (c, Reply.denied)
    else (expel c, Reply.nothing)

-- Typing and receipts reach the others in a room that the client has joined.
unfoldable pub handle_typing : Text → Time → ChatClient → ChatServer → ChatClient × ChatServer
handle_typing workspace_id now c s =
    if may_speak c now
    then if elem workspace_id c.rooms
      then (
        c,
        record s {
          db = (emit (Room.chat_room workspace_id) (Event.user_typing (user_of c)) s.db).1;
        },
      )
      else (c, s)
    else (expel c, s)

unfoldable pub handle_mark_read : Text → Time → ChatClient → ChatServer → ChatClient × ChatServer
handle_mark_read workspace_id now c s =
    if may_speak c now
    then if elem workspace_id c.rooms
      then (
        c,
        record s {
          db =
              (emit (Room.chat_room workspace_id) (Event.read_receipt (user_of c))
                (mark_read workspace_id (user_of c) now s.db).1).1;
        },
      )
      else (c, s)
    else (expel c, s)

unfoldable pub handle_get_unread_count : Text → Time → ChatClient → ChatServer → ChatClient × Reply
handle_get_unread_count workspace_id now c s =
    if may_speak c now
    then if is_workspace_member workspace_id (user_of c) s.db
      then (join workspace_id c, Reply.unread (unread_count workspace_id (user_of c) s.db))
      else (c, Reply.denied)
    else (expel c, Reply.nothing)

-- The message is stored, broadcast and announced; `ids` are drawn for the notifications.
unfoldable pub send :
    (Text → Text) → Text → Text → List ℕ → Time → ChatClient → ChatServer → ChatServer
send ids id workspace_id text now c s =
    let saved = (save_message workspace_id (user_of c) text id now s.db).1 in
    let told = (emit (Room.chat_room workspace_id) (Event.new_message id) saved).1 in
    record s {
      db =
          (notify_new_message ids s.online workspace_id (user_of c) text
            (get_viewer_ids workspace_id s.viewers) told).1;
    }

unfoldable pub handle_send_message :
    (Text → Text)
    → Text
    → Text
    → List ℕ
    → Time
    → ChatClient
    → ChatServer
    → ChatClient × ChatServer × Reply
unfolding send
handle_send_message ids id workspace_id content now c s =
    if may_speak c now
    then if is_empty (trim content)
      then (c, s, Reply.nothing)
      else if is_workspace_member workspace_id (user_of c) s.db
      then (c, send ids id workspace_id (trim content) now c s, Reply.nothing)
      else (c, s, Reply.denied)
    else (expel c, s, Reply.nothing)

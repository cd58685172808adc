-- ===== src/Tests/Chat.antt =====
-- The chat gateway at concrete inputs.
use workspacebridge_backend.Base.{
  ◌≡◌, refl, true, false, none, some, [], ◌∷◌, find, elem, ◌+◌, List, ℕ,
}
use workspacebridge_backend.Store.{Db, Member, MemberRole}
use workspacebridge_backend.Presence.{lookup}
use workspacebridge_backend.Files.Names.{trim_start, trim_end}
use workspacebridge_backend.Notifications
use workspacebridge_backend.Notifications.{trim}
use workspacebridge_backend.Sockets.{is_socket_token_expired}
use workspacebridge_backend.Chat.{is_workspace_member}
use workspacebridge_backend.Chat.Gateway.{
  ChatClient, ChatServer, add_viewer, remove_viewer, get_viewer_ids, handle_disconnect,
  handle_send_message,
}
use workspacebridge_backend.Chat.Gateway.Viewing.{Tracks, SameFor, views, viewing_tracked}
use workspacebridge_backend.Chat.Gateway.Late.{send_tells}
use workspacebridge_backend.Tests.Fixtures.{world, ana, office}

abbrev ben_in : Member
ben_in = record { workspace_id = 30; user_id = 2; role = MemberRole.client }

abbrev chat_world : Db
chat_world = record world { members = ben_in ∷ [] }

abbrev client : ChatClient
client = record {
  socket = record { id = 400; user_id = some 1; expires_at = some 9000; connected = true };
  viewing = none;
  rooms = [];
}

abbrev server : ChatServer
server = record { db = chat_world; online = []; viewers = [] }

abbrev hello : List ℕ
hello = 104 ∷ 105 ∷ []

send_tells_example :
    let out = (handle_send_message (λ u. 900 + u) 500 30 hello 1000 client server).1 in
    (out.db.messages
      ≡ record {
        id = 500;
        workspace_id = 30;
        sender_id = 1;
        content = trim hello;
        created_at = 1000;
      }
        ∷ [])
    × (Notifications.unread_count 2 out.db ≡ Notifications.unread_count 2 chat_world + 1)
unfolding find elem get_viewer_ids lookup trim_end trim_start
send_tells_example =
    send_tells (λ u. 900 + u) 500 30 2 hello 1000 client server office ana
      (unfold is_socket_token_expired in refl) (unfold is_workspace_member in refl)
      (unfold trim in refl) refl refl (refl, tt)

viewing_tracked_example :
    let opened = add_viewer 30 client [] in
    let left = remove_viewer 30 client [] in
    let gone = handle_disconnect client server in
    (Tracks opened.0 opened.1 × (opened.0.viewing ≡ some 30) × SameFor 2 401 [] opened.1)
    × (Tracks left.0 left.1 × (views 30 1 400 left.1 ≡ false) × SameFor 2 401 [] left.1)
    × (Tracks gone.0 gone.1.viewers × (gone.0.viewing ≡ none) × SameFor 2 401 [] gone.1.viewers)
viewing_tracked_example =
    viewing_tracked 30 client server 2 401
      (record { named = refl; counted = λ w. unfold elem lookup in refl }) refl refl refl

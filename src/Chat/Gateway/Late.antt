-- ===== src/Chat/Gateway/Late.antt =====
-- Sending, and handlers that go on after their socket has gone: src/message/message.gateway.ts.
use workspacebridge_backend.Base.{
  ℕ, ◌+◌, ◌≡◌, refl, ◌∙◌, subst, true, false, not, ◌&&◌, ◌||◌, some, List, [], ◌∷◌, ◌++◌, map,
  arith, inl, inr, ◌==◌, if◌then◌else◌, is_some, elem, find, Option-cases, ==_iff, ==_self,
}
use workspacebridge_backend.Store.{Text, Time, User, Workspace, is_active, Room, Event, emit}
use workspacebridge_backend.Auth.Login.{is_user}
use workspacebridge_backend.Teams.Workspaces.{is_workspace, is_member}
use workspacebridge_backend.Files.Names.{is_empty}
use workspacebridge_backend.Presence.{Registry, lookup, is_online}
use workspacebridge_backend.Presence.Lookups.{lookup-add_self}
use workspacebridge_backend.Notifications
use workspacebridge_backend.Notifications.{trim, notify_new_message}
use workspacebridge_backend.Notifications.Recipients.{MembersExist}
use workspacebridge_backend.Notifications.Delivery.{message_told, notify_new_message-messages}
use workspacebridge_backend.Chat.{save_message, is_workspace_member}
use workspacebridge_backend.Chat.Gateway.{
  Viewers, ChatClient, ChatServer, user_of, viewers_in, add_viewer, get_viewer_ids,
  finish_connection, handle_disconnect, finish_join, send, handle_send_message, may_speak,
  leave_other,
}
use workspacebridge_backend.Chat.Gateway.Viewing.{views, views-put_viewer}

elem-keys : (u : Text) (r : Registry) → elem u (map (λ e. e.0) r) ≡ is_some (lookup u r)
unfolding elem lookup
elem-keys u [] = refl
elem-keys u ((k, ss) ∷ r) = ground (arith, elem-keys u r, ==_iff u k, ==_iff k u)

-- A user with a socket that has the thread open is among the viewers.
views-viewer :
    (w u s : Text) (viewers : Viewers)
    → views w u s viewers ≡ true
    → elem u (get_viewer_ids w viewers) ≡ true
unfolding get_viewer_ids elem
views-viewer w u s viewers e =
    elem-keys u (viewers_in w viewers) ∙ elim (Option-cases (lookup u (viewers_in w viewers))) [
      | inl gone ↦ ground arith
      | inr (ss, f) ↦ ground arith
    ]

-- A message that a member sends, and that is not blank, is stored trimmed, and each person of the
-- workspace has one more unread notification, except for the sender and for those with the thread open.
pub send_tells :
    (ids : Text → Text) (id w v : Text) (text : List ℕ) (now : Time) (c : ChatClient)
    (s : ChatServer) (ws : Workspace) (u : User)
    → may_speak c now ≡ true
    → is_workspace_member w (user_of c) s.db ≡ true
    → is_empty (trim text) ≡ false
    → find (is_workspace w) s.db.workspaces ≡ some ws
    → find (is_user ws.owner_id) s.db.users ≡ some u
    → MembersExist s.db.users s.db.members
    → let out = (handle_send_message ids id w text now c s).1 in
      (out.db.messages
        ≡ s.db.messages
          ++ record {
            id = id;
            workspace_id = w;
            sender_id = user_of c;
            content = trim text;
            created_at = now;
          }
            ∷ [])
      × (Notifications.unread_count v out.db
          ≡ Notifications.unread_count v s.db
            + (if (ws.owner_id == v || is_member w v s.db)
                  && not (v == user_of c)
                  && not (elem v (get_viewer_ids w s.viewers))
                then 1
                else 0))
send_tells ids id w v text now c s ws u may member full e o m =
    let saved = (save_message w (user_of c) (trim text) id now s.db).1 in
    let told = (emit (Room.chat_room w) (Event.new_message id) saved).1 in
    let viewers = get_viewer_ids w s.viewers in
    let sent : (handle_send_message ids id w text now c s).1.db
        ≡ (notify_new_message ids s.online w (user_of c) (trim text) viewers told).1 =
      unfold handle_send_message send in ground arith in
    rw sent (
      notify_new_message-messages ids s.online w (user_of c) (trim text) viewers told
          ∙ unfold save_message in refl,
      unfold save_message Notifications.unread_count in
          (message_told ids s.online w (user_of c) v (trim text) viewers told ws u e o m).1,
    )

finish_connection-is_online :
    (c : ChatClient) (s : ChatServer) (x : User)
    → is_active x.status ≡ true
    → is_online (user_of c) (finish_connection c (some x) s).1.online ≡ true
unfolding finish_connection
finish_connection-is_online c s x active =
    ground (arith, lookup-add_self (user_of c) c.socket.id s.online)

finish_join-viewer :
    (w : Text) (c : ChatClient) (s : ChatServer)
    → elem (user_of c) (get_viewer_ids w (finish_join w c s).1.viewers) ≡ true
finish_join-viewer w c s = views-viewer w (user_of c) c.socket.id (finish_join w c s).1.viewers (
    unfold finish_join add_viewer in
    ground (
      arith,
      views-put_viewer w (user_of c) c.socket.id w (user_of c) c.socket.id
          (leave_other w c s.viewers),
      ==_self w,
      ==_self (user_of c),
      ==_self c.socket.id,
    ))

gone_user : (c : ChatClient) (s : ChatServer) → user_of (handle_disconnect c s).0 ≡ user_of c
unfolding handle_disconnect
gone_user c s = ground arith

-- A handler that is still waiting when its socket disconnects goes on afterwards: the user is then online
-- without a socket, so no e-mail goes out, or counts as reading a thread that is not open, so that no
-- message is announced to them; and nothing takes the entry away again.
pub late_handlers_linger :
    (w : Text) (c : ChatClient) (s : ChatServer) (x : User)
    → is_active x.status ≡ true
    → let gone = handle_disconnect c s in
      let late = finish_connection gone.0 (some x) gone.1 in
      let joined = finish_join w gone.0 gone.1 in
      (is_online (user_of c) late.1.online ≡ true)
      × (elem (user_of c) (get_viewer_ids w joined.1.viewers) ≡ true)
late_handlers_linger w c s x active =
    let gone = handle_disconnect c s in
    let same = gone_user c s in
    (
      subst (λ u. is_online u (finish_connection gone.0 (some x) gone.1).1.online ≡ true) same
          (finish_connection-is_online gone.0 gone.1 x active),
      subst (λ u. elem u (get_viewer_ids w (finish_join w gone.0 gone.1).1.viewers) ≡ true) same
          (finish_join-viewer w gone.0 gone.1),
    )

-- ===== src/Boards/Comments.antt =====
-- Comments on the elements of a board: src/whiteboard/whiteboard-comment.service.ts.
use workspacebridge_backend.Base.{
  ℕ, Bool, not, List, [], ◌∷◌, ◌++◌, ◌==◌, find, select, delete_where, pure, gets, or_throw, ◌>>=◌,
  ◌>>◌, throw_if, modify, bad_request, forbidden, not_found,
}
use workspacebridge_backend.Store.{
  Text, WhiteboardComment, Action, Reason, Room, Event, emit, forget_errors,
}
use workspacebridge_backend.Files.Names.{is_empty}
use workspacebridge_backend.Presence.{Registry}
use workspacebridge_backend.Notifications.{trim, notify_whiteboard_comment}
use workspacebridge_backend.Boards.{ensure_board_access}

abbrev pub is_board_comment : Text → WhiteboardComment → Bool
is_board_comment id c = c.id == id

unfoldable pub list : Text → Text → Action (List WhiteboardComment)
list board_id user_id = do
  ensure_board_access board_id user_id
  gets (λ db. select (λ c. c.whiteboard_id == board_id) db.whiteboard_comments)

unfoldable pub create :
    (Text → Text) → Registry → Text → Text → Text → Text → List ℕ → Action WhiteboardComment
create ids online id board_id user_id element_id text = do
  ensure_board_access board_id user_id
  let body = trim text
  throw_if (is_empty body) bad_request Reason.empty_body
  let c : WhiteboardComment = record {
    id = id;
    whiteboard_id = board_id;
    element_id = element_id;
    author_id = user_id;
    body = body;
  }
  modify λ db. record db { whiteboard_comments = db.whiteboard_comments ++ c ∷ [] }
  emit (Room.board_room board_id) (Event.comment_created id)
  forget_errors (notify_whiteboard_comment ids online board_id user_id body)
  pure c

unfoldable pub delete : Text → Text → Action Unit
delete comment_id user_id = do
  comments ← gets (λ db. db.whiteboard_comments)
  c ← or_throw (find (is_board_comment comment_id) comments) not_found Reason.comment_not_found
  throw_if (not (c.author_id == user_id)) forbidden Reason.author_only
  modify λ db. record db {
    whiteboard_comments = delete_where (is_board_comment comment_id) db.whiteboard_comments;
  }
  emit (Room.board_room c.whiteboard_id) (Event.comment_deleted c.id)

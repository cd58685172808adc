-- ===== src/Tests/Search.antt =====
-- A search at a concrete input: every message matches.
use workspacebridge_backend.Base.{
  ◌≡◌, ◌≤◌, refl, none, some, [], ◌∷◌, List, find, select, elem, All, true,
}
use workspacebridge_backend.Store.{UserRole, Message, Db}
use workspacebridge_backend.Search.{
  ResultType, SearchResult, Matching, search, resolve_accessible_workspaces, search_workspaces,
  search_messages, search_files, search_file_comments, search_shared_tasks, search_shared_links,
  search_whiteboard_comments, search_private_tasks,
}
use workspacebridge_backend.Search.Ranking.{IsRanked}
use workspacebridge_backend.Search.Visible.{is_visible, search_shows_own}
use workspacebridge_backend.Tests.Fixtures.{world}

abbrev all_messages : Matching
all_messages = record {
  in_workspace = λ w. none;
  in_message = λ m. some (record { rank = 3; created_at = m.created_at });
  in_file = λ f. none;
  in_file_comment = λ c. none;
  in_shared_task = λ t. none;
  in_shared_link = λ l. none;
  in_whiteboard_comment = λ c. none;
  in_private_task = λ t. none;
}

abbrev said : Message
said = record { id = 500; workspace_id = 30; sender_id = 1; content = 104 ∷ []; created_at = 900 }

abbrev said_elsewhere : Message
said_elsewhere = record said { id = 501; workspace_id = 40 }

abbrev talk_world : Db
talk_world = record world { messages = said_elsewhere ∷ said ∷ [] }

abbrev answer : List SearchResult
answer =
    record {
      type = ResultType.message;
      id = 500;
      parent_id = none;
      workspace_id = some 30;
      workspace_name = some 31;
      hit = record { rank = 3; created_at = 900 };
    }
    ∷ []

search_shows_own_example :
    All (λ r. is_visible 1 UserRole.freelancer talk_world r ≡ true) answer
    × IsRanked answer
    × (1 ≤ 10)
    × (talk_world ≡ talk_world)
unfolding search resolve_accessible_workspaces select elem find search_workspaces search_messages
    search_files search_file_comments search_shared_tasks search_shared_links
    search_whiteboard_comments search_private_tasks
search_shows_own_example =
    search_shows_own all_messages 1 UserRole.freelancer none [] 10 talk_world talk_world answer refl

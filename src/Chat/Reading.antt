-- ===== src/Chat/Reading.antt =====
-- Unread messages: src/message/message.service.ts.
use workspacebridge_backend.Base.{
  ◌≤◌, ◌≡◌, refl, some, List, [], ◌∷◌, arith, inl, inr, find, count, All, Option-cases,
  find-update_where_hit, find-fits, find-append_new, ==_self,
}
use workspacebridge_backend.Store.{Text, Time, Message, Seen, Db}
use workspacebridge_backend.Files.{is_view_of, seen_at, upsert_view}
use workspacebridge_backend.Chat.{is_unread_for, unread_count, mark_read}

-- The row of a reader after a write to it carries the time of the write.
found_at :
    (w u : Text) (now : Time) (reads : List Seen)
    → (r : Seen) × (find (is_view_of w u) (upsert_view w u now reads) ≡ some r) × (r.at ≡ now)
unfolding upsert_view
found_at w u now reads = elim (Option-cases (find (is_view_of w u) reads)) [
  | inl gone ↦
      let r : Seen = record { workspace_id = w; user_id = u; at = now } in
      (
        r,
        ground (
          arith,
          find-append_new (is_view_of w u) reads r gone (ground (arith, ==_self w, ==_self u)),
        ),
        refl,
      )
  | inr (r, e) ↦ (
    seen_at now r,
    ground (
      arith,
      find-update_where_hit (is_view_of w u) (is_view_of w u) (seen_at now) reads r (λ x. refl) e
          (find-fits (is_view_of w u) reads r e),
    ),
    refl,
  )
]

none_unread :
    (w u : Text) (r : Seen) (ms : List Message)
    → All (λ m. m.created_at ≤ r.at) ms
    → count (is_unread_for w u (some r)) ms ≡ 0
unfolding count
none_unread w u r [] h = refl
none_unread w u r (m ∷ ms) h = ground (arith, h.0, none_unread w u r ms h.1)

-- Who has just read a chat has no unread message in it.
pub mark_read_clears :
    (w u : Text) (now : Time) (db : Db)
    → All (λ m. m.created_at ≤ now) db.messages
    → unread_count w u (mark_read w u now db).1 ≡ 0
unfolding mark_read unread_count
mark_read_clears w u now db past =
    let (r, e, at) = found_at w u now db.chat_reads in
    rw e (none_unread w u r db.messages (rw at past))

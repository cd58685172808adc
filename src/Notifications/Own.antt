-- ===== src/Notifications/Own.antt =====
-- A user's own notifications: markRead and markAllRead of src/notification/notification.service.ts.
use workspacebridge_backend.Base.{
  ◌≡◌, refl, Bool, true, false, List, [], ◌∷◌, arith, ok, err, not_found, inl, inr, ◌==◌,
  if◌then◌else◌, count, select, update_where, Bool-cases,
}
use workspacebridge_backend.Store.{Text, Notification, Db, Reason}
use workspacebridge_backend.Notifications.{
  is_notification_of, is_own, is_unread, set_read, mark_read, mark_all_read, unread_count,
}

select-read_other :
    (user_id other : Text) (q : Notification → Bool) (ns : List Notification)
    → (other == user_id) ≡ false
    → ((n : Notification) → q n ≡ true → (n.user_id == user_id) ≡ true)
    → select (is_notification_of other) (update_where q set_read ns)
      ≡ select (is_notification_of other) ns
unfolding select update_where
select-read_other user_id other q [] ne h = refl
select-read_other user_id other q (n ∷ ns) ne h = elim (Bool-cases (q n)) [
  | inl own ↦ ground (arith, h n own, select-read_other user_id other q ns ne h)
  | inr kept ↦ ground (arith, select-read_other user_id other q ns ne h)
]

unread_zero :
    (user_id : Text) (ns : List Notification)
    → count (is_unread user_id) (update_where (is_unread user_id) set_read ns) ≡ 0
unfolding count update_where
unread_zero user_id [] = refl
unread_zero user_id (n ∷ ns) = ground (arith, unread_zero user_id ns)

-- No one reads the notifications of another: marking one or all as read leaves every other user's
-- notifications as they were, an id that is no own notification's is answered as not found, and
-- marking all leaves the user with none unread and answers how many there were.
pub read_is_own :
    (user_id other id : Text) (db : Db)
    → (other == user_id) ≡ false
    → (select (is_notification_of other) (mark_read user_id id db).1.notifications
        ≡ select (is_notification_of other) db.notifications)
      × ((mark_read user_id id db).0 ≡ (
          if count (is_own user_id id) db.notifications == 0
          then err not_found Reason.notification_not_found
          else ok tt))
      × (select (is_notification_of other) (mark_all_read user_id db).1.notifications
          ≡ select (is_notification_of other) db.notifications)
      × (unread_count user_id (mark_all_read user_id db).1 ≡ 0)
      × ((mark_all_read user_id db).0 ≡ ok (unread_count user_id db))
unfolding mark_read mark_all_read unread_count
read_is_own user_id other id db ne = (
  select-read_other user_id other (is_own user_id id) db.notifications ne (λ n e. ground arith),
  ground arith,
  select-read_other user_id other (is_unread user_id) db.notifications ne (λ n e. ground arith),
  unread_zero user_id db.notifications,
  refl,
)

-- ===== src/Moderation/Laws/Notices.antt =====
-- Notifications: one per recipient and key, and the unread count.
use finance_app.Base.{
  ℕ, ◌≡◌, Bool, false, none, some, [], ◌∷◌, ◌++◌, ◌+◌, ◌-◌, if◌then◌else◌, arith, count_if,
}
use finance_app.Base.Text.{Text, text_eq, text_eq_iff, codes}
use finance_app.Base.Assoc.{Map, lookup, insert, values, lookup-insert}
use finance_app.Moderation.{Notification, Repository}
use finance_app.Moderation.Store.{create_notification, notification_key}
use finance_app.Moderation.Resolving.{notify, new_notification}
use finance_app.Moderation.Inbox.{
  is_unread, unread_notification_count, mark_notification_read, mark_all,
  mark_all_notifications_read,
}

-- A second notification of one recipient under one key changes nothing, whatever else it says: a
-- retried event notifies once.
notify_once :
    (now later : ℕ) (id id' recipient kind kind' key : Text) (payload payload' : Map Text)
    (r : Repository)
    → let r' = notify now id recipient kind key payload r in
      notify later id' recipient kind' key payload' r' ≡ r'
unfolding notify create_notification notification_key
notify_once now later id id' recipient kind kind' key payload payload' r = ground (
  arith,
  lookup-insert (recipient ++ codes "|" ++ key) (recipient ++ codes "|" ++ key) id r.dedupe,
  text_eq_iff (recipient ++ codes "|" ++ key) (recipient ++ codes "|" ++ key),
)

module _ {A : Type 0} (p : A → Bool) where
  count_if-insert_new :
      (k : Text) (v : A) (m : Map A)
      → lookup k m ≡ none
      → count_if p (values (insert k v m)) ≡ count_if p (values m) + (if p v then 1 else 0)
  unfolding insert lookup
  count_if-insert_new k v [] h = ground arith
  count_if-insert_new k v ((j, w) ∷ m) h = ground (arith, count_if-insert_new k v m)

  count_if-insert_old :
      (k : Text) (v w : A) (m : Map A)
      → lookup k m ≡ some w
      → count_if p (values (insert k v m)) + (if p w then 1 else 0)
        ≡ count_if p (values m) + (if p v then 1 else 0)
  unfolding insert lookup
  count_if-insert_old k v w [] h = ground arith
  count_if-insert_old k v w ((j, u) ∷ m) h = ground (arith, count_if-insert_old k v w m)

-- A new notification under a new key and a new id is one more unread for its recipient and for
-- nobody else.
pub notify_unread :
    (now : ℕ) (id recipient user kind key : Text) (payload : Map Text) (r : Repository)
    → text_eq id [] ≡ false
    → lookup (recipient ++ codes "|" ++ key) r.dedupe ≡ none
    → lookup id r.notifications ≡ none
    → unread_notification_count user (notify now id recipient kind key payload r)
      ≡ unread_notification_count user r + (if text_eq recipient user then 1 else 0)
unfolding notify create_notification notification_key unread_notification_count
notify_unread now id recipient user kind key payload r named new free =
    let n = new_notification now id recipient kind key payload in
    ground (arith, count_if-insert_new (is_unread user) id n r.notifications)

-- Marking a stored notification read is one unread less for the user who marks it, and none less
-- where it was read already or is another user's.
pub mark_notification_read_unread :
    (now : ℕ) (recipient id : Text) (n : Notification) (r : Repository)
    → lookup id r.notifications ≡ some n
    → unread_notification_count recipient (mark_notification_read now recipient id r).1
      ≡ unread_notification_count recipient r - (if is_unread recipient n then 1 else 0)
unfolding mark_notification_read unread_notification_count
mark_notification_read_unread now recipient id n r found = ground (
  arith,
  count_if-insert_old (is_unread recipient) id (record n { read_at = some now }) n r.notifications,
)

mark_all_lem :
    (now : ℕ) (recipient user : Text) (m : Map Notification)
    → count_if (is_unread user) (values (mark_all now recipient m))
      ≡ (if text_eq recipient user then 0 else count_if (is_unread user) (values m))
unfolding mark_all
mark_all_lem now recipient user [] = ground arith
mark_all_lem now recipient user ((k, n) ∷ m) = ground (
  arith,
  mark_all_lem now recipient user m,
  text_eq_iff recipient user,
  text_eq_iff n.recipient_id recipient,
  text_eq_iff n.recipient_id user,
)

-- After a user marks all read none is unread for that user, and the counts of the others stay.
mark_all_read_unread :
    (now : ℕ) (recipient user : Text) (r : Repository)
    → unread_notification_count user (mark_all_notifications_read now recipient r)
      ≡ (if text_eq recipient user then 0 else unread_notification_count user r)
unfolding mark_all_notifications_read unread_notification_count
mark_all_read_unread now recipient user r = mark_all_lem now recipient user r.notifications

-- ===== src/Moderation/Inbox.antt =====
-- moderation/memory_repository.go: the notifications of a user.
use finance_app.Base.{
  ℕ, Bool, not, ◌&&◌, Option, none, some, List, [], ◌∷◌, if◌then◌else◌, ltb, is_some, keep_if,
  count_if, take,
}
use finance_app.Base.Text.{Text, text_eq}
use finance_app.Base.Assoc.{Map, lookup, insert, values}
use finance_app.Errors.{ModerationError}
use finance_app.Moderation.Defs.{Notification, Repository}

unfoldable pub insert_newest : Notification → List Notification → List Notification
insert_newest f [] = f ∷ []
insert_newest f (g ∷ gs) =
    let rest = insert_newest f gs in if ltb f.created_at g.created_at then g ∷ rest else f ∷ g ∷ gs

unfoldable pub sort_newest : List Notification → List Notification
sort_newest [] = []
sort_newest (f ∷ fs) = insert_newest f (sort_newest fs)

abbrev pub is_for : Text → Notification → Bool
is_for recipient n = text_eq n.recipient_id recipient

-- A limit of 0 is no limit.
unfoldable pub list_notifications : Text → ℕ → Repository → List Notification
unfolding sort_newest insert_newest
list_notifications recipient limit r =
    let out = sort_newest (keep_if (is_for recipient) (values r.notifications)) in
    if ltb 0 limit then take limit out else out

abbrev pub is_unread : Text → Notification → Bool
is_unread recipient n = is_for recipient n && not (is_some n.read_at)

unfoldable pub unread_notification_count : Text → Repository → ℕ
unread_notification_count recipient r = count_if (is_unread recipient) (values r.notifications)

unfoldable pub mark_notification_read :
    ℕ → Text → Text → Repository → Option ModerationError × Repository
mark_notification_read now recipient id r = elim (lookup id r.notifications) [
  | none ↦ (some ModerationError.not_found, r)
  | some n ↦ if not (is_for recipient n) then (some ModerationError.not_found, r) else (
    none,
    elim n.read_at [
      | some _ ↦ r
      | none ↦ record r {
        notifications = insert id (record n { read_at = some now }) r.notifications;
      }
    ],
  )
]

-- The loop over the notifications, each written back under its key.
unfoldable pub mark_all : ℕ → Text → Map Notification → Map Notification
mark_all now recipient [] = []
mark_all now recipient ((k, n) ∷ m) =
    let rest = mark_all now recipient m in
    if is_unread recipient n then (k, record n { read_at = some now }) ∷ rest else (k, n) ∷ rest

unfoldable pub mark_all_notifications_read : ℕ → Text → Repository → Repository
unfolding mark_all
mark_all_notifications_read now recipient r = record r {
  notifications = mark_all now recipient r.notifications;
}

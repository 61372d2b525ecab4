-- ===== src/Moderation/Laws/Pending.antt =====
-- The pending reports of one reporter on one user or message.
use finance_app.Base.{
  ℕ, ◌≡◌, refl, sym, Bool, true, false, Option, none, some, List, [], ◌∷◌, ◌+◌, ◌≤◌, if◌then◌else◌,
  arith, any_of, count_if,
}
use finance_app.Base.Text.{Text, text_eq, text_eq_iff}
use finance_app.Base.Assoc.{Map, insert, values}
use finance_app.Moderation.{Report, Evidence, Notification, Repository}
use finance_app.Moderation.Status
use finance_app.Moderation.Store.{
  is_duplicate, is_pending, is_resolved, same_ptr, has_open_duplicate, create_user_report,
  create_message_report, notified, create_notification,
}

-- The pending reports of a reporter on a user (no message) or a message.
unfoldable pub pending_count : Text → Text → Option Text → Repository → ℕ
pending_count reporter reported message r =
    count_if (is_duplicate reporter reported message) (values r.reports)

module _ {A : Type 0} (p : A → Bool) where
  pub count_if-insert :
      (k : Text) (v : A) (m : Map A)
      → count_if p (values (insert k v m)) ≤ count_if p (values m) + (if p v then 1 else 0)
  unfolding insert
  count_if-insert k v [] = ground arith
  count_if-insert k v ((j, w) ∷ m) = ground (arith, count_if-insert k v m)

  pub count_if-none : (xs : List A) → any_of p xs ≡ false → count_if p xs ≡ 0
  count_if-none [] h = refl
  count_if-none (x ∷ xs) h = ground (arith, count_if-none xs)

same_ptr_eq : (a b : Option Text) → same_ptr a b ≡ true → a ≡ b
same_ptr_eq none none h = refl
same_ptr_eq none (some b) h = cc
same_ptr_eq (some a) none h = cc
same_ptr_eq (some a) (some b) h = ground (arith, text_eq_iff a b)

same_triple :
    (a b : Text) (m : Option Text) (rep : Report) (r : Repository)
    → is_duplicate a b m rep ≡ true
    → has_open_duplicate rep.reporter_user_id rep.reported_user_id rep.message_id r ≡ false
    → has_open_duplicate a b m r ≡ false
same_triple a b m rep r same fresh = rw (sym reporter, sym reported, sym message) fresh
  where
    reporter : rep.reporter_user_id ≡ a
    reporter = ground (arith, text_eq_iff rep.reporter_user_id a)

    reported : rep.reported_user_id ≡ b
    reported = ground (arith, text_eq_iff rep.reported_user_id b)

    message : rep.message_id ≡ m
    message = same_ptr_eq rep.message_id m (ground arith)

-- Filing a report that has no pending duplicate.
filed :
    (a b : Text) (m : Option Text) (rep : Report) (r : Repository)
    → has_open_duplicate rep.reporter_user_id rep.reported_user_id rep.message_id r ≡ false
    → pending_count a b m r ≤ 1
    → count_if (is_duplicate a b m) (values (insert rep.id rep r.reports)) ≤ 1
unfolding pending_count has_open_duplicate
filed a b m rep r fresh h = ground (
  arith,
  count_if-insert (is_duplicate a b m) rep.id rep r.reports,
  count_if-none (is_duplicate a b m) (values r.reports),
  same_triple a b m rep r,
)

pub create_user_report-pending :
    (a b : Text) (m : Option Text) (rep : Report) (r : Repository)
    → pending_count a b m r ≤ 1
    → pending_count a b m (create_user_report rep r).1 ≤ 1
unfolding pending_count create_user_report
create_user_report-pending a b m rep r h = ground (arith, filed a b m rep r)

pub create_message_report-pending :
    (a b : Text) (m : Option Text) (rep : Report) (ev : Evidence) (r : Repository)
    → pending_count a b m r ≤ 1
    → pending_count a b m (create_message_report rep ev r).1 ≤ 1
unfolding pending_count create_message_report
create_message_report-pending a b m rep ev r h = ground (arith, filed a b m rep r)

pub notified-reports :
    (fresh : Text) (n : Option Notification) (r : Repository)
    → (notified fresh n r).reports ≡ r.reports
unfolding create_notification
notified-reports fresh none r = refl
notified-reports fresh (some n) r = ground arith

-- A resolved report is pending no more.
pub resolved-pending : (s : Text) → is_resolved s ≡ true → is_pending s ≡ false
unfolding is_resolved is_pending text_eq
resolved-pending s h = ground (
  arith,
  text_eq_iff s Status.resolved_action_taken,
  text_eq_iff s Status.resolved_no_action,
  text_eq_iff s Status.status_open,
  text_eq_iff s Status.under_review,
)

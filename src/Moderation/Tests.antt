-- ===== src/Moderation/Tests.antt =====
-- Reports and notifications at concrete repositories.
use finance_app.Base.{◌≡◌, refl, ◌+◌, ◌≤◌, false, none, some, List, [], ◌∷◌, if◌then◌else◌}
use finance_app.Base.Assoc
use finance_app.Base.Assoc.{lookup}
use finance_app.Base.Text
use finance_app.Base.Text.{Text, codes, text_eq}
use finance_app.Base.Result.{ok, is_ok}
use finance_app.Errors.{ModerationError}
use finance_app.Moderation.{
  Report, Repository, Service, UserView, ResolveInput, Notification, new_repository,
}
use finance_app.Moderation.Store
use finance_app.Moderation.Store.{is_resolved}
use finance_app.Moderation.Inbox
use finance_app.Moderation.Inbox.{
  unread_notification_count, mark_notification_read, mark_all_notifications_read, is_unread,
}
use finance_app.Moderation.Methods
use finance_app.Moderation.Methods.{get_report_detail, new_report}
use finance_app.Moderation.Resolving
use finance_app.Moderation.Resolving.{Uuids, Verdict, resolve_report, verdict, permitted, notify}
use finance_app.Moderation.Run.{Call, run}
use finance_app.Moderation.Laws.Pending.{pending_count}
use finance_app.Moderation.Laws.Decisions.{
  resolve_report_failed, resolve_report_once, admin_is_protected,
}
use finance_app.Moderation.Laws.Reports.{one_pending_report}

-- The accounts: who is suspended or banned. The admin is "a-0".
abbrev service : Service (List Text)
service = record {
  messages = some (λ reporter id accounts. ok (record {
    message_id = id;
    conversation_id = codes "c-1";
    sender_id = codes "b-2";
    participant_ids = reporter ∷ codes "b-2" ∷ [];
    text = codes "rude";
    created_at = 4;
  }));
  remover = none;
  users = record {
    user_by_id = λ id accounts.
        ok (record { id = id; role = codes "user"; is_admin = text_eq id (codes "a-0") });
    suspend = λ id until reason accounts. (none, id ∷ accounts);
    ban = λ id reason accounts. (none, id ∷ accounts);
  };
  add_days = λ now days. now + days;
  format_time = λ t. [];
}

abbrev report : Text → Report
report reported =
    new_report 3 (codes "r-1") (codes "c-3") reported none (codes "spam") (codes "why")

abbrev reported : Text → Repository
reported user = record new_repository { reports = (codes "r-1", report user) ∷ [] }

abbrev moderator : UserView
moderator = record { id = codes "d-4"; role = codes "moderator"; is_admin = false }

abbrev uuids : Uuids
uuids = record { notification = codes "n-1"; action = codes "x-1"; fresh = codes "f-1" }

abbrev suspension : ResolveInput
suspension = record {
  decision = codes "action_taken";
  action_type = codes "temporary_suspension";
  reason = codes "rude";
  moderator_notes = [];
  suspension_days = 0;
}

abbrev dismissal : ResolveInput
dismissal = record {
  decision = codes "no_action";
  action_type = [];
  reason = [];
  moderator_notes = [];
  suspension_days = 0;
}

-- A write of the audit record that fails.
abbrev failing : Repository
failing = record (reported (codes "b-2")) {
  fail_hook = some (λ stage.
      if text_eq stage (codes "external_apply")
      then some (ModerationError.storage stage)
      else none);
}

abbrev noted : Repository
noted = notify 5 (codes "n-7") (codes "b-2") (codes "new_message") (codes "k") [] new_repository

computing : Unit {0}
unfolding Assoc.lookup Assoc.insert Text.text_eq Text.trim_space Text.trim_left Text.is_space
    Store.fail Store.is_pending Store.is_resolved Store.has_open_duplicate Store.create_user_report
    Store.create_message_report Store.get_report Store.get_evidence Store.notification_key
    Store.create_notification Store.publish Store.notification_stage Store.apply_stage
    Store.write_resolution Store.resolve_report Inbox.unread_notification_count
    Inbox.mark_notification_read Inbox.mark_all Inbox.mark_all_notifications_read
    Methods.is_valid_category Methods.report_user Methods.report_message Methods.get_report_detail
    Methods.summary_from_report Methods.evidence_dto Resolving.verdict
    Resolving.action_requires_live_target Resolving.suspend_until Resolving.resolution_notification
    Resolving.volatile_apply Resolving.build Resolving.permitted Resolving.finish_resolve
    Resolving.resolve_report Resolving.notify
computing = tt

-- The suspension reaches the accounts, for three days.
suspended :
    (resolve_report service 9 uuids
      (codes "d-4")
      moderator
      (codes "r-1")
      suspension
      (reported (codes "b-2"))
      []).2
    ≡ codes "b-2" ∷ []
unfolding computing
suspended = refl

resolve_report_failed_example :
    (resolve_report service 9 uuids (codes "d-4") moderator (codes "r-1") suspension failing []).1
    ≡ failing
unfolding computing
resolve_report_failed_example =
    resolve_report_failed service 9 uuids (codes "d-4") moderator (codes "r-1") suspension failing
      [] refl refl refl

resolve_report_once_example :
    let r' =
      (resolve_report service 9 uuids
        (codes "d-4")
        moderator
        (codes "r-1")
        suspension
        (reported (codes "b-2"))
        []).1 in
    resolve_report service 11 uuids
      (codes "d-5")
      moderator
      (codes "r-1")
      dismissal
      r'
      (codes "b-2" ∷ [])
    ≡ (get_report_detail (codes "r-1") r', r', codes "b-2" ∷ [])
unfolding computing
resolve_report_once_example =
    resolve_report_once service 9 uuids (codes "d-4") moderator (codes "r-1") suspension
      (reported (codes "b-2")) [] 11 uuids (codes "d-5") moderator dismissal (codes "b-2" ∷ []) refl
      refl refl

admin_is_protected_example :
    (is_ok
        (resolve_report service 9 uuids
          (codes "d-4")
          moderator
          (codes "r-1")
          suspension
          (reported (codes "a-0"))
          []).0
      ≡ false)
    × ((resolve_report service 9 uuids
          (codes "d-4")
          moderator
          (codes "r-1")
          suspension
          (reported (codes "a-0"))
          []).1
        ≡ reported (codes "a-0"))
    × ((resolve_report service 9 uuids
          (codes "d-4")
          moderator
          (codes "r-1")
          suspension
          (reported (codes "a-0"))
          []).2
        ≡ [])
unfolding computing
admin_is_protected_example =
    admin_is_protected service 9 uuids (codes "d-4") moderator (codes "r-1") suspension
      (reported (codes "a-0")) [] refl refl refl refl refl refl

one_pending_report_example :
    pending_count
      (codes "c-3")
      (codes "b-2")
      none
      (run service
        (Call.report_user 3 (codes "r-1") (codes "c-3") (codes "b-2") (codes "spam") []
          ∷ Call.report_user 4 (codes "r-2") (codes "c-3") (codes "b-2") (codes "other") []
          ∷ [])
        (record new_repository { fail_hook = none }, [])).0
    ≤ 1
one_pending_report_example =
    one_pending_report service (codes "c-3") (codes "b-2") none
      (Call.report_user 3 (codes "r-1") (codes "c-3") (codes "b-2") (codes "spam") []
        ∷ Call.report_user 4 (codes "r-2") (codes "c-3") (codes "b-2") (codes "other") []
        ∷ [])
      [] none

abbrev note : Notification
note = Resolving.new_notification 5 (codes "n-7") (codes "b-2") (codes "new_message") (codes "k") []

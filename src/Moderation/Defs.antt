-- ===== src/Moderation/Defs.antt =====
-- moderation/model.go, repository.go and the fields of `InMemoryRepository` and `Service`. Times
-- are nanoseconds since Go's zero time; a nil pointer is `none`.
use finance_app.Base.{ℕ, Bool, Option, none, List, []}
use finance_app.Base.Text.{Text}
use finance_app.Base.Assoc.{Map}
use finance_app.Base.Result.{Result}
use finance_app.Errors.{ModerationError}

pub record Report : Type 0 where
  pub id : Text
  pub reporter_user_id : Text
  pub reported_user_id : Text
  pub reporter_deleted : Bool
  pub reported_deleted : Bool
  pub reporter_subject_id : Text
  pub reported_subject_id : Text
  pub message_id : Option Text
  pub category : Text
  pub explanation : Text
  pub status : Text
  pub created_at : ℕ
  pub reviewed_at : Option ℕ
  pub reviewer_id : Option Text
  pub decision : Text
  pub moderator_notes : Text

pub record Evidence : Type 0 where
  pub id : Text
  pub report_id : Text
  pub message_id : Option Text
  pub conversation_id : Option Text
  pub sender_id : Option Text
  pub participant_ids : List Text
  pub sender_subject_id : Text
  pub participant_subject_ids : List Text
  pub conversation_subject_id : Text
  pub message_text : Option Text
  pub message_created_at : Option ℕ
  pub report_created_at : ℕ

pub record ModerationAction : Type 0 where
  pub id : Text
  pub moderator_id : Text
  pub target_user_id : Text
  pub moderator_deleted : Bool
  pub target_deleted : Bool
  pub moderator_subject_id : Text
  pub target_subject_id : Text
  pub report_id : Option Text
  pub action_type : Text
  pub reason : Text
  pub created_at : ℕ
  pub expires_at : Option ℕ

pub record ReportResponse : Type 0 where
  pub report_id : Text
  pub status : Text

pub record ReportSummary : Type 0 where
  pub id : Text
  pub reporter_user_id : Text
  pub reported_user_id : Text
  pub message_id : Option Text
  pub category : Text
  pub status : Text
  pub created_at : ℕ

pub record EvidenceDto : Type 0 where
  pub message_text : Text
  pub message_created_at : Option ℕ
  pub conversation_id : Text
  pub sender_id : Text

pub record ReportDetail : Type 0 where
  pub summary : ReportSummary
  pub explanation : Text
  pub reviewed_at : Option ℕ
  pub reviewer_id : Option Text
  pub decision : Text
  pub moderator_notes : Text
  pub evidence : Option EvidenceDto

-- `SuspensionDays` is an `int`: 0 stands for it where it is negative, since `days <= 0` is all that
-- the source reads of it then.
pub record ResolveInput : Type 0 where
  pub decision : Text
  pub action_type : Text
  pub reason : Text
  pub moderator_notes : Text
  pub suspension_days : ℕ

pub record Notification : Type 0 where
  pub id : Text
  pub recipient_id : Text
  pub kind : Text
  pub payload : Map Text
  pub dedupe_key : Text
  pub read_at : Option ℕ
  pub created_at : ℕ

pub record NotificationDto : Type 0 where
  pub id : Text
  pub kind : Text
  pub payload : Map Text
  pub read : Bool
  pub created_at : ℕ

-- `InMemoryRepository`; `fail_hook` is its hook for tests, a function of the stage.
pub record Repository : Type 0 where
  pub reports : Map Report
  pub evidence : Map Evidence
  pub actions : List ModerationAction
  pub notifications : Map Notification
  pub dedupe : Map Text
  pub fail_hook : Option (Text → Option ModerationError)

abbrev pub new_repository : Repository
new_repository = record {
  reports = [];
  evidence = [];
  actions = [];
  notifications = [];
  dedupe = [];
  fail_hook = none;
}

pub record MessageEvidence : Type 0 where
  pub message_id : Text
  pub conversation_id : Text
  pub sender_id : Text
  pub participant_ids : List Text
  pub text : Text
  pub created_at : ℕ

pub record UserView : Type 0 where
  pub id : Text
  pub role : Text
  pub is_admin : Bool

-- What an operation on the other components answers, which keep their own state `X`.
abbrev pub Effect : Type 0 → Type 0
Effect X = X → Option ModerationError × X

pub record ResolveWrite (X : Type 0) : Type 0 where
  pub report : Report
  pub action : ModerationAction
  pub action_type : Text
  pub suspend_until : Option ℕ
  pub notification : Option Notification
  pub volatile_apply : Option (Effect X)

pub record UserAdmin (X : Type 0) : Type 0 where
  pub user_by_id : Text → X → Result ModerationError UserView
  pub suspend : Text → Option ℕ → Text → Effect X
  pub ban : Text → Text → Effect X

-- `add_days` is `AddDate(0, 0, days)` and `format_time` the format RFC 3339, both of package time.
pub record Service (X : Type 0) : Type 0 where
  pub messages : Option (Text → Text → X → Result ModerationError MessageEvidence)
  pub remover : Option (Text → Text → Effect X)
  pub users : UserAdmin X
  pub add_days : ℕ → ℕ → ℕ
  pub format_time : ℕ → Text

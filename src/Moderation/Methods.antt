-- ===== src/Moderation/Methods.antt =====
-- moderation/service.go. A new uuid, and the time, are arguments.
use finance_app.Base.{ℕ, Bool, false, not, Option, none, some, List, [], if◌then◌else◌, any_of, map}
use finance_app.Base.Text.{Text, codes, text_eq, trim_space}
use finance_app.Base.Result.{Result, ok, err}
use finance_app.Errors.{ModerationError}
use finance_app.Moderation.Category
use finance_app.Moderation.Status
use finance_app.Moderation.Defs.{
  Report, Evidence, EvidenceDto, Repository, ReportResponse, ReportSummary, ReportDetail, Service,
  MessageEvidence,
}
use finance_app.Moderation.Store

unfoldable pub is_valid_category : Text → Bool
is_valid_category category = any_of (text_eq category) Category.valid

abbrev pub response_of : Result ModerationError Report → Result ModerationError ReportResponse
response_of (err e) = err e
response_of (ok rep) = ok (record { report_id = rep.id; status = rep.status })

-- The report that both operations file; the fields they leave out are zero.
abbrev pub new_report : ℕ → Text → Text → Text → Option Text → Text → Text → Report
new_report now id reporter reported message category explanation = record {
  id = id;
  reporter_user_id = reporter;
  reported_user_id = reported;
  reporter_deleted = false;
  reported_deleted = false;
  reporter_subject_id = [];
  reported_subject_id = [];
  message_id = message;
  category = category;
  explanation = trim_space explanation;
  status = Status.status_open;
  created_at = now;
  reviewed_at = none;
  reviewer_id = none;
  decision = [];
  moderator_notes = [];
}

unfoldable pub report_user :
    ℕ
    → Text
    → Text
    → Text
    → Text
    → Text
    → Repository
    → Result ModerationError ReportResponse × Repository
report_user now id reporter reported category explanation r =
    if text_eq reporter reported
    then (err ModerationError.self_report, r)
    else if not (is_valid_category category)
    then (err ModerationError.invalid_category, r)
    else (let (out, r') =
          Store.create_user_report (new_report now id reporter reported none category explanation)
            r in
        (response_of out, r'))

-- The snapshot of the reported message.
abbrev pub evidence_of : Text → Text → Text → ℕ → MessageEvidence → Evidence
evidence_of id report_id message now m = record {
  id = id;
  report_id = report_id;
  message_id = some message;
  conversation_id = some m.conversation_id;
  sender_id = some m.sender_id;
  participant_ids = m.participant_ids;
  sender_subject_id = [];
  participant_subject_ids = [];
  conversation_subject_id = [];
  message_text = some m.text;
  message_created_at = some m.created_at;
  report_created_at = now;
}

abbrev pub displayed_user_id : Text → Bool → Text
displayed_user_id id deleted = if deleted then codes "Deleted account" else id

unfoldable pub summary_from_report : Report → ReportSummary
summary_from_report rep = record {
  id = rep.id;
  reporter_user_id = displayed_user_id rep.reporter_user_id rep.reporter_deleted;
  reported_user_id = displayed_user_id rep.reported_user_id rep.reported_deleted;
  message_id = rep.message_id;
  category = rep.category;
  status = rep.status;
  created_at = rep.created_at;
}

unfoldable pub list_reports : Text → Repository → List ReportSummary
list_reports status r = map summary_from_report (Store.list_reports status r)

-- A pointer that is read where it is set.
abbrev pub or_else : Text → Option Text → Text
or_else d none = d
or_else d (some a) = a

unfoldable pub evidence_dto : Evidence → EvidenceDto
evidence_dto e = record {
  message_text = or_else [] e.message_text;
  message_created_at = e.message_created_at;
  conversation_id = or_else e.conversation_subject_id e.conversation_id;
  sender_id = or_else e.sender_subject_id e.sender_id;
}

unfoldable pub get_report_detail : Text → Repository → Result ModerationError ReportDetail
get_report_detail id r = elim (Store.get_report id r) [
  | err _ ↦ err ModerationError.not_found
  | ok rep ↦ ok (record {
    summary = summary_from_report rep;
    explanation = rep.explanation;
    reviewed_at = rep.reviewed_at;
    reviewer_id = rep.reviewer_id;
    decision = rep.decision;
    moderator_notes = rep.moderator_notes;
    evidence = elim (Store.get_evidence rep.id r) [ none ↦ none | some e ↦ some (evidence_dto e) ];
  })
]

module _ {X : Type 0} where
  unfoldable pub report_message :
      Service X
      → ℕ
      → Text
      → Text
      → Text
      → Text
      → Text
      → Text
      → Repository
      → X
      → Result ModerationError ReportResponse × Repository
  report_message svc now id evidence_id reporter message category explanation r x =
      if not (is_valid_category category)
      then (err ModerationError.invalid_category, r)
      else elim svc.messages [
        | none ↦ (err ModerationError.message_not_accessible, r)
        | some message_for_report ↦ elim (message_for_report reporter message x) [
          | err _ ↦ (err ModerationError.message_not_accessible, r)
          | ok m ↦
              if text_eq m.sender_id reporter
              then (err ModerationError.self_report, r)
              else (let (out, r') =
                    Store.create_message_report
                      (new_report now id reporter m.sender_id (some message) category explanation)
                      (evidence_of evidence_id id message now m) r in
                  (response_of out, r'))
        ]
      ]

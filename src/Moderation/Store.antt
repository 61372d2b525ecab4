-- ===== src/Moderation/Store.antt =====
-- moderation/memory_repository.go: each operation holds the one mutex from its start to its end.
use finance_app.Base.{
  Bool, true, false, ◌&&◌, ◌||◌, Option, none, some, List, [], ◌∷◌, ◌++◌, if◌then◌else◌, ltb,
  any_of, keep_if,
}
use finance_app.Base.Text.{Text, codes, text_eq}
use finance_app.Base.Assoc.{lookup, insert, values}
use finance_app.Base.Result.{Result, ok, err}
use finance_app.Errors.{ModerationError}
use finance_app.Moderation.Status
use finance_app.Moderation.Defs.{Report, Evidence, Notification, Repository, ResolveWrite}

unfoldable pub fail : Repository → Text → Option ModerationError
fail r stage = elim r.fail_hook [ none ↦ none | some hook ↦ hook stage ]

abbrev pub same_ptr : Option Text → Option Text → Bool
same_ptr none none = true
same_ptr none (some _) = false
same_ptr (some _) none = false
same_ptr (some a) (some b) = text_eq a b

-- `status == StatusOpen || status == StatusUnderReview`
unfoldable pub is_pending : Text → Bool
is_pending status = text_eq status Status.status_open || text_eq status Status.under_review

unfoldable pub is_resolved : Text → Bool
is_resolved status =
    text_eq status Status.resolved_action_taken || text_eq status Status.resolved_no_action

-- What the loop of `hasOpenDuplicateLocked` looks for.
abbrev pub is_duplicate : Text → Text → Option Text → Report → Bool
is_duplicate reporter reported message rep =
    is_pending rep.status
    && text_eq rep.reporter_user_id reporter
    && text_eq rep.reported_user_id reported
    && same_ptr rep.message_id message

unfoldable pub has_open_duplicate : Text → Text → Option Text → Repository → Bool
has_open_duplicate reporter reported message r =
    any_of (is_duplicate reporter reported message) (values r.reports)

unfoldable pub create_user_report : Report → Repository → Result ModerationError Report × Repository
create_user_report rep r = elim (fail r (codes "duplicate_check")) [
  | some e ↦ (err e, r)
  | none ↦
      if has_open_duplicate rep.reporter_user_id rep.reported_user_id rep.message_id r
      then (err ModerationError.duplicate_report, r)
      else elim (fail r (codes "report_insert")) [
        | some e ↦ (err e, r)
        | none ↦ (ok rep, record r { reports = insert rep.id rep r.reports })
      ]
]

unfoldable pub create_message_report :
    Report → Evidence → Repository → Result ModerationError Report × Repository
create_message_report rep ev r = elim (fail r (codes "duplicate_check")) [
  | some e ↦ (err e, r)
  | none ↦
      if has_open_duplicate rep.reporter_user_id rep.reported_user_id rep.message_id r
      then (err ModerationError.duplicate_report, r)
      else elim (fail r (codes "report_insert")) [
        | some e ↦ (err e, r)
        | none ↦ elim (fail r (codes "evidence_insert")) [
          | some e ↦ (err e, r)
          | none ↦ (
            ok rep,
            record r {
              reports = insert rep.id rep r.reports;
              evidence = insert rep.id ev r.evidence;
            },
          )
        ]
      ]
]

unfoldable pub get_report : Text → Repository → Result ModerationError Report
get_report id r = elim (lookup id r.reports) [
  | none ↦ err ModerationError.not_found
  | some rep ↦ ok rep
]

-- `sort.Slice` by `CreatedAt.After`, newest first.
unfoldable pub insert_newest : Report → List Report → List Report
insert_newest f [] = f ∷ []
insert_newest f (g ∷ gs) =
    let rest = insert_newest f gs in if ltb f.created_at g.created_at then g ∷ rest else f ∷ g ∷ gs

unfoldable pub sort_newest : List Report → List Report
sort_newest [] = []
sort_newest (f ∷ fs) = insert_newest f (sort_newest fs)

unfoldable pub list_reports : Text → Repository → List Report
unfolding sort_newest insert_newest
list_reports status r =
    sort_newest (
      keep_if (λ (rep : Report). text_eq status [] || text_eq rep.status status) (values r.reports))

unfoldable pub get_evidence : Text → Repository → Option Evidence
get_evidence report_id r = lookup report_id r.evidence

-- `r.RecipientID + "|" + n.DedupeKey`
unfoldable pub notification_key : Notification → Text
notification_key n = n.recipient_id ++ codes "|" ++ n.dedupe_key

-- `if n.ID == "" { n.ID = uuid.NewString() }`
abbrev pub with_id : Text → Notification → Notification
with_id fresh n = if text_eq n.id [] then record n { id = fresh } else n

-- The write of a notification, once per key; `fresh` is the new uuid.
unfoldable pub create_notification : Text → Notification → Repository → Repository
create_notification fresh n r = elim (lookup (notification_key n) r.dedupe) [
  | some _ ↦ r
  | none ↦
      (let n' = with_id fresh n in
        record r {
          notifications = insert n'.id n' r.notifications;
          dedupe = insert (notification_key n) n'.id r.dedupe;
        })
]

abbrev pub notified : Text → Option Notification → Repository → Repository
notified fresh none r = r
notified fresh (some n) r = create_notification fresh n r

module _ {X : Type 0} where
  -- All mutations of a resolution together, once every check has passed.
  unfoldable pub publish : Text → ResolveWrite X → Repository → Repository
  publish fresh write r =
      let r1 = (record r { actions = r.actions ++ (write.action ∷ []) }) in
      let r2 = notified fresh write.notification r1 in
      record r2 { reports = insert write.report.id write.report r2.reports }

  -- The stage of the notification is passed where there is none.
  unfoldable pub notification_stage : ResolveWrite X → Repository → Option ModerationError
  notification_stage write r = elim write.notification [
    | none ↦ none
    | some _ ↦ fail r (codes "notification_insert")
  ]

  unfoldable pub apply_stage : ResolveWrite X → Repository → X → Option ModerationError × X
  apply_stage write r x = elim write.volatile_apply [
    | none ↦ (none, x)
    | some apply ↦ elim (fail r (codes "external_apply")) [ some e ↦ (some e, x) | none ↦ apply x ]
  ]

  unfoldable pub write_resolution :
      Text
      → ResolveWrite X
      → Repository
      → X
      → Result ModerationError (Report × Bool) × Repository × X
  write_resolution fresh write r x = elim (fail r (codes "action_insert")) [
    | some e ↦ (err e, r, x)
    | none ↦ elim (notification_stage write r) [
      | some e ↦ (err e, r, x)
      | none ↦ elim (fail r (codes "report_update")) [
        | some e ↦ (err e, r, x)
        | none ↦
            (let (e, x') = apply_stage write r x in
              elim e [
                | some e ↦ (err e, r, x')
                | none ↦ (ok (write.report, true), publish fresh write r, x')
              ])
      ]
    ]
  ]

  -- `ResolveReport` with its builder.
  unfoldable pub resolve_report :
      Text
      → Text
      → (Report → Result ModerationError (ResolveWrite X))
      → Repository
      → X
      → Result ModerationError (Report × Bool) × Repository × X
  resolve_report fresh report_id build r x = elim (lookup report_id r.reports) [
    | none ↦ (err ModerationError.not_found, r, x)
    | some current ↦
        if is_resolved current.status then (ok (current, false), r, x) else elim (build current) [
          | err e ↦ (err e, r, x)
          | ok write ↦ write_resolution fresh write r x
        ]
  ]

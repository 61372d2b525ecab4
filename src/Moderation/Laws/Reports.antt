-- ===== src/Moderation/Laws/Reports.antt =====
-- Reports and resolutions in any order: the calls of the service, and runs of them.
use finance_app.Base.{
  ℕ, ◌≡◌, true, Option, none, some, List, [], ◌∷◌, ◌≤◌, arith, inl, inr, Bool-cases, Option-cases,
}
use finance_app.Base.Text.{Text}
use finance_app.Base.Assoc.{Map, lookup}
use finance_app.Base.Result.{Result-cases}
use finance_app.Errors.{ModerationError}
use finance_app.Moderation.{Report, Repository, Service, ResolveInput, UserView, new_repository}
use finance_app.Moderation.Store
use finance_app.Moderation.Store.{
  is_pending, is_resolved, is_duplicate, publish, write_resolution, get_report, create_notification,
}
use finance_app.Moderation.Methods.{report_user, report_message, new_report, evidence_of}
use finance_app.Moderation.Resolving.{
  Verdict, Uuids, build, finish_resolve, resolve_report, updated_report, resolve_write, notify,
}
use finance_app.Moderation.Inbox
use finance_app.Moderation.Run.{Call, step, run}
use finance_app.Moderation.Laws.Pending.{
  pending_count, count_if-insert, create_user_report-pending, create_message_report-pending,
  resolved-pending,
}
use finance_app.Moderation.Laws.Resolution.{verdict-resolved, write_resolution_lem, publish-reports}
use finance_app.Moderation.Laws.Decisions.{
  resolve_report_missing, resolve_report_resolved, resolve_report_cases,
}

module _ {X : Type 0} (svc : Service X) where
  report_user-pending :
      (a b : Text) (m : Option Text) (now : ℕ) (id reporter reported category explanation : Text)
      (r : Repository)
      → pending_count a b m r ≤ 1
      → pending_count a b m (report_user now id reporter reported category explanation r).1 ≤ 1
  unfolding report_user
  report_user-pending a b m now id reporter reported category explanation r h = ground (
    arith,
    create_user_report-pending a b m (new_report now id reporter reported none category explanation)
        r,
  )

  report_message-pending :
      (a b : Text) (m : Option Text) (now : ℕ)
      (id evidence_id reporter message category explanation : Text) (r : Repository) (x : X)
      → pending_count a b m r ≤ 1
      → pending_count a b m
          (report_message svc now id evidence_id reporter message category explanation r x).1
        ≤ 1
  unfolding report_message
  report_message-pending a b m now id evidence_id reporter message category explanation r x h =
      elim (Option-cases svc.messages) [
        | inl q ↦ ground arith
        | inr (f, q) ↦ elim (Result-cases (f reporter message x)) [
          | inl (e, p) ↦ ground (
            arith,
            create_message_report-pending a b m
                (new_report now id reporter e.sender_id (some message) category explanation)
                (evidence_of evidence_id id message now e) r,
          )
          | inr (e, p) ↦ ground arith
        ]
      ]

  finish_resolve-pending :
      (a b : Text) (m : Option Text) (now : ℕ) (ids : Uuids) (moderator id : Text) (v : Verdict)
      (input : ResolveInput) (r : Repository) (x : X) {rep : Report}
      → lookup id r.reports ≡ some rep
      → is_resolved v.status ≡ true
      → pending_count a b m r ≤ 1
      → pending_count a b m (finish_resolve svc now ids moderator id v input r x).1 ≤ 1
  unfolding finish_resolve Store.resolve_report build pending_count
  finish_resolve-pending a b m now ids moderator id v input r x {rep} found done h =
      let w = resolve_write svc now ids moderator v input rep in
      ground (
        arith,
        write_resolution_lem ids.fresh w r x,
        publish-reports ids.fresh w r,
        count_if-insert (is_duplicate a b m) rep.id (updated_report now moderator v input rep)
            r.reports,
        resolved-pending v.status,
      )

  resolve_report-pending :
      (a b : Text) (m : Option Text) (now : ℕ) (ids : Uuids) (moderator : Text) (actor : UserView)
      (id : Text) (input : ResolveInput) (r : Repository) (x : X)
      → pending_count a b m r ≤ 1
      → pending_count a b m (resolve_report svc now ids moderator actor id input r x).1 ≤ 1
  resolve_report-pending a b m now ids moderator actor id input r x h =
      elim (Option-cases (lookup id r.reports)) [
        | inl missing ↦
            rw (resolve_report_missing svc now ids moderator actor id input r x missing) h
        | inr (rep, found) ↦ elim (Bool-cases (is_resolved rep.status)) [
          | inl done ↦
              rw (resolve_report_resolved svc now ids moderator actor id input r x found done) h
          | inr pending ↦
              elim (resolve_report_cases svc now ids moderator actor id input r x found pending) [
                | inl (e, q) ↦ rw q h
                | inr (v, known, allowed, q) ↦ rw q (
                    finish_resolve-pending a b m now ids moderator id v input r x found
                      (verdict-resolved input v known) h)
              ]
        ]
      ]

notify-pending :
    (a b : Text) (m : Option Text) (now : ℕ) (id recipient kind key : Text) (payload : Map Text)
    (r : Repository)
    → pending_count a b m r ≤ 1
    → pending_count a b m (notify now id recipient kind key payload r) ≤ 1
unfolding notify create_notification pending_count
notify-pending a b m now id recipient kind key payload r h = ground arith

mark_read-pending :
    (a b : Text) (m : Option Text) (now : ℕ) (recipient id : Text) (r : Repository)
    → pending_count a b m r ≤ 1
    → pending_count a b m (Inbox.mark_notification_read now recipient id r).1 ≤ 1
unfolding Inbox.mark_notification_read pending_count
mark_read-pending a b m now recipient id r h = ground arith

module _ {X : Type 0} (svc : Service X) where
  step-pending :
      (a b : Text) (m : Option Text) (c : Call) (s : Repository × X)
      → pending_count a b m s.0 ≤ 1
      → pending_count a b m (step svc c s).0 ≤ 1
  unfolding step Inbox.mark_all_notifications_read pending_count
  step-pending a b m (Call.report_user now id reporter reported category explanation) (r, x) h =
      report_user-pending svc a b m now id reporter reported category explanation r h
  step-pending a b m (Call.report_message now id ev reporter message category explanation) (r, x)
        h =
      report_message-pending svc a b m now id ev reporter message category explanation r x h
  step-pending a b m (Call.resolve now ids moderator actor id input) (r, x) h =
      resolve_report-pending svc a b m now ids moderator actor id input r x h
  step-pending a b m (Call.notify now id recipient kind key payload) (r, x) h =
      notify-pending a b m now id recipient kind key payload r h
  step-pending a b m (Call.mark_read now recipient id) (r, x) h =
      mark_read-pending a b m now recipient id r h
  step-pending a b m (Call.mark_all_read now recipient) (r, x) h = h

  run-pending :
      (a b : Text) (m : Option Text) (cs : List Call) (s : Repository × X)
      → pending_count a b m s.0 ≤ 1
      → pending_count a b m (run svc cs s).0 ≤ 1
  unfolding run
  run-pending a b m [] s h = h
  run-pending a b m (c ∷ cs) s h = run-pending a b m cs (step svc c s) (step-pending a b m c s h)

  -- After any calls from an empty repository, in any order, whatever stages of writes fail, a
  -- reporter has at most one pending report on a user, and at most one on a user and a message.
  pub one_pending_report :
      (a b : Text) (m : Option Text) (cs : List Call) (x : X)
      (hook : Option (Text → Option ModerationError))
      → pending_count a b m (run svc cs (record new_repository { fail_hook = hook }, x)).0 ≤ 1
  unfolding pending_count
  one_pending_report a b m cs x hook =
      run-pending a b m cs (record new_repository { fail_hook = hook }, x) (omega arith)

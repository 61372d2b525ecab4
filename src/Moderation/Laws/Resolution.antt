-- ===== src/Moderation/Laws/Resolution.antt =====
-- What a resolution writes.
use finance_app.Base.{
  ℕ, ◌≡◌, refl, ap, true, false, Option, none, some, [], ◌∷◌, ◌++◌, if◌then◌else◌, arith,
}
use finance_app.Base.Text.{Text, text_eq_iff}
use finance_app.Base.Assoc.{lookup, insert, lookup-insert}
use finance_app.Base.Result.{ok, err, is_ok}
use finance_app.Errors.{ModerationError}
use finance_app.Moderation.{
  Report, Notification, Repository, ReportDetail, Service, ResolveWrite, ResolveInput,
}
use finance_app.Moderation.Status
use finance_app.Moderation.Store
use finance_app.Moderation.Store.{
  is_pending, is_resolved, publish, notified, write_resolution, fail, notification_stage,
  apply_stage, get_report, create_notification,
}
use finance_app.Moderation.Methods.{get_report_detail}
use finance_app.Moderation.Resolving.{
  Verdict, Uuids, verdict, build, finish_resolve, updated_report, audit_record, resolve_write,
  suspend_until,
}
use finance_app.Moderation.Laws.Pending.{notified-reports}

notified-actions :
    (fresh : Text) (n : Option Notification) (r : Repository)
    → (notified fresh n r).actions ≡ r.actions
unfolding create_notification
notified-actions fresh none r = refl
notified-actions fresh (some n) r = ground arith

pub verdict-resolved :
    (input : ResolveInput) (v : Verdict) → verdict input ≡ ok v → is_resolved v.status ≡ true
unfolding verdict is_resolved
verdict-resolved input v h = ground (
  arith,
  text_eq_iff Status.resolved_action_taken Status.resolved_action_taken,
  text_eq_iff Status.resolved_no_action Status.resolved_no_action,
)

module _ {X : Type 0} where
  -- The write is all or nothing.
  pub write_resolution_lem :
      (fresh : Text) (write : ResolveWrite X) (r : Repository) (x : X)
      → (write_resolution fresh write r x).1
        ≡ (if is_ok (write_resolution fresh write r x).0 then publish fresh write r else r)
  unfolding write_resolution
  write_resolution_lem fresh write r x = ground arith

  pub publish-reports :
      (fresh : Text) (write : ResolveWrite X) (r : Repository)
      → (publish fresh write r).reports ≡ insert write.report.id write.report r.reports
  unfolding publish
  publish-reports fresh write r = ap (insert write.report.id write.report) (
      notified-reports fresh write.notification
        (record r { actions = r.actions ++ (write.action ∷ []) }))

  publish-actions :
      (fresh : Text) (write : ResolveWrite X) (r : Repository)
      → (publish fresh write r).actions ≡ r.actions ++ (write.action ∷ [])
  unfolding publish
  publish-actions fresh write r =
      notified-actions fresh write.notification
        (record r { actions = r.actions ++ (write.action ∷ []) })

module _ {X : Type 0} (svc : Service X) where
  -- What a resolution that applies its verdict has written.
  abbrev pub Resolved :
      ℕ → Uuids → Text → Verdict → ResolveInput → Report → Repository → Repository → Type 0
  Resolved now ids moderator v input rep r r' =
      (r'.actions
        ≡ r.actions
          ++ (audit_record now ids moderator v input (suspend_until svc now v input) rep ∷ []))
      × (r'.reports ≡ insert rep.id (updated_report now moderator v input rep) r.reports)

  pub finish_resolve-ok :
      (now : ℕ) (ids : Uuids) (moderator id : Text) (v : Verdict) (input : ResolveInput)
      (r : Repository) (x : X) {rep : Report} {d : ReportDetail}
      → lookup id r.reports ≡ some rep
      → is_resolved rep.status ≡ false
      → (finish_resolve svc now ids moderator id v input r x).0 ≡ ok d
      → Resolved now ids moderator v input rep r
          (finish_resolve svc now ids moderator id v input r x).1
  unfolding finish_resolve Store.resolve_report build
  finish_resolve-ok now ids moderator id v input r x {rep} found pending h =
      let w = resolve_write svc now ids moderator v input rep in
      ground (
        arith,
        write_resolution_lem ids.fresh w r x,
        publish-reports ids.fresh w r,
        publish-actions ids.fresh w r,
      )

  pub finish_resolve-err :
      (now : ℕ) (ids : Uuids) (moderator id : Text) (v : Verdict) (input : ResolveInput)
      (r : Repository) (x : X) {rep : Report} {e : ModerationError}
      → lookup id r.reports ≡ some rep
      → rep.id ≡ id
      → is_resolved rep.status ≡ false
      → (finish_resolve svc now ids moderator id v input r x).0 ≡ err e
      → (finish_resolve svc now ids moderator id v input r x).1 ≡ r
  unfolding finish_resolve Store.resolve_report build get_report_detail get_report
  finish_resolve-err now ids moderator id v input r x {rep} found keyed pending h =
      let w = resolve_write svc now ids moderator v input rep in
      ground (
        arith,
        write_resolution_lem ids.fresh w r x,
        publish-reports ids.fresh w r,
        lookup-insert rep.id id (updated_report now moderator v input rep) r.reports,
        text_eq_iff rep.id id,
      )

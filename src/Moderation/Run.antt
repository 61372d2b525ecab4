-- ===== src/Moderation/Run.antt =====
-- Runs of the calls of the moderation service that write, in the order of the repository's lock.
use finance_app.Base.{ℕ, List, [], ◌∷◌}
use finance_app.Base.Text.{Text}
use finance_app.Base.Assoc.{Map}
use finance_app.Moderation.Defs.{Repository, Service, ResolveInput, UserView}
use finance_app.Moderation.Inbox
use finance_app.Moderation.Methods
use finance_app.Moderation.Resolving
use finance_app.Moderation.Resolving.{Uuids}

-- The calls of the service that write, each with its time and its new uuids.
pub data Call : Type 0 where
  -- time, id, reporter, reported, category, explanation
  report_user : ℕ → Text → Text → Text → Text → Text → Call
  -- time, id, evidence id, reporter, message, category, explanation
  report_message : ℕ → Text → Text → Text → Text → Text → Text → Call
  resolve : ℕ → Uuids → Text → UserView → Text → ResolveInput → Call
  -- time, id, recipient, kind, key, payload
  notify : ℕ → Text → Text → Text → Text → Map Text → Call
  -- time, recipient, id
  mark_read : ℕ → Text → Text → Call
  mark_all_read : ℕ → Text → Call

module _ {X : Type 0} (svc : Service X) where
  unfoldable pub step : Call → Repository × X → Repository × X
  step (report_user now id reporter reported category explanation) (r, x) =
      ((Methods.report_user now id reporter reported category explanation r).1, x)
  step (report_message now id evidence_id reporter message category explanation) (r, x) = (
    (Methods.report_message svc now id evidence_id reporter message category explanation r x).1,
    x,
  )
  step (resolve now ids moderator actor id input) (r, x) =
      let (out, r', x') = Resolving.resolve_report svc now ids moderator actor id input r x in
      (r', x')
  step (notify now id recipient kind key payload) (r, x) =
      (Resolving.notify now id recipient kind key payload r, x)
  step (mark_read now recipient id) (r, x) =
      ((Inbox.mark_notification_read now recipient id r).1, x)
  step (mark_all_read now recipient) (r, x) = (Inbox.mark_all_notifications_read now recipient r, x)

  unfoldable pub run : List Call → Repository × X → Repository × X
  unfolding step
  run [] s = s
  run (c ∷ cs) s = run cs (step c s)

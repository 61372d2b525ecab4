-- ===== src/Moderation/Resolving.antt =====
-- moderation/service.go: `ResolveReport` and the notifications.
use finance_app.Base.{
  ℕ, Bool, false, not, ◌&&◌, ◌||◌, Option, none, some, List, [], ◌∷◌, ◌++◌, if◌then◌else◌, is_some,
  any_of, ◌==◌, map,
}
use finance_app.Base.Text.{Text, codes, text_eq, trim_space}
use finance_app.Base.Assoc.{Map}
use finance_app.Base.Result.{Result, ok, err}
use finance_app.Errors.{ModerationError}
use finance_app.Moderation.Action
use finance_app.Moderation.Status
use finance_app.Moderation.Defs.{
  Report, ModerationAction, Notification, NotificationDto, Repository, ReportDetail, ResolveInput,
  ResolveWrite, Service, UserView, Effect,
}
use finance_app.Moderation.Store
use finance_app.Moderation.Inbox
use finance_app.Moderation.Methods.{get_report_detail}

-- What the switch on `in.Decision` sets: the status, the decision and the action type.
pub record Verdict : Type 0 where
  pub status : Text
  pub decision : Text
  pub action_type : Text

unfoldable pub verdict : ResolveInput → Result ModerationError Verdict
verdict input =
    if text_eq input.decision (codes "action_taken")
    then if not (any_of (text_eq input.action_type) Action.valid)
        || text_eq input.action_type Action.no_action
      then err ModerationError.invalid_action
      else ok (record {
        status = Status.resolved_action_taken;
        decision = codes "action_taken";
        action_type = input.action_type;
      })
    else if text_eq input.decision (codes "no_action")
    then ok (record {
      status = Status.resolved_no_action;
      decision = codes "no_action";
      action_type = Action.no_action;
    })
    else err ModerationError.invalid_action

unfoldable pub action_requires_live_target : Text → Bool
action_requires_live_target action =
    text_eq action Action.warning
    || text_eq action Action.temporary_suspension
    || text_eq action Action.permanent_ban

-- `if days <= 0 { days = 3 }`
abbrev pub days_or_default : ℕ → ℕ
days_or_default days = if days == 0 then 3 else days

-- The new uuids of one resolution.
pub record Uuids : Type 0 where
  pub notification : Text
  pub action : Text
  pub fresh : Text

abbrev pub updated_report : ℕ → Text → Verdict → ResolveInput → Report → Report
updated_report now moderator v input current = record current {
  status = v.status;
  decision = v.decision;
  moderator_notes = trim_space input.moderator_notes;
  reviewed_at = some now;
  reviewer_id = some moderator;
}

abbrev pub audit_record :
    ℕ → Uuids → Text → Verdict → ResolveInput → Option ℕ → Report → ModerationAction
audit_record now ids moderator v input expires_at current = record {
  id = ids.action;
  moderator_id = moderator;
  target_user_id = current.reported_user_id;
  moderator_deleted = false;
  target_deleted = false;
  moderator_subject_id = [];
  target_subject_id = [];
  report_id = some current.id;
  action_type = v.action_type;
  reason = trim_space input.reason;
  created_at = now;
  expires_at = expires_at;
}

abbrev pub moderation_notification : ℕ → Uuids → Text → Map Text → Report → Notification
moderation_notification now ids kind payload current = record {
  id = ids.notification;
  recipient_id = current.reported_user_id;
  kind = kind;
  payload = payload;
  dedupe_key = codes "moderation:" ++ current.id;
  read_at = none;
  created_at = now;
}

module _ {X : Type 0} (svc : Service X) where
  unfoldable pub suspend_until : ℕ → Verdict → ResolveInput → Option ℕ
  suspend_until now v input =
      if text_eq v.action_type Action.temporary_suspension
      then some (svc.add_days now (days_or_default input.suspension_days))
      else none

  unfoldable pub resolution_notification :
      ℕ → Uuids → Verdict → ResolveInput → Report → Option Notification
  unfolding suspend_until
  resolution_notification now ids v input current =
      if text_eq v.action_type Action.warning
      then some (
          moderation_notification now ids (codes "moderation_warning")
            ((codes "reason", input.reason) ∷ []) current)
      else elim (suspend_until now v input) [
        | none ↦ none
        | some until ↦ some (
            moderation_notification now ids (codes "account_suspended")
              ((codes "reason", input.reason) ∷ (codes "until", svc.format_time until) ∷ [])
              current)
      ]

  -- `s.remover.RemoveMessage`, where there is a message and a remover.
  abbrev pub remove_content : Text → Option Text → Effect X
  remove_content moderator message x = elim message [
    | none ↦ (none, x)
    | some m ↦ elim svc.remover [ none ↦ (none, x) | some remove ↦ remove moderator m x ]
  ]

  unfoldable pub volatile_apply : Text → Option ℕ → Verdict → ResolveInput → Report → Effect X
  volatile_apply moderator until v input current x =
      if text_eq v.action_type Action.temporary_suspension
      then svc.users.suspend current.reported_user_id until input.reason x
      else if text_eq v.action_type Action.permanent_ban
      then svc.users.ban current.reported_user_id input.reason x
      else if text_eq v.action_type Action.content_removal
      then remove_content moderator current.message_id x
      else (none, x)

  abbrev pub resolve_write : ℕ → Uuids → Text → Verdict → ResolveInput → Report → ResolveWrite X
  resolve_write now ids moderator v input current =
      let until = suspend_until now v input in
      record {
        report = updated_report now moderator v input current;
        action = audit_record now ids moderator v input until current;
        action_type = v.action_type;
        suspend_until = until;
        notification = resolution_notification now ids v input current;
        volatile_apply = some (volatile_apply moderator until v input current);
      }

  unfoldable pub build :
      ℕ → Uuids → Text → Verdict → ResolveInput → Report → Result ModerationError (ResolveWrite X)
  build now ids moderator v input current =
      if current.reported_deleted && action_requires_live_target v.action_type
      then err ModerationError.not_found
      else ok (resolve_write now ids moderator v input current)

  -- The checks before the critical section, on the unlocked read of the report.
  unfoldable pub permitted : UserView → Verdict → Report → X → Result ModerationError (Unit {0})
  permitted actor v rep x =
      if not rep.reported_deleted
      then elim (svc.users.user_by_id rep.reported_user_id x) [
        | err e ↦ err e
        | ok target ↦
            if target.is_admin && not actor.is_admin
            then err ModerationError.moderation_forbidden
            else ok tt
      ]
      else if action_requires_live_target v.action_type
      then err ModerationError.not_found
      else ok tt

  -- The critical section, and the read after it.
  unfoldable pub finish_resolve :
      ℕ
      → Uuids
      → Text
      → Text
      → Verdict
      → ResolveInput
      → Repository
      → X
      → Result ModerationError ReportDetail × Repository × X
  finish_resolve now ids moderator report_id v input r x =
      let (out, r', x') =
        Store.resolve_report ids.fresh report_id (build now ids moderator v input) r x in
      elim out [ err e ↦ (err e, r', x') | ok _ ↦ (get_report_detail report_id r', r', x') ]

  unfoldable pub resolve_report :
      ℕ
      → Uuids
      → Text
      → UserView
      → Text
      → ResolveInput
      → Repository
      → X
      → Result ModerationError ReportDetail × Repository × X
  unfolding finish_resolve
  resolve_report now ids moderator actor report_id input r x = elim (Store.get_report report_id r) [
    | err _ ↦ (err ModerationError.not_found, r, x)
    | ok rep ↦
        if Store.is_resolved rep.status
        then (get_report_detail report_id r, r, x)
        else elim (verdict input) [
          | err e ↦ (err e, r, x)
          | ok v ↦ elim (permitted actor v rep x) [
            | err e ↦ (err e, r, x)
            | ok _ ↦ finish_resolve now ids moderator report_id v input r x
          ]
        ]
  ]

abbrev pub new_notification : ℕ → Text → Text → Text → Text → Map Text → Notification
new_notification now id recipient kind dedupe_key payload = record {
  id = id;
  recipient_id = recipient;
  kind = kind;
  payload = payload;
  dedupe_key = dedupe_key;
  read_at = none;
  created_at = now;
}

-- `Notify`; a uuid is never empty, so no other is made for it.
unfoldable pub notify : ℕ → Text → Text → Text → Text → Map Text → Repository → Repository
notify now id recipient kind dedupe_key payload r =
    Store.create_notification id (new_notification now id recipient kind dedupe_key payload) r

abbrev pub notification_dto : Notification → NotificationDto
notification_dto n = record {
  id = n.id;
  kind = n.kind;
  payload = n.payload;
  read = is_some n.read_at;
  created_at = n.created_at;
}

unfoldable pub notifications : Text → Repository → List NotificationDto
notifications recipient r = map notification_dto (Inbox.list_notifications recipient 50 r)

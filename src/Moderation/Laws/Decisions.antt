-- ===== src/Moderation/Laws/Decisions.antt =====
-- What the outcomes of a resolution mean.
use finance_app.Base.{ℕ, ◌≡◌, refl, sym, true, false, none, some, arith, inl, inr, Bool-cases, ◌⊎◌}
use finance_app.Base.Text.{Text, text_eq_iff}
use finance_app.Base.Assoc.{lookup, lookup-insert}
use finance_app.Base.Result.{ok, err, is_ok, Result-cases}
use finance_app.Errors.{ModerationError}
use finance_app.Moderation.{Report, Repository, ReportDetail, Service, ResolveInput, UserView}
use finance_app.Moderation.Store.{is_resolved, get_report}
use finance_app.Moderation.Methods.{get_report_detail}
use finance_app.Moderation.Resolving.{
  Verdict, Uuids, verdict, permitted, finish_resolve, resolve_report, updated_report,
}
use finance_app.Moderation.Laws.Resolution.{
  Resolved, finish_resolve-ok, finish_resolve-err, verdict-resolved,
}

module _ {X : Type 0} (svc : Service X) where
  pub resolve_report_resolved :
      (now : ℕ) (ids : Uuids) (moderator : Text) (actor : UserView) (id : Text)
      (input : ResolveInput) (r : Repository) (x : X) {rep : Report}
      → lookup id r.reports ≡ some rep
      → is_resolved rep.status ≡ true
      → resolve_report svc now ids moderator actor id input r x ≡ (get_report_detail id r, r, x)
  unfolding resolve_report get_report
  resolve_report_resolved now ids moderator actor id input r x found done = ground arith

  pub resolve_report_missing :
      (now : ℕ) (ids : Uuids) (moderator : Text) (actor : UserView) (id : Text)
      (input : ResolveInput) (r : Repository) (x : X)
      → lookup id r.reports ≡ none
      → resolve_report svc now ids moderator actor id input r x
        ≡ (err ModerationError.not_found, r, x)
  unfolding resolve_report get_report
  resolve_report_missing now ids moderator actor id input r x missing = ground arith

  pub resolve_report_cases :
      (now : ℕ) (ids : Uuids) (moderator : Text) (actor : UserView) (id : Text)
      (input : ResolveInput) (r : Repository) (x : X) {rep : Report}
      → lookup id r.reports ≡ some rep
      → is_resolved rep.status ≡ false
      → ((e : ModerationError) × (resolve_report svc now ids moderator actor id input r x
            ≡ (err e, r, x)))
        ⊎ ((v : Verdict) × (verdict input ≡ ok v)
            × (permitted svc actor v rep x ≡ ok tt)
            × (resolve_report svc now ids moderator actor id input r x
                ≡ finish_resolve svc now ids moderator id v input r x))
  unfolding resolve_report get_report
  resolve_report_cases now ids moderator actor id input r x {rep} found pending =
      elim (Result-cases (verdict input)) [
        | inr (e, q) ↦ inl (e, ground arith)
        | inl (v, q) ↦ elim (Result-cases (permitted svc actor v rep x)) [
          | inr (e, p) ↦ inl (e, ground arith)
          | inl (t, p) ↦ inr (v, q, p, ground arith)
        ]
      ]

  -- A resolution that answers an error has left the repository as it was, at whichever stage it
  -- failed, for a report that stands under its own id.
  pub resolve_report_failed :
      (now : ℕ) (ids : Uuids) (moderator : Text) (actor : UserView) (id : Text)
      (input : ResolveInput) (r : Repository) (x : X) {rep : Report} {e : ModerationError}
      → lookup id r.reports ≡ some rep
      → rep.id ≡ id
      → (resolve_report svc now ids moderator actor id input r x).0 ≡ err e
      → (resolve_report svc now ids moderator actor id input r x).1 ≡ r
  resolve_report_failed now ids moderator actor id input r x {rep} {e = e'} found keyed h =
      elim (Bool-cases (is_resolved rep.status)) [
        | inl done ↦
            rw (resolve_report_resolved now ids moderator actor id input r x found done) refl
        | inr pending ↦
            elim (resolve_report_cases now ids moderator actor id input r x found pending) [
              | inl (e, q) ↦ rw q refl
              | inr (v, known, allowed, q) ↦ rw q (
                  finish_resolve-err svc now ids moderator id v input r x {e = e'} found keyed
                    pending (rw (sym q) h))
            ]
      ]

  -- A resolution of a report that is not yet resolved and that answers no error had a valid
  -- decision and was permitted; it has appended one audit record, and written the report with its
  -- new status, the decision and the reviewer.
  resolve_report_writes :
      (now : ℕ) (ids : Uuids) (moderator : Text) (actor : UserView) (id : Text)
      (input : ResolveInput) (r : Repository) (x : X) {rep : Report} {d : ReportDetail}
      → lookup id r.reports ≡ some rep
      → is_resolved rep.status ≡ false
      → (resolve_report svc now ids moderator actor id input r x).0 ≡ ok d
      → (v : Verdict) × (verdict input ≡ ok v)
        × (permitted svc actor v rep x ≡ ok tt)
        × (is_resolved v.status ≡ true)
        × Resolved svc now ids moderator v input rep r
            (resolve_report svc now ids moderator actor id input r x).1
  resolve_report_writes now ids moderator actor id input r x {rep} {d = d'} found pending h =
      elim (resolve_report_cases now ids moderator actor id input r x found pending) [
        | inl (e, q) ↦ absurd (no_error e q)
        | inr (v, known, allowed, q) ↦ (
          v,
          known,
          allowed,
          verdict-resolved input v known,
          rw q (
              finish_resolve-ok svc now ids moderator id v input r x {d = d'} found pending
                (rw (sym q) h)),
        )
      ]
    where
      no_error :
          (e : ModerationError)
          → resolve_report svc now ids moderator actor id input r x ≡ (err e, r, x)
          → ⊥
      no_error e q = cc

  -- An account that is no admin never resolves a pending report on an existing admin, whatever its
  -- input: it gets an error, and neither the repository nor any account changes.
  pub admin_is_protected :
      (now : ℕ) (ids : Uuids) (moderator : Text) (actor : UserView) (id : Text)
      (input : ResolveInput) (r : Repository) (x : X) {rep : Report} {target : UserView}
      → lookup id r.reports ≡ some rep
      → is_resolved rep.status ≡ false
      → rep.reported_deleted ≡ false
      → svc.users.user_by_id rep.reported_user_id x ≡ ok target
      → target.is_admin ≡ true
      → actor.is_admin ≡ false
      → (is_ok (resolve_report svc now ids moderator actor id input r x).0 ≡ false)
        × ((resolve_report svc now ids moderator actor id input r x).1 ≡ r)
        × ((resolve_report svc now ids moderator actor id input r x).2 ≡ x)
  unfolding resolve_report get_report permitted
  admin_is_protected now ids moderator actor id input r x found pending live admin is rank =
      ground arith

  -- After a resolution that answers no error, of a report that stands under its own id, no later call
  -- resolves the report again: with any moderator, input and time it answers the report as it stands,
  -- and neither the repository nor any account changes.
  pub resolve_report_once :
      (now : ℕ) (ids : Uuids) (moderator : Text) (actor : UserView) (id : Text)
      (input : ResolveInput) (r : Repository) (x : X) {rep : Report} {d : ReportDetail} (later : ℕ)
      (ids' : Uuids) (moderator' : Text) (actor' : UserView) (input' : ResolveInput) (x' : X)
      → lookup id r.reports ≡ some rep
      → rep.id ≡ id
      → (resolve_report svc now ids moderator actor id input r x).0 ≡ ok d
      → let r' = (resolve_report svc now ids moderator actor id input r x).1 in
        resolve_report svc later ids' moderator' actor' id input' r' x'
        ≡ (get_report_detail id r', r', x')
  resolve_report_once now ids moderator actor id input r x {rep} later ids' moderator' actor' input'
        x' found keyed h =
      elim (Bool-cases (is_resolved rep.status)) [
        | inl done ↦
            rw (resolve_report_resolved now ids moderator actor id input r x found done)
              (resolve_report_resolved later ids' moderator' actor' id input' r x' found done)
        | inr pending ↦
            (let w = resolve_report_writes now ids moderator actor id input r x found pending h in
              let after = updated_report now moderator w.0 input rep in
              resolve_report_resolved later ids' moderator' actor' id input'
                (resolve_report svc now ids moderator actor id input r x).1 x' {rep = after}
                (ground
                  (arith, w.4.1, lookup-insert rep.id id after r.reports, text_eq_iff rep.id id))
                w.3)
      ]

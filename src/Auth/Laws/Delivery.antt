-- ===== src/Auth/Laws/Delivery.antt =====
-- The email outbox: a delivered message is never claimed again, a claim is exclusive while its lease
-- runs, and a message that is not delivered can be claimed again.
use finance_app.Base.{
  ℕ, zero, suc, ◌≤◌, ◌≡◌, refl, Bool, true, false, List, [], ◌∷◌, ◌++◌, if◌then◌else◌, ◌==◌, arith,
  is_some, all_of, any_of, count_if, All,
}
use finance_app.Base.Text.{Text, text_eq, text_eq_iff}
use finance_app.Base.Result.{ok}
use finance_app.Auth.Defs.{EmailOutboxMessage}
use finance_app.Auth.Repository.Defs.{Repository}
use finance_app.Auth.Repository.Accounts
use finance_app.Auth.Repository.Tokens
use finance_app.Auth.Repository.Outbox.{
  is_due, claim, claim_from, claim_id, write_first, delivered, failed, claim_email_outbox,
  claim_email_outbox_by_id, mark_email_outbox_delivered, mark_email_outbox_failed,
}
use finance_app.Auth.Repository.Run.{Call, step, run}

abbrev pub has_id : Text → EmailOutboxMessage → Bool
has_id id m = text_eq m.id id

-- Every message with this id has been delivered.
abbrev pub is_sent : Text → List EmailOutboxMessage → Bool
is_sent id = all_of λ m. if has_id id m then is_some m.delivered_at else true

claim_from-sent :
    (id : Text) (room now : ℕ) (ms : List EmailOutboxMessage)
    → is_sent id ms ≡ true
    → (is_sent id (claim_from room now ms).1 ≡ true)
      × (any_of (has_id id) (claim_from room now ms).0 ≡ false)
unfolding claim_from claim is_due
claim_from-sent id zero now ms h = (h, refl)
claim_from-sent id (suc room) now [] h = (refl, refl)
claim_from-sent id (suc room) now (m ∷ ms) h =
    ground (arith, claim_from-sent id room now ms, claim_from-sent id (suc room) now ms)

claim_id-sent :
    (id other : Text) (now : ℕ) (ms : List EmailOutboxMessage)
    → is_sent id ms ≡ true
    → (is_sent id (claim_id other now ms).1 ≡ true)
      × ((if text_eq other id then is_some (claim_id other now ms).0 else false) ≡ false)
unfolding claim_id claim is_due
claim_id-sent id other now [] h = ground arith
claim_id-sent id other now (m ∷ ms) h = ground (
  arith,
  claim_id-sent id other now ms,
  text_eq_iff other id,
  text_eq_iff m.id other,
  text_eq_iff m.id id,
)

write_first-sent :
    (id other : Text) (f : EmailOutboxMessage → EmailOutboxMessage) (ms : List EmailOutboxMessage)
    → ((m : EmailOutboxMessage) → (f m).id ≡ m.id)
    → ((m : EmailOutboxMessage)
        → (if is_some m.delivered_at then is_some (f m).delivered_at else true) ≡ true)
    → is_sent id ms ≡ true
    → is_sent id (write_first f other ms).1 ≡ true
unfolding write_first
write_first-sent id other f [] i d h = refl
write_first-sent id other f (m ∷ ms) i d h =
    ground (arith, i m, d m, write_first-sent id other f ms i d)

is_sent-append :
    (id : Text) (m : EmailOutboxMessage) (ms : List EmailOutboxMessage)
    → has_id id m ≡ false
    → is_sent id ms ≡ true
    → is_sent id (ms ++ (m ∷ [])) ≡ true
is_sent-append id m [] o h = ground arith
is_sent-append id m (n ∷ ms) o h = ground (arith, is_sent-append id m ms)

none_with-sent :
    (id : Text) (ms : List EmailOutboxMessage) → count_if (has_id id) ms ≡ 0 → is_sent id ms ≡ true
none_with-sent id [] h = refl
none_with-sent id (m ∷ ms) h = ground (arith, none_with-sent id ms)

delivered-sent :
    (id : Text) (at : ℕ) (ms : List EmailOutboxMessage)
    → count_if (has_id id) ms ≤ 1
    → is_sent id (write_first (delivered at) id ms).1 ≡ true
unfolding write_first delivered
delivered-sent id at [] c = refl
delivered-sent id at (m ∷ ms) c = ground (arith, delivered-sent id at ms, none_with-sent id ms)

-- A call that adds a message with this id.
abbrev pub adds_message : Text → Call → Bool
adds_message id (Call.create_with_verification _ _ email) = has_id id email
adds_message id _ = false

step-sent :
    (id : Text) (c : Call) (r : Repository)
    → adds_message id c ≡ false
    → is_sent id r.email_outbox ≡ true
    → is_sent id (step c r).email_outbox ≡ true
unfolding step Accounts.create Accounts.create_with_verification Accounts.create_provider_user
    Accounts.run_hooks Accounts.store_user Accounts.create_identity Accounts.update_password
    Accounts.update_password_and_revoke Accounts.increment_auth_version Accounts.set_role
    Accounts.suspend Accounts.ban Accounts.soft_delete Accounts.delete_account
    Tokens.verify_email_token Tokens.reset_password_token Tokens.save_email_verification_token
    Tokens.save_password_reset_token Tokens.save_reauthentication_token
    Tokens.consume_reauthentication_token claim_email_outbox claim_email_outbox_by_id
    mark_email_outbox_delivered mark_email_outbox_failed delivered failed
step-sent id (Call.create_with_verification u token email) r o h =
    ground (arith, is_sent-append id email r.email_outbox o h)
step-sent id (Call.claim_email_outbox limit now) r o h =
    (claim_from-sent id (if limit == 0 then 10 else limit) now r.email_outbox h).0
step-sent id (Call.claim_email_outbox_by_id now other) r o h =
    (claim_id-sent id other now r.email_outbox h).0
step-sent id (Call.mark_email_outbox_delivered at other) r o h = ground (
  arith,
  write_first-sent id other (delivered at) r.email_outbox (λ m. refl) (λ m. ground arith) h,
)
step-sent id (Call.mark_email_outbox_failed at other failure) r o h = ground (
  arith,
  write_first-sent id other (failed failure at) r.email_outbox (λ m. refl) (λ m. ground arith) h,
)
step-sent id _ r o h = ground arith

run-sent :
    (id : Text) (cs : List Call) (r : Repository)
    → All (λ c. adds_message id c ≡ false) cs
    → is_sent id r.email_outbox ≡ true
    → is_sent id (run cs r).email_outbox ≡ true
unfolding run
run-sent id [] r o h = h
run-sent id (c ∷ cs) r o h = run-sent id cs (step c r) o.1 (step-sent id c r o.0 h)

-- Once a message is marked as delivered, no claim of either kind gives it out again, whatever calls
-- of the repository come between, as long as its id is its own.
pub delivered_never_claimed :
    (id : Text) (at limit now : ℕ) (cs : List Call) (r : Repository)
    → count_if (has_id id) r.email_outbox ≤ 1
    → (mark_email_outbox_delivered id at r).0 ≡ ok tt
    → All (λ c. adds_message id c ≡ false) cs
    → let r' = run cs (mark_email_outbox_delivered id at r).1 in
      (any_of (has_id id) (claim_email_outbox limit now r').0 ≡ false)
      × (is_some (claim_email_outbox_by_id id now r').0 ≡ false)
unfolding mark_email_outbox_delivered claim_email_outbox claim_email_outbox_by_id
delivered_never_claimed id at limit now cs r alone done o =
    let marked = (mark_email_outbox_delivered id at r).1 in
    let first : is_sent id marked.email_outbox ≡ true =
      ground (arith, delivered-sent id at r.email_outbox alone) in
    let ms = (run cs marked).email_outbox in
    let sent = run-sent id cs marked o first in
    (
      (claim_from-sent id (if limit == 0 then 10 else limit) now ms sent).1,
      ground (arith, claim_id-sent id id now ms sent, text_eq_iff id id),
    )

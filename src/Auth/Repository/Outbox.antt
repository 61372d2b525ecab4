-- ===== src/Auth/Repository/Outbox.antt =====
-- The methods on the email outbox: claims with a lease, and what delivery writes back.
use finance_app.Base.{
  ℕ, ◌+◌, Bool, true, false, not, ◌&&◌, Option, none, some, List, [], ◌∷◌, if◌then◌else◌, ltb, ◌==◌,
  is_some, zero, suc,
}
use finance_app.Base.Text.{Text, text_eq}
use finance_app.Base.Result.{Result, ok, err}
use finance_app.Auth.Defs.{EmailOutboxMessage, AuthError, email_outbox_lease_ttl}
use finance_app.Auth.Repository.Defs.{Repository}

-- `message.ClaimedAt != nil && !leaseExpired`
unfoldable pub is_leased : ℕ → EmailOutboxMessage → Bool
is_leased now m = elim m.claimed_at [
  | none ↦ false
  | some t ↦ not (ltb (t + email_outbox_lease_ttl) now)
]

-- The first two tests of the `continue`.
unfoldable pub is_due : ℕ → EmailOutboxMessage → Bool
is_due now m = not (is_some m.delivered_at) && not (ltb now m.available_at)

unfoldable pub claim : ℕ → EmailOutboxMessage → EmailOutboxMessage
claim now m = record m { claimed_at = some now; attempts = m.attempts + 1 }

-- The loop of `ClaimEmailOutbox`, with the number of messages that may still be claimed.
unfoldable pub claim_from :
    ℕ → ℕ → List EmailOutboxMessage → List EmailOutboxMessage × List EmailOutboxMessage
claim_from zero now ms = ([], ms)
claim_from (suc room) now [] = ([], [])
claim_from (suc room) now (m ∷ ms) = elim (is_due now m && not (is_leased now m)) [
  | true ↦ (let rest = claim_from room now ms in (claim now m ∷ rest.0, claim now m ∷ rest.1))
  | false ↦ (let rest = claim_from (suc room) now ms in (rest.0, m ∷ rest.1))
]

unfoldable pub claim_email_outbox : ℕ → ℕ → Repository → List EmailOutboxMessage × Repository
claim_email_outbox limit now r =
    let (out, ms) = claim_from (if limit == 0 then 10 else limit) now r.email_outbox in
    (out, record r { email_outbox = ms })

-- The loop of `ClaimEmailOutboxByID`: it stops at a leased message and passes one that is not due.
unfoldable pub claim_id :
    Text → ℕ → List EmailOutboxMessage → Option EmailOutboxMessage × List EmailOutboxMessage
claim_id id now [] = (none, [])
claim_id id now (m ∷ ms) =
    let rest = claim_id id now ms in
    if text_eq m.id id && is_due now m
    then (if is_leased now m then (none, m ∷ ms) else (some (claim now m), claim now m ∷ ms))
    else (rest.0, m ∷ rest.1)

unfoldable pub claim_email_outbox_by_id :
    Text → ℕ → Repository → Option EmailOutboxMessage × Repository
claim_email_outbox_by_id id now r =
    let (out, ms) = claim_id id now r.email_outbox in (out, record r { email_outbox = ms })

-- The loops that write to the first message with an id.
unfoldable pub write_first :
    (EmailOutboxMessage → EmailOutboxMessage)
    → Text
    → List EmailOutboxMessage
    → Bool × List EmailOutboxMessage
write_first f id [] = (false, [])
write_first f id (m ∷ ms) =
    let rest = write_first f id ms in
    if text_eq m.id id then (true, f m ∷ ms) else (rest.0, m ∷ rest.1)

unfoldable pub delivered : ℕ → EmailOutboxMessage → EmailOutboxMessage
delivered at m = record m {
  delivered_at = some at;
  claimed_at = none;
  last_error = [];
  verification_url = [];
}

unfoldable pub failed : Text → ℕ → EmailOutboxMessage → EmailOutboxMessage
failed failure retry_at m = record m {
  claimed_at = none;
  available_at = retry_at;
  last_error = failure;
}

abbrev pub marked :
    Bool × List EmailOutboxMessage → Repository → Result AuthError (Unit {0}) × Repository
marked (found, ms) r =
    if found
    then (ok tt, record r { email_outbox = ms })
    else (err AuthError.email_outbox_not_found, r)

unfoldable pub mark_email_outbox_delivered :
    Text → ℕ → Repository → Result AuthError (Unit {0}) × Repository
mark_email_outbox_delivered id at r = marked (write_first (delivered at) id r.email_outbox) r

unfoldable pub mark_email_outbox_failed :
    Text → Text → ℕ → Repository → Result AuthError (Unit {0}) × Repository
mark_email_outbox_failed id failure retry_at r =
    marked (write_first (failed failure retry_at) id r.email_outbox) r

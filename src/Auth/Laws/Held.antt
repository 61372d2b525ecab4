-- ===== src/Auth/Laws/Held.antt =====
-- The lease of a message: what a claim gives is leased, and what the calls of the repository leave.
use finance_app.Base.{
  ℕ, zero, suc, ◌+◌, ◌≤◌, ◌≡◌, refl, Bool, true, false, not, none, some, List, [], ◌∷◌, ◌++◌,
  if◌then◌else◌, leb, ◌==◌, arith, is_some, all_of, any_of, count_if, All,
}
use finance_app.Base.Text.{Text, text_eq, text_eq_iff}
use finance_app.Auth.Defs.{EmailOutboxMessage, email_outbox_lease_ttl}
use finance_app.Auth.Repository.Defs.{Repository}
use finance_app.Auth.Repository.Accounts
use finance_app.Auth.Repository.Tokens
use finance_app.Auth.Repository.Outbox.{
  is_leased, claim, claim_from, claim_id, write_first, delivered, failed, claim_email_outbox,
  claim_email_outbox_by_id, mark_email_outbox_delivered, mark_email_outbox_failed,
}
use finance_app.Auth.Repository.Run.{Call, step, run}
use finance_app.Auth.Laws.Delivery.{has_id, adds_message}

-- Every message with this id is leased until the time, at least.
abbrev pub is_held : Text → ℕ → List EmailOutboxMessage → Bool
is_held id until = all_of λ m. if has_id id m then is_leased until m else true

is_leased-earlier :
    (until now : ℕ) (m : EmailOutboxMessage)
    → now ≤ until
    → is_leased until m ≡ true
    → is_leased now m ≡ true
unfolding is_leased
is_leased-earlier until now m l h = ground arith

pub claim_from-held :
    (id : Text) (until room now : ℕ) (ms : List EmailOutboxMessage)
    → now ≤ until
    → is_held id until ms ≡ true
    → (is_held id until (claim_from room now ms).1 ≡ true)
      × (any_of (has_id id) (claim_from room now ms).0 ≡ false)
unfolding claim_from claim
claim_from-held id until zero now ms l h = (h, refl)
claim_from-held id until (suc room) now [] l h = (refl, refl)
claim_from-held id until (suc room) now (m ∷ ms) l h = ground (
  arith,
  is_leased-earlier until now m l,
  claim_from-held id until room now ms l,
  claim_from-held id until (suc room) now ms l,
)

pub claim_id-held :
    (id other : Text) (until now : ℕ) (ms : List EmailOutboxMessage)
    → now ≤ until
    → is_held id until ms ≡ true
    → (is_held id until (claim_id other now ms).1 ≡ true)
      × ((if text_eq other id then is_some (claim_id other now ms).0 else false) ≡ false)
unfolding claim_id claim
claim_id-held id other until now [] l h = ground arith
claim_id-held id other until now (m ∷ ms) l h = ground (
  arith,
  is_leased-earlier until now m l,
  claim_id-held id other until now ms l,
  text_eq_iff other id,
  text_eq_iff m.id other,
  text_eq_iff m.id id,
)

write_first-held :
    (id other : Text) (until : ℕ) (f : EmailOutboxMessage → EmailOutboxMessage)
    (ms : List EmailOutboxMessage)
    → text_eq other id ≡ false
    → ((m : EmailOutboxMessage) → (f m).id ≡ m.id)
    → is_held id until ms ≡ true
    → is_held id until (write_first f other ms).1 ≡ true
unfolding write_first
write_first-held id other until f [] o i h = refl
write_first-held id other until f (m ∷ ms) o i h = ground (
  arith,
  i m,
  text_eq_iff m.id other,
  text_eq_iff other id,
  text_eq_iff m.id id,
  write_first-held id other until f ms o i,
)

is_held-append :
    (id : Text) (until : ℕ) (m : EmailOutboxMessage) (ms : List EmailOutboxMessage)
    → has_id id m ≡ false
    → is_held id until ms ≡ true
    → is_held id until (ms ++ (m ∷ [])) ≡ true
is_held-append id until m [] o h = ground arith
is_held-append id until m (n ∷ ms) o h = ground (arith, is_held-append id until m ms)

none_with-held :
    (id : Text) (until : ℕ) (ms : List EmailOutboxMessage)
    → count_if (has_id id) ms ≡ 0
    → is_held id until ms ≡ true
none_with-held id until [] h = refl
none_with-held id until (m ∷ ms) h = ground (arith, none_with-held id until ms)

claim_id-none :
    (id : Text) (now : ℕ) (ms : List EmailOutboxMessage)
    → count_if (has_id id) ms ≡ 0
    → (claim_id id now ms).0 ≡ none
unfolding claim_id
claim_id-none id now [] h = refl
claim_id-none id now (m ∷ ms) h = ground (arith, claim_id-none id now ms)

-- What a claim by id gives is leased for the time of a lease.
pub claim_id-holds :
    (id : Text) (now : ℕ) (ms : List EmailOutboxMessage) (m : EmailOutboxMessage)
    → count_if (has_id id) ms ≤ 1
    → (claim_id id now ms).0 ≡ some m
    → is_held id (now + email_outbox_lease_ttl) (claim_id id now ms).1 ≡ true
unfolding claim_id claim is_leased
claim_id-holds id now [] m c h = refl
claim_id-holds id now (n ∷ ms) m c h = ground (
  arith,
  none_with-held id (now + email_outbox_lease_ttl) ms,
  claim_id-none id now ms,
  claim_id-holds id now ms m,
)

-- Without a message with the id, a claim of a batch gives and leaves none with it.
claim_from-none :
    (id : Text) (room now : ℕ) (ms : List EmailOutboxMessage)
    → count_if (has_id id) ms ≡ 0
    → is_held id (now + email_outbox_lease_ttl) (claim_from room now ms).1 ≡ true
unfolding claim_from claim
claim_from-none id zero now ms h = none_with-held id (now + email_outbox_lease_ttl) ms h
claim_from-none id (suc room) now [] h = refl
claim_from-none id (suc room) now (m ∷ ms) h =
    ground (arith, claim_from-none id room now ms, claim_from-none id (suc room) now ms)

claim_from-only :
    (id : Text) (room now : ℕ) (ms : List EmailOutboxMessage)
    → count_if (has_id id) ms ≡ 0
    → any_of (has_id id) (claim_from room now ms).0 ≡ false
unfolding claim_from claim
claim_from-only id zero now ms h = refl
claim_from-only id (suc room) now [] h = refl
claim_from-only id (suc room) now (m ∷ ms) h =
    ground (arith, claim_from-only id room now ms, claim_from-only id (suc room) now ms)

-- What a claim of a batch gives is leased too.
pub claim_from-holds :
    (id : Text) (room now : ℕ) (ms : List EmailOutboxMessage)
    → count_if (has_id id) ms ≤ 1
    → any_of (has_id id) (claim_from room now ms).0 ≡ true
    → is_held id (now + email_outbox_lease_ttl) (claim_from room now ms).1 ≡ true
unfolding claim_from claim is_leased
claim_from-holds id zero now ms c h = absurd (ground arith)
claim_from-holds id (suc room) now [] c h = refl
claim_from-holds id (suc room) now (m ∷ ms) c h = ground (
  arith,
  claim_from-none id room now ms,
  claim_from-only id (suc room) now ms,
  claim_from-holds id room now ms,
  claim_from-holds id (suc room) now ms,
)

-- A call that leaves the lease of a message alone: a claim before the time, a mark on another
-- message, and whatever adds no message with this id.
abbrev pub respects_lease : Text → ℕ → Call → Bool
respects_lease id until (Call.claim_email_outbox _ now) = leb now until
respects_lease id until (Call.claim_email_outbox_by_id now _) = leb now until
respects_lease id until (Call.mark_email_outbox_delivered _ other) = not (text_eq other id)
respects_lease id until (Call.mark_email_outbox_failed _ other _) = not (text_eq other id)
respects_lease id until c = not (adds_message id c)

step-held :
    (id : Text) (until : ℕ) (c : Call) (r : Repository)
    → respects_lease id until c ≡ true
    → is_held id until r.email_outbox ≡ true
    → is_held id until (step c r).email_outbox ≡ true
unfolding step Accounts.create Accounts.create_with_verification Accounts.create_provider_user
    Accounts.run_hooks Accounts.store_user Accounts.create_identity Accounts.update_password
    Accounts.update_password_and_revoke Accounts.increment_auth_version Accounts.set_role
    Accounts.suspend Accounts.ban Accounts.soft_delete Accounts.delete_account
    Tokens.verify_email_token Tokens.reset_password_token Tokens.save_email_verification_token
    Tokens.save_password_reset_token Tokens.save_reauthentication_token
    Tokens.consume_reauthentication_token claim_email_outbox claim_email_outbox_by_id
    mark_email_outbox_delivered mark_email_outbox_failed delivered failed
step-held id until (Call.create_with_verification u token email) r o h =
    ground (arith, is_held-append id until email r.email_outbox)
step-held id until (Call.claim_email_outbox limit now) r o h =
    (claim_from-held id until (if limit == 0 then 10 else limit) now r.email_outbox (ground arith)
      h).0
step-held id until (Call.claim_email_outbox_by_id now other) r o h =
    (claim_id-held id other until now r.email_outbox (ground arith) h).0
step-held id until (Call.mark_email_outbox_delivered at other) r o h = ground (
  arith,
  write_first-held id other until (delivered at) r.email_outbox (ground arith) (λ m. refl) h,
)
step-held id until (Call.mark_email_outbox_failed at other failure) r o h = ground (
  arith,
  write_first-held id other until (failed failure at) r.email_outbox (ground arith) (λ m. refl) h,
)
step-held id until _ r o h = ground arith

pub run-held :
    (id : Text) (until : ℕ) (cs : List Call) (r : Repository)
    → All (λ c. respects_lease id until c ≡ true) cs
    → is_held id until r.email_outbox ≡ true
    → is_held id until (run cs r).email_outbox ≡ true
unfolding run
run-held id until [] r o h = h
run-held id until (c ∷ cs) r o h =
    run-held id until cs (step c r) o.1 (step-held id until c r o.0 h)

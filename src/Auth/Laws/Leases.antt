-- ===== src/Auth/Laws/Leases.antt =====
-- A claim is exclusive while its lease runs, and a delivery that failed is tried again.
use finance_app.Base.{
  ℕ, ◌+◌, ◌≤◌, ◌≡◌, refl, sym, ap, subst, ◌∙◌, Option-cases, inl, inr, true, false, none, some,
  List, [], ◌∷◌, if◌then◌else◌, ◌==◌, arith, any_of, count_if, All, find_first,
}
use finance_app.Base.Text.{Text, text_eq, text_eq_iff}
use finance_app.Auth.Defs.{
  EmailOutboxMessage, email_outbox_lease_ttl, email_outbox_retry_delay, email_kind_verification,
}
use finance_app.Auth.Repository.Defs.{Repository}
use finance_app.Auth.Repository.Outbox.{
  is_leased, is_due, claim, claim_id, write_first, failed, claim_email_outbox,
  claim_email_outbox_by_id, mark_email_outbox_failed,
}
use finance_app.Auth.Repository.Run.{Call, run}
use finance_app.Auth.Service.Defs.{Service}
use finance_app.Auth.Service.Registration.{deliver_claimed_email}
use finance_app.Auth.Laws.Delivery.{has_id}
use finance_app.Auth.Laws.Held.{
  is_held, respects_lease, claim_from-held, claim_id-held, claim_id-holds, claim_from-holds,
  run-held,
}

-- The two kinds of claim: of a batch with a limit, and of one message by its id.
pub data Claim : Type 0 where
  batch : ℕ → Claim
  by_id : Text → Claim

-- The messages that a claim gives out, and the repository after it.
abbrev pub claiming : Claim → ℕ → Repository → List EmailOutboxMessage × Repository
claiming (batch limit) now r = claim_email_outbox limit now r
claiming (by_id id) now r =
    let (out, r') = claim_email_outbox_by_id id now r in
    (elim out [ none ↦ [] | some m ↦ m ∷ [] ], r')

claim_id-own :
    (id other : Text) (now : ℕ) (ms : List EmailOutboxMessage) (m : EmailOutboxMessage)
    → (claim_id other now ms).0 ≡ some m
    → m.id ≡ other
unfolding claim_id claim
claim_id-own id other now [] m h = cc
claim_id-own id other now (n ∷ ms) m h =
    ground (arith, text_eq_iff n.id other, claim_id-own id other now ms m)

claiming-holds :
    (w : Claim) (id : Text) (now : ℕ) (r : Repository)
    → count_if (has_id id) r.email_outbox ≤ 1
    → any_of (has_id id) (claiming w now r).0 ≡ true
    → is_held id (now + email_outbox_lease_ttl) (claiming w now r).1.email_outbox ≡ true
unfolding claim_email_outbox claim_email_outbox_by_id
claiming-holds (batch limit) id now r c h =
    claim_from-holds id (if limit == 0 then 10 else limit) now r.email_outbox c h
claiming-holds (by_id other) id now r c h =
    elim (Option-cases (claim_id other now r.email_outbox).0) [
      | inl e ↦ absurd (ground arith)
      | inr (m, e) ↦
          let own = claim_id-own id other now r.email_outbox m e in
          let same : other ≡ id = ground (arith, text_eq_iff m.id id) in
          subst
            (λ k.
              is_held id (now + email_outbox_lease_ttl) (claim_id k now r.email_outbox).1 ≡ true)
            (sym same)
            (claim_id-holds id now r.email_outbox m c
              (ap (λ k. (claim_id k now r.email_outbox).0) (sym same) ∙ e))
    ]

claiming-refused :
    (w : Claim) (id : Text) (until now : ℕ) (r : Repository)
    → now ≤ until
    → is_held id until r.email_outbox ≡ true
    → any_of (has_id id) (claiming w now r).0 ≡ false
unfolding claim_email_outbox claim_email_outbox_by_id
claiming-refused (batch limit) id until now r l h =
    (claim_from-held id until (if limit == 0 then 10 else limit) now r.email_outbox l h).1
claiming-refused (by_id other) id until now r l h =
    let held = (claim_id-held id other until now r.email_outbox l h).1 in
    elim (Option-cases (claim_id other now r.email_outbox).0) [
      | inl e ↦ ground arith
      | inr (m, e) ↦
          let own = claim_id-own id other now r.email_outbox m e in
          ground (arith, text_eq_iff m.id id, text_eq_iff other id)
    ]

-- A message that a claim of either kind has given out, and whose id no other message has, is given
-- out by no claim of either kind up to the end of its lease of five minutes, whatever calls come
-- between that neither mark this message nor add one with its id and whose claims are before that
-- end.
pub claim_is_exclusive :
    (first second : Claim) (id : Text) (now later : ℕ) (cs : List Call) (r : Repository)
    → count_if (has_id id) r.email_outbox ≤ 1
    → any_of (has_id id) (claiming first now r).0 ≡ true
    → All (λ c. respects_lease id (now + email_outbox_lease_ttl) c ≡ true) cs
    → later ≤ now + email_outbox_lease_ttl
    → any_of (has_id id) (claiming second later (run cs (claiming first now r).1)).0 ≡ false
claim_is_exclusive first second id now later cs r alone given o before =
    let until = now + email_outbox_lease_ttl in
    let claimed = (claiming first now r).1 in
    claiming-refused second id until later (run cs claimed) before
      (run-held id until cs claimed o (claiming-holds first id now r alone given))

-- A claim by id gives the first message with the id, if it is due and not leased.
claim_id-first :
    (id : Text) (now : ℕ) (ms : List EmailOutboxMessage) (m : EmailOutboxMessage)
    → find_first (has_id id) ms ≡ some m
    → is_due now m ≡ true
    → is_leased now m ≡ false
    → (claim_id id now ms).0 ≡ some (claim now m)
unfolding claim_id
claim_id-first id now [] m h d l = cc
claim_id-first id now (n ∷ ms) m h d l = ground (arith, claim_id-first id now ms m)

write_first-found :
    (id : Text) (f : EmailOutboxMessage → EmailOutboxMessage) (ms : List EmailOutboxMessage)
    (m : EmailOutboxMessage)
    → (f m).id ≡ m.id
    → find_first (has_id id) ms ≡ some m
    → ((write_first f id ms).0 ≡ true)
      × (find_first (has_id id) (write_first f id ms).1 ≡ some (f m))
unfolding write_first
write_first-found id f [] m i h = cc
write_first-found id f (n ∷ ms) m i h = ground (arith, write_first-found id f ms m i)

failed-ready :
    (now later : ℕ) (m : EmailOutboxMessage) (failure : Text)
    → m.delivered_at ≡ none
    → now + email_outbox_retry_delay ≤ later
    → (is_due later (failed failure (now + email_outbox_retry_delay) m) ≡ true)
      × (is_leased later (failed failure (now + email_outbox_retry_delay) m) ≡ false)
unfolding failed is_due is_leased
failed-ready now later m failure undelivered wait = ground arith

-- A delivery that the sender refuses is not lost: from the end of the retry delay of fifteen seconds
-- on, a claim by its id gives the message again, with one attempt more.
pub failed_delivery_retried :
    {X : Type 0} (s : Service X) (now later : ℕ) (m : EmailOutboxMessage) (r : Repository) (x : X)
    (failure : Text)
    → find_first (has_id m.id) r.email_outbox ≡ some m
    → m.delivered_at ≡ none
    → text_eq m.kind email_kind_verification ≡ true
    → (s.email_sender.send_verification m.recipient m.verification_url x).0 ≡ some failure
    → now + email_outbox_retry_delay ≤ later
    → (claim_email_outbox_by_id m.id later (deliver_claimed_email s now m r x).1).0
      ≡ some (claim later (failed failure (now + email_outbox_retry_delay) m))
unfolding deliver_claimed_email claim_email_outbox_by_id mark_email_outbox_failed failed
failed_delivery_retried s now later m r x failure here undelivered kind refused wait =
    let f = failed failure (now + email_outbox_retry_delay) in
    let found = write_first-found m.id f r.email_outbox m refl here in
    let ready = failed-ready now later m failure undelivered wait in
    ground (
      arith,
      claim_id-first m.id later (write_first f m.id r.email_outbox).1 (f m) found.1 ready.0 ready.1,
    )

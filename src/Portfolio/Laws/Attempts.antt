-- ===== src/Portfolio/Laws/Attempts.antt =====
-- How often an event of the outbox is tried.
use finance_app.Base.{
  ℕ, ◌≡◌, refl, ◌∙◌, Bool, true, false, not, ◌&&◌, ◌||◌, List, [], ◌∷◌, ◌++◌, leb, ◌==◌, arith,
  Option-cases, inl, inr, is_some, all_of, any_of,
}
use finance_app.Base.Text.{Text, text_eq_iff}
use finance_app.Base.Assoc.{Map}
use finance_app.Portfolio.Defs.{OutboxEvent, Repository, new_in_memory_repository}
use finance_app.Portfolio.Outbox.{
  outbox_max_attempts, claim_outbox_events, write_first, has_id, processed, failed, requeued,
  mark_outbox_processed, mark_outbox_failed, requeue_outbox_event,
}
use finance_app.Portfolio.Laws.Settled.{
  is_settled, ids_distinct, claim_from-settled, claim_from-distinct, write_first-distinct,
  erase-settled, write_first-settled, unfound,
}

-- The calls on the outbox: an event that a commit appends, and the calls of its workers and of an
-- operator.
pub data Call (D : Type 0) : Type 0 where
  append : OutboxEvent D → Call D
  claim : ℕ → ℕ → Call D
  mark_processed : ℕ → Text → Call D
  mark_failed : ℕ → Text → Text → Call D
  requeue : Text → Call D

module _ {D : Type 0} where
  pub record IsBounded (r : Repository D) : Type 0 where
    pub settled : all_of (is_settled r.claimed) r.outbox ≡ true
    pub distinct : ids_distinct r.outbox ≡ true

  append-settled :
      (claimed : Map Bool) (ev : OutboxEvent D) (evs : List (OutboxEvent D))
      → ev.attempt_count ≡ 0
      → all_of (is_settled claimed) evs ≡ true
      → all_of (is_settled claimed) (evs ++ (ev ∷ [])) ≡ true
  append-settled claimed ev [] z h = ground arith
  append-settled claimed ev (e ∷ evs) z h = ground (arith, append-settled claimed ev evs z)

  any_of-append :
      (id : Text) (ev : OutboxEvent D) (evs : List (OutboxEvent D))
      → any_of (has_id id) (evs ++ (ev ∷ [])) ≡ (any_of (has_id id) evs || has_id id ev)
  any_of-append id ev [] = ground arith
  any_of-append id ev (e ∷ evs) = ground (arith, any_of-append id ev evs)

  append-distinct :
      (ev : OutboxEvent D) (evs : List (OutboxEvent D))
      → any_of (has_id ev.id) evs ≡ false
      → ids_distinct evs ≡ true
      → ids_distinct (evs ++ (ev ∷ [])) ≡ true
  append-distinct ev [] n h = refl
  append-distinct ev (e ∷ evs) n h = ground (
    arith,
    any_of-append e.id ev evs,
    text_eq_iff ev.id e.id,
    text_eq_iff e.id ev.id,
    append-distinct ev evs,
  )

  unfoldable pub step : Call D → Repository D → Repository D
  step (Call.append ev) r = record r { outbox = r.outbox ++ (ev ∷ []) }
  step (Call.claim now limit) r = (claim_outbox_events now limit r).1
  step (Call.mark_processed now id) r = mark_outbox_processed now id r
  step (Call.mark_failed now id cause) r = mark_outbox_failed now id cause r
  step (Call.requeue id) r = (requeue_outbox_event id r).1

  unfoldable pub run : List (Call D) → Repository D → Repository D
  run [] r = r
  run (c ∷ cs) r = run cs (step c r)

  -- An appended event is new: it was never tried, and its id is its own.
  abbrev pub is_new : Call D → Repository D → Bool
  is_new (Call.append ev) r = ev.attempt_count == 0 && not (any_of (has_id ev.id) r.outbox)
  is_new _ r = true

  abbrev pub AllNew : List (Call D) → Repository D → Type 0
  AllNew [] r = Unit {0}
  AllNew (c ∷ cs) r = (is_new c r ≡ true) × AllNew cs (step c r)

  mark_processed-IsBounded :
      (now : ℕ) (id : Text) (r : Repository D)
      → IsBounded r
      → IsBounded (mark_outbox_processed now id r)
  unfolding mark_outbox_processed
  mark_processed-IsBounded now id r b =
      let written = write_first (has_id id) (processed now) r.outbox in
      elim (Option-cases written.0) [
        | inl unseen ↦ record {
          settled = ground (arith, b.settled);
          distinct = ground (arith, b.distinct);
        }
        | inr (ev, found) ↦ record {
          settled = ground (
            arith,
            write_first-settled id (has_id id) (processed now) r.claimed r.outbox (λ e h. h)
                (λ e h. ground arith) (ground arith) b.distinct b.settled,
          );
          distinct = ground (
            arith,
            b.distinct,
            write_first-distinct (has_id id) (processed now) r.outbox (λ e. refl),
          );
        }
      ]

  mark_failed-IsBounded :
      (now : ℕ) (id cause : Text) (r : Repository D)
      → IsBounded r
      → IsBounded (mark_outbox_failed now id cause r)
  unfolding mark_outbox_failed
  mark_failed-IsBounded now id cause r b =
      let written = write_first (has_id id) (failed now cause) r.outbox in
      elim (Option-cases written.0) [
        | inl unseen ↦ record {
          settled = ground (
            arith,
            erase-settled id r.claimed r.outbox (unfound id (failed now cause) r.outbox unseen)
                b.settled,
          );
          distinct = ground (arith, b.distinct);
        }
        | inr (ev, found) ↦ record {
          settled = ground (
            arith,
            write_first-settled id (has_id id) (failed now cause) r.claimed r.outbox (λ e h. h)
                (λ e h. ground arith) (ground arith) b.distinct b.settled,
          );
          distinct = ground (
            arith,
            b.distinct,
            write_first-distinct (has_id id) (failed now cause) r.outbox (λ e. refl),
          );
        }
      ]

  requeue-IsBounded :
      (id : Text) (r : Repository D) → IsBounded r → IsBounded (requeue_outbox_event id r).1
  unfolding requeue_outbox_event
  requeue-IsBounded id r b =
      let p : OutboxEvent D → Bool = λ ev. has_id id ev && is_some ev.dead_lettered_at in
      elim (Option-cases (write_first p requeued r.outbox).0) [
        | inl unseen ↦ record {
          settled = ground (arith, b.settled);
          distinct = ground (arith, b.distinct);
        }
        | inr (ev, found) ↦ record {
          settled = ground (
            arith,
            write_first-settled id p requeued r.claimed r.outbox (λ e h. ground arith)
                (λ e h. ground arith) (ground arith) b.distinct b.settled,
          );
          distinct =
              ground (arith, b.distinct, write_first-distinct p requeued r.outbox (λ e. refl));
        }
      ]

  step-IsBounded :
      (c : Call D) (r : Repository D) → is_new c r ≡ true → IsBounded r → IsBounded (step c r)
  unfolding step claim_outbox_events
  step-IsBounded (Call.append ev) r n b = record {
    settled = append-settled r.claimed ev r.outbox (ground arith) b.settled;
    distinct = append-distinct ev r.outbox (ground arith) b.distinct;
  }
  step-IsBounded (Call.claim now limit) r n b = record {
    settled = claim_from-settled limit now r.claimed r.next_attempt r.outbox b.settled;
    distinct = claim_from-distinct limit now r.claimed r.next_attempt r.outbox ∙ b.distinct;
  }
  step-IsBounded (Call.mark_processed now id) r n b = mark_processed-IsBounded now id r b
  step-IsBounded (Call.mark_failed now id cause) r n b = mark_failed-IsBounded now id cause r b
  step-IsBounded (Call.requeue id) r n b = requeue-IsBounded id r b

  run-IsBounded :
      (cs : List (Call D)) (r : Repository D) → AllNew cs r → IsBounded r → IsBounded (run cs r)
  unfolding run
  run-IsBounded [] r n b = b
  run-IsBounded (c ∷ cs) r n b = run-IsBounded cs (step c r) n.1 (step-IsBounded c r n.0 b)

  settled-attempts :
      (claimed : Map Bool) (evs : List (OutboxEvent D))
      → all_of (is_settled claimed) evs ≡ true
      → all_of (λ ev. leb ev.attempt_count outbox_max_attempts) evs ≡ true
  settled-attempts claimed [] h = refl
  settled-attempts claimed (ev ∷ evs) h = ground (arith, settled-attempts claimed evs)

  -- After any calls on an empty outbox whose appended events are new, no event has been tried more
  -- than ten times since it was appended or last requeued.
  pub attempts_bounded :
      (cs : List (Call D))
      → AllNew cs new_in_memory_repository
      → all_of
          (λ ev. leb ev.attempt_count outbox_max_attempts)
          (run cs new_in_memory_repository).outbox
        ≡ true
  attempts_bounded cs n =
      let r = run cs new_in_memory_repository in
      let b =
        run-IsBounded cs new_in_memory_repository n (record { settled = refl; distinct = refl }) in
      settled-attempts r.claimed r.outbox b.settled

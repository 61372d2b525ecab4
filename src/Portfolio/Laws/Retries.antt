-- ===== src/Portfolio/Laws/Retries.antt =====
-- A failed event is tried again.
use finance_app.Base.{
  ℕ, ◌+◌, ◌≤◌, ◌<◌, ◌≡◌, refl, true, none, some, List, [], ◌∷◌, arith, find_first,
}
use finance_app.Base.Text.{Text, text_eq, text_eq_iff}
use finance_app.Base.Assoc.{lookup-insert, lookup-erase}
use finance_app.Portfolio.Defs.{OutboxEvent, Repository}
use finance_app.Portfolio.Outbox.{
  outbox_max_attempts, outbox_max_backoff, backoff, is_claimable, write_first, has_id, failed,
  mark_outbox_failed,
}

backoff-le : (attempts : ℕ) → backoff attempts ≤ outbox_max_backoff
unfolding backoff
backoff-le attempts = ground arith

module _ {D : Type 0} where
  mark_failed-first :
      (id : Text) (f : OutboxEvent D → OutboxEvent D) (evs : List (OutboxEvent D))
      (ev : OutboxEvent D)
      → find_first (has_id id) evs ≡ some ev
      → (f ev).id ≡ ev.id
      → ((write_first (has_id id) f evs).0 ≡ some ev)
        × (find_first (has_id id) (write_first (has_id id) f evs).1 ≡ some (f ev))
  unfolding write_first
  mark_failed-first id f [] ev h k = cc
  mark_failed-first id f (e ∷ evs) ev h k = ground (arith, mark_failed-first id f evs ev)

  find_first-id :
      (id : Text) (evs : List (OutboxEvent D)) (ev : OutboxEvent D)
      → find_first (has_id id) evs ≡ some ev
      → text_eq ev.id id ≡ true
  find_first-id id [] ev h = cc
  find_first-id id (e ∷ evs) ev h = ground (arith, find_first-id id evs ev)

  -- An event that a worker fails before its tenth attempt can be claimed again an hour later at the
  -- latest, if it is neither processed nor dead.
  pub failed_event_retried :
      (now later : ℕ) (id cause : Text) (ev : OutboxEvent D) (r : Repository D)
      → find_first (has_id id) r.outbox ≡ some ev
      → ev.processed_at ≡ none
      → ev.dead_lettered_at ≡ none
      → ev.attempt_count < outbox_max_attempts
      → now + outbox_max_backoff ≤ later
      → let r' = mark_outbox_failed now id cause r in
        (find_first (has_id id) r'.outbox ≡ some (failed now cause ev))
        × (is_claimable later r'.claimed r'.next_attempt (failed now cause ev) ≡ true)
  unfolding mark_outbox_failed is_claimable
  failed_event_retried now later id cause ev r found pending alive few late =
      let (hit, there) = mark_failed-first id (failed now cause) r.outbox ev found refl in
      let own = find_first-id id r.outbox ev found in
      ground (
        arith,
        backoff-le ev.attempt_count,
        lookup-erase id ev.id r.claimed,
        lookup-insert id ev.id (now + backoff ev.attempt_count) r.next_attempt,
        text_eq_iff ev.id id,
        text_eq_iff id ev.id,
      )

-- ===== src/Portfolio/Outbox.antt =====
-- portfolio/memory_store.go: the outbox of committed events, with claims, retries after a growing
-- delay, and dead letters. An event id stands for at most one event.
use finance_app.Base.{
  ℕ, zero, suc, ◌+◌, ◌*◌, ◌^◌, Bool, true, false, not, ◌&&◌, Option, none, some, List, [], ◌∷◌,
  if◌then◌else◌, ltb, leb, is_some, reverse, take, keep_if,
}
use finance_app.Base.Text.{Text, text_eq}
use finance_app.Base.Assoc.{Map, lookup, insert, erase}
use finance_app.Base.Result.{Result, ok, err}
use finance_app.Portfolio.Defs.{StoreError, OutboxEvent, Repository}

abbrev pub outbox_max_attempts : ℕ
outbox_max_attempts = 10

abbrev pub second : ℕ
second = 1000000000

-- time.Hour
abbrev pub outbox_max_backoff : ℕ
outbox_max_backoff = 3600 * second

-- `time.Duration(1<<uint(attempts)) * time.Second`, at most an hour.
unfoldable pub backoff : ℕ → ℕ
backoff attempts =
    if ltb outbox_max_backoff (2 ^ attempts * second)
    then outbox_max_backoff
    else 2 ^ attempts * second

module _ {D : Type 0} where
  abbrev pub is_claimed : Map Bool → OutboxEvent D → Bool
  is_claimed claimed ev = elim (lookup ev.id claimed) [ none ↦ false | some b ↦ b ]

  -- `ok && now.Before(next)`
  abbrev pub is_waiting : ℕ → Map ℕ → OutboxEvent D → Bool
  is_waiting now next ev = elim (lookup ev.id next) [ none ↦ false | some t ↦ ltb now t ]

  -- The tests of the loop of `ClaimOutboxEvents`.
  unfoldable pub is_claimable : ℕ → Map Bool → Map ℕ → OutboxEvent D → Bool
  is_claimable now claimed next ev =
      not (is_some ev.processed_at)
      && not (is_some ev.dead_lettered_at)
      && not (is_claimed claimed ev)
      && not (is_waiting now next ev)

  abbrev pub attempted : OutboxEvent D → OutboxEvent D
  attempted ev = record ev { attempt_count = ev.attempt_count + 1 }

  -- The loop, with the number of events that may still be claimed: the claimed events, the outbox
  -- and the claims after it.
  unfoldable pub claim_from :
      ℕ
      → ℕ
      → Map Bool
      → Map ℕ
      → List (OutboxEvent D)
      → List (OutboxEvent D) × List (OutboxEvent D) × Map Bool
  claim_from zero now claimed next evs = ([], evs, claimed)
  claim_from (suc room) now claimed next [] = ([], [], claimed)
  claim_from (suc room) now claimed next (ev ∷ evs) = elim (is_claimable now claimed next ev) [
    | true ↦
        let (out, rest, claimed') = claim_from room now (insert ev.id true claimed) next evs in
        (attempted ev ∷ out, attempted ev ∷ rest, claimed')
    | false ↦
        let (out, rest, claimed') = claim_from (suc room) now claimed next evs in
        (out, ev ∷ rest, claimed')
  ]

  unfoldable pub claim_outbox_events : ℕ → ℕ → Repository D → List (OutboxEvent D) × Repository D
  claim_outbox_events now limit r =
      let (out, evs, claimed) = claim_from limit now r.claimed r.next_attempt r.outbox in
      (out, record r { outbox = evs; claimed = claimed })

  -- The loops that write to the first event that passes a test.
  unfoldable pub write_first :
      (OutboxEvent D → Bool)
      → (OutboxEvent D → OutboxEvent D)
      → List (OutboxEvent D)
      → Option (OutboxEvent D) × List (OutboxEvent D)
  write_first p f [] = (none, [])
  write_first p f (ev ∷ evs) =
      let rest = write_first p f evs in
      if p ev then (some ev, f ev ∷ evs) else (rest.0, ev ∷ rest.1)

  abbrev pub has_id : Text → OutboxEvent D → Bool
  has_id id ev = text_eq ev.id id

  abbrev pub processed : ℕ → OutboxEvent D → OutboxEvent D
  processed now ev = record ev { processed_at = some now }

  unfoldable pub mark_outbox_processed : ℕ → Text → Repository D → Repository D
  mark_outbox_processed now id r =
      let (found, evs) = write_first (has_id id) (processed now) r.outbox in
      elim found [ none ↦ r | some _ ↦ record r { outbox = evs; claimed = erase id r.claimed } ]

  abbrev pub failed : ℕ → Text → OutboxEvent D → OutboxEvent D
  failed now cause ev = record ev {
    last_error = cause;
    dead_lettered_at =
        if leb outbox_max_attempts ev.attempt_count then some now else ev.dead_lettered_at;
  }

  unfoldable pub mark_outbox_failed : ℕ → Text → Text → Repository D → Repository D
  unfolding backoff
  mark_outbox_failed now id cause r =
      let (found, evs) = write_first (has_id id) (failed now cause) r.outbox in
      elim found [
        | none ↦ record r { claimed = erase id r.claimed }
        | some ev ↦ record r {
          outbox = evs;
          claimed = erase id r.claimed;
          next_attempt =
              if leb outbox_max_attempts ev.attempt_count
              then erase id r.next_attempt
              else insert id (now + backoff ev.attempt_count) r.next_attempt;
        }
      ]

  unfoldable pub list_dead_lettered_outbox : ℕ → Repository D → List (OutboxEvent D)
  list_dead_lettered_outbox limit r =
      take limit (keep_if (λ ev. is_some ev.dead_lettered_at) (reverse r.outbox))

  abbrev pub requeued : OutboxEvent D → OutboxEvent D
  requeued ev = record ev { dead_lettered_at = none; attempt_count = 0; last_error = [] }

  unfoldable pub requeue_outbox_event :
      Text → Repository D → Result StoreError (Unit {0}) × Repository D
  requeue_outbox_event id r =
      let (found, evs) =
        write_first (λ ev. has_id id ev && is_some ev.dead_lettered_at) requeued r.outbox in
      elim found [
        | none ↦ (err StoreError.outbox_event_not_dead_lettered, r)
        | some _ ↦ (
          ok tt,
          record r {
            outbox = evs;
            claimed = erase id r.claimed;
            next_attempt = erase id r.next_attempt;
          },
        )
      ]

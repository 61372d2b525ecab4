-- ===== src/Portfolio/Laws/Settled.antt =====
-- What claims and marks do to the events that have had their last attempt.
use finance_app.Base.{
  ℕ, zero, suc, ◌≡◌, refl, sym, ap, ◌∙◌, Bool, true, false, not, ◌&&◌, ◌||◌, none, List, [], ◌∷◌,
  ltb, ◌==◌, arith, Bool-cases, inl, inr, is_some, all_of, any_of,
}
use finance_app.Base.Text.{Text, text_eq, text_eq_iff}
use finance_app.Base.Assoc.{Map, insert, erase, lookup-insert, lookup-erase}
use finance_app.Portfolio.Defs.{OutboxEvent}
use finance_app.Portfolio.Outbox.{
  outbox_max_attempts, is_claimed, is_claimable, attempted, claim_from, write_first, has_id,
}

module _ {D : Type 0} where
  -- An event that has had its last attempt is in flight or at its end.
  abbrev pub is_settled : Map Bool → OutboxEvent D → Bool
  is_settled claimed ev =
      ltb ev.attempt_count outbox_max_attempts
      || (ev.attempt_count == outbox_max_attempts
          && (is_claimed claimed ev || is_some ev.processed_at || is_some ev.dead_lettered_at))

  -- The ids of the events are their own.
  abbrev pub ids_distinct : List (OutboxEvent D) → Bool
  ids_distinct [] = true
  ids_distinct (ev ∷ evs) = not (any_of (has_id ev.id) evs) && ids_distinct evs

  all_settled-insert :
      (id : Text) (claimed : Map Bool) (evs : List (OutboxEvent D))
      → all_of (is_settled claimed) evs ≡ true
      → all_of (is_settled (insert id true claimed)) evs ≡ true
  all_settled-insert id claimed [] h = refl
  all_settled-insert id claimed (ev ∷ evs) h =
      ground (arith, lookup-insert id ev.id true claimed, all_settled-insert id claimed evs)

  -- The claims only grow.
  claim_from-claimed :
      (room now : ℕ) (claimed : Map Bool) (next : Map ℕ) (evs : List (OutboxEvent D))
      (ev : OutboxEvent D)
      → is_claimed claimed ev ≡ true
      → is_claimed (claim_from room now claimed next evs).2 ev ≡ true
  unfolding claim_from
  claim_from-claimed zero now claimed next evs ev h = h
  claim_from-claimed (suc room) now claimed next [] ev h = h
  claim_from-claimed (suc room) now claimed next (e ∷ evs) ev h = ground (
    arith,
    lookup-insert e.id ev.id true claimed,
    claim_from-claimed room now (insert e.id true claimed) next evs ev,
    claim_from-claimed (suc room) now claimed next evs ev h,
  )

  more_claims-settled :
      (claimed claimed' : Map Bool) (ev : OutboxEvent D)
      → (is_claimed claimed ev ≡ true → is_claimed claimed' ev ≡ true)
      → is_settled claimed ev ≡ true
      → is_settled claimed' ev ≡ true
  more_claims-settled claimed claimed' ev more h = elim (Bool-cases (is_claimed claimed ev)) [
    | inl c ↦ ground (arith, more c)
    | inr c ↦ ground arith
  ]

  attempted-settled :
      (now : ℕ) (claimed claimed' : Map Bool) (next : Map ℕ) (ev : OutboxEvent D)
      → is_claimable now claimed next ev ≡ true
      → is_claimed claimed' ev ≡ true
      → is_settled claimed ev ≡ true
      → is_settled claimed' (attempted ev) ≡ true
  unfolding is_claimable
  attempted-settled now claimed claimed' next ev free c h = ground arith

  pub claim_from-settled :
      (room now : ℕ) (claimed : Map Bool) (next : Map ℕ) (evs : List (OutboxEvent D))
      → all_of (is_settled claimed) evs ≡ true
      → all_of
          (is_settled (claim_from room now claimed next evs).2)
          (claim_from room now claimed next evs).1
        ≡ true
  unfolding claim_from
  claim_from-settled zero now claimed next evs h = h
  claim_from-settled (suc room) now claimed next [] h = refl
  claim_from-settled (suc room) now claimed next (ev ∷ evs) h =
      elim (Bool-cases (is_claimable now claimed next ev)) [
        | inl free ↦
            let more = insert ev.id true claimed in
            let mine : is_claimed more ev ≡ true =
              ground (arith, lookup-insert ev.id ev.id true claimed, text_eq_iff ev.id ev.id) in
            let later = (claim_from room now more next evs).2 in
            let rest =
              claim_from-settled room now more next evs
                (all_settled-insert ev.id claimed evs (ground arith)) in
            let first =
              attempted-settled now claimed later next ev free
                (claim_from-claimed room now more next evs ev mine) (ground arith) in
            rw (free, claim_from) (both first rest)
        | inr busy ↦
            let later = (claim_from (suc room) now claimed next evs).2 in
            let rest = claim_from-settled (suc room) now claimed next evs (ground arith) in
            let first =
              more_claims-settled claimed later ev
                (claim_from-claimed (suc room) now claimed next evs ev) (ground arith) in
            rw (busy, claim_from) (both first rest)
      ]
    where
      both : {a b : Bool} → a ≡ true → b ≡ true → (a && b) ≡ true
      both h k = ground arith

  claim_from-ids :
      (room now : ℕ) (claimed : Map Bool) (next : Map ℕ) (evs : List (OutboxEvent D)) (id : Text)
      → any_of (has_id id) (claim_from room now claimed next evs).1 ≡ any_of (has_id id) evs
  unfolding claim_from
  claim_from-ids zero now claimed next evs id = refl
  claim_from-ids (suc room) now claimed next [] id = refl
  claim_from-ids (suc room) now claimed next (ev ∷ evs) id = ground (
    arith,
    claim_from-ids room now (insert ev.id true claimed) next evs id,
    claim_from-ids (suc room) now claimed next evs id,
  )

  pub claim_from-distinct :
      (room now : ℕ) (claimed : Map Bool) (next : Map ℕ) (evs : List (OutboxEvent D))
      → ids_distinct (claim_from room now claimed next evs).1 ≡ ids_distinct evs
  unfolding claim_from
  claim_from-distinct zero now claimed next evs = refl
  claim_from-distinct (suc room) now claimed next [] = refl
  claim_from-distinct (suc room) now claimed next (ev ∷ evs) = ground (
    arith,
    claim_from-ids room now (insert ev.id true claimed) next evs ev.id,
    claim_from-ids (suc room) now claimed next evs ev.id,
    claim_from-distinct room now (insert ev.id true claimed) next evs,
    claim_from-distinct (suc room) now claimed next evs,
  )

  -- Writes that keep the ids.
  write_first-ids :
      (p : OutboxEvent D → Bool) (f : OutboxEvent D → OutboxEvent D) (evs : List (OutboxEvent D))
      (id : Text)
      → ((ev : OutboxEvent D) → (f ev).id ≡ ev.id)
      → any_of (has_id id) (write_first p f evs).1 ≡ any_of (has_id id) evs
  unfolding write_first
  write_first-ids p f [] id k = refl
  write_first-ids p f (ev ∷ evs) id k = ground (arith, k ev, write_first-ids p f evs id k)

  pub write_first-distinct :
      (p : OutboxEvent D → Bool) (f : OutboxEvent D → OutboxEvent D) (evs : List (OutboxEvent D))
      → ((ev : OutboxEvent D) → (f ev).id ≡ ev.id)
      → ids_distinct (write_first p f evs).1 ≡ ids_distinct evs
  unfolding write_first
  write_first-distinct p f [] k = refl
  write_first-distinct p f (ev ∷ evs) k =
      ground (arith, k ev, write_first-ids p f evs ev.id k, write_first-distinct p f evs k)

  -- Erasing the claim of an id that no event has.
  pub erase-settled :
      (id : Text) (claimed : Map Bool) (evs : List (OutboxEvent D))
      → any_of (has_id id) evs ≡ false
      → all_of (is_settled claimed) evs ≡ true
      → all_of (is_settled (erase id claimed)) evs ≡ true
  erase-settled id claimed [] n h = refl
  erase-settled id claimed (ev ∷ evs) n h = ground (
    arith,
    lookup-erase id ev.id claimed,
    text_eq_iff id ev.id,
    text_eq_iff ev.id id,
    erase-settled id claimed evs,
  )

  found-any :
      (id : Text) (p : OutboxEvent D → Bool) (f : OutboxEvent D → OutboxEvent D)
      (evs : List (OutboxEvent D))
      → ((ev : OutboxEvent D) → p ev ≡ true → has_id id ev ≡ true)
      → is_some (write_first p f evs).0 ≡ true
      → any_of (has_id id) evs ≡ true
  unfolding write_first
  found-any id p f [] i h = absurd (ground arith)
  found-any id p f (ev ∷ evs) i h = elim (Bool-cases (p ev)) [
    | inl here ↦ ground (arith, i ev here)
    | inr there ↦ ground (arith, found-any id p f evs i)
  ]

  pub unfound :
      (id : Text) (f : OutboxEvent D → OutboxEvent D) (evs : List (OutboxEvent D))
      → (write_first (has_id id) f evs).0 ≡ none
      → any_of (has_id id) evs ≡ false
  unfolding write_first
  unfound id f [] h = refl
  unfound id f (ev ∷ evs) h = ground (arith, unfound id f evs)

  -- A write that settles the event with an id, whose claim is erased.
  pub write_first-settled :
      (id : Text) (p : OutboxEvent D → Bool) (f : OutboxEvent D → OutboxEvent D)
      (claimed : Map Bool) (evs : List (OutboxEvent D))
      → ((ev : OutboxEvent D) → p ev ≡ true → has_id id ev ≡ true)
      → ((ev : OutboxEvent D)
          → is_settled claimed ev ≡ true
          → is_settled (erase id claimed) (f ev) ≡ true)
      → is_some (write_first p f evs).0 ≡ true
      → ids_distinct evs ≡ true
      → all_of (is_settled claimed) evs ≡ true
      → all_of (is_settled (erase id claimed)) (write_first p f evs).1 ≡ true
  unfolding write_first
  write_first-settled id p f claimed [] i s found d h = refl
  write_first-settled id p f claimed (ev ∷ evs) i s found d h = elim (Bool-cases (p ev)) [
    | inl here ↦
        let same : ev.id ≡ id = ground (arith, i ev here, text_eq_iff ev.id id) in
        let none : any_of (has_id id) evs ≡ false =
          sym (ap (λ k. any_of (has_id k) evs) same) ∙ ground arith in
        ground (arith, s ev, erase-settled id claimed evs none)
    | inr there ↦
        let some_id = found-any id p f evs i (ground arith) in
        let other : text_eq ev.id id ≡ false = elim (Bool-cases (text_eq ev.id id)) [
          | inl e ↦
              let same : ev.id ≡ id = ground (arith, text_eq_iff ev.id id) in
              let none : any_of (has_id id) evs ≡ false =
                sym (ap (λ k. any_of (has_id k) evs) same) ∙ ground arith in
              absurd (ground arith)
          | inr e ↦ e
        ] in
        ground (
          arith,
          text_eq_iff ev.id id,
          text_eq_iff id ev.id,
          lookup-erase id ev.id claimed,
          write_first-settled id p f claimed evs i s,
        )
  ]

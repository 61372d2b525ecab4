-- ===== src/Competitions/History.antt =====
-- The statuses that an edition passes through, over any calls on the store of editions.
use finance_app.Base.{
  ◌≤◌, ◌≡◌, refl, sym, ap, ◌∙◌, subst, inl, inr, true, false, some, List, [], ◌∷◌, All, arith,
  Bool-cases, Option-cases,
}
use finance_app.Base.Text.{Text, text_eq, text_eq_iff}
use finance_app.Base.Assoc.{lookup}
use finance_app.Base.Result.{ok, Result-cases}
use finance_app.Competitions.Lifecycle.{finalizing}
use finance_app.Competitions.Editions.{Competition, Editions, check_finalizing}
use finance_app.Competitions.Ranks.{rank, finalizing-rank}
use finance_app.Competitions.Moves.{
  System, start, Call, create, create_legacy, transition, check, complete, is_promoting, step, run,
  keeps, find, Late, Rises, Moves, Rises-trans, leaves, moved-Late, create-Moves, legacy-Moves,
  transition-Moves, complete-Moves,
}

step-Moves :
    (id : Text) (call : Call) (s : System)
    → keeps id call ≡ true
    → Late id s
    → Moves id s (step call s)
unfolding step
step-Moves id (create e) s k late c h = (c, create-Moves id e s.editions c h, inl refl)
step-Moves id (create_legacy e) s k late c h =
    (c, legacy-Moves id e s.editions (ground arith) ∙ h, inl refl)
step-Moves id (transition other from to now) s k late c h =
    transition-Moves id other from to now s.editions c h
step-Moves id (check other) s k late c h = elim (Result-cases (check_finalizing other s.editions)) [
  | inr (e, m) ↦ (c, ground arith, inl refl)
  | inl (goes_on, m) ↦ (c, ground arith, inl refl)
]
step-Moves id (complete other now) s k late c h = elim (Bool-cases (is_promoting other s)) [
  | inr idle ↦ (c, ground arith, inl refl)
  | inl on ↦
      let (d, found, up) = complete-Moves id other now s.editions c h (λ same.
        let e = (text_eq_iff other id).0 same in
        let (b, there, high) = late (ap (λ key. is_promoting key s) (sym e) ∙ on) in
        let is : b ≡ c = cc in subst (λ (x : Competition). 5 ≤ rank x.lifecycle_status) is high) in
      (d, ground arith, up)
]

check_finalizing-rank :
    (id : Text) (r : Editions)
    → check_finalizing id r ≡ ok true
    → (c : Competition) × (lookup id r.competitions ≡ some c) × (5 ≤ rank c.lifecycle_status)
unfolding check_finalizing
check_finalizing-rank id r h = elim (Option-cases (lookup id r.competitions)) [
  | inl e ↦ absurd (ground arith)
  | inr (c, e) ↦
      let at : c.lifecycle_status ≡ finalizing =
        ground (arith, text_eq_iff c.lifecycle_status finalizing) in
      (c, e, subst (λ a. 5 ≤ rank a) (sym at) finalizing-rank)
]

check-Late : (id other : Text) (s : System) → Late id s → Late id (step (check other) s)
unfolding step
check-Late id other s late = elim (Result-cases (check_finalizing other s.editions)) [
  | inr (e, m) ↦ let same : s ≡ step (check other) s = ground arith in subst (Late id) same late
  | inl (goes_on, m) ↦ elim (Bool-cases goes_on) [
    | inr stops ↦ let same : s ≡ step (check other) s = ground arith in subst (Late id) same late
    | inl goes ↦
        let s' = record s { promoting = other ∷ s.promoting } in
        let same : s' ≡ step (check other) s = ground arith in
        subst (Late id) same (λ on. elim (Bool-cases (text_eq other id)) [
          | inr differ ↦ late (ground arith)
          | inl is ↦
              let (c, found, high) = check_finalizing-rank other s.editions (ground arith) in
              (c, ap (λ key. find key s) (sym ((text_eq_iff other id).0 is)) ∙ found, high)
        ])
  ]
]

step-Late :
    (id : Text) (call : Call) (s : System)
    → keeps id call ≡ true
    → Late id s
    → Late id (step call s)
unfolding step
step-Late id (check other) s k late = check-Late id other s late
step-Late id (create e) s k late =
    moved-Late id s (step (create e) s) refl (step-Moves id (create e) s k late) late
step-Late id (create_legacy e) s k late =
    moved-Late id s (step (create_legacy e) s) refl (step-Moves id (create_legacy e) s k late) late
step-Late id (transition other from to now) s k late =
    moved-Late id s (step (transition other from to now) s) refl
      (step-Moves id (transition other from to now) s k late) late
step-Late id (complete other now) s k late =
    moved-Late id s (step (complete other now) s) (ground arith)
      (step-Moves id (complete other now) s k late) late

run-Late :
    (id : Text) (cs : List Call) (s : System)
    → All (λ c. keeps id c ≡ true) cs
    → Late id s
    → Late id (run cs s)
unfolding run
run-Late id [] s k late = late
run-Late id (c ∷ cs) s k late = run-Late id cs (step c s) k.1 (step-Late id c s k.0 late)

run-Moves :
    (id : Text) (cs : List Call) (s : System)
    → All (λ c. keeps id c ≡ true) cs
    → Late id s
    → Moves id s (run cs s)
unfolding run
run-Moves id [] s k late c h = (c, h, inl refl)
run-Moves id (call ∷ cs) s k late c h =
    let (d, found, up) = step-Moves id call s k.0 late c h in
    let (e, found', up') =
      run-Moves id cs (step call s) k.1 (step-Late id call s k.0 late) d found in
    (e, found', Rises-trans c.lifecycle_status d.lifecycle_status e.lifecycle_status up up')

start-Late : (id : Text) → Late id start
start-Late id on = cc

-- Between two moments at which the edition is there its status rises.
run-Rises :
    (id : Text) (cs : List Call) (s : System) (c d : Competition)
    → All (λ call. keeps id call ≡ true) cs
    → Late id s
    → find id s ≡ some c
    → find id (run cs s) ≡ some d
    → Rises c.lifecycle_status d.lifecycle_status
run-Rises id cs s c d k late h n =
    let (e, found, up) = run-Moves id cs s k late c h in
    let is : e ≡ d = cc in
    subst (λ (x : Competition). Rises c.lifecycle_status x.lifecycle_status) is up

-- An edition that has left a status never has it again, over any calls on the store of editions from
-- the empty one, promotions of final results between whose check and write other calls come included,
-- if no legacy sprint is written over it: it stays in the store, with another status.
pub status_never_returns :
    (before between after : List Call) (id : Text) (c d : Competition)
    → All (λ call. keeps id call ≡ true) before
    → All (λ call. keeps id call ≡ true) between
    → All (λ call. keeps id call ≡ true) after
    → find id (run before start) ≡ some c
    → find id (run between (run before start)) ≡ some d
    → text_eq d.lifecycle_status c.lifecycle_status ≡ false
    → (e : Competition) × (find id (run after (run between (run before start))) ≡ some e)
      × (text_eq e.lifecycle_status c.lifecycle_status ≡ false)
status_never_returns before between after id c d k l m h n left =
    let s = run before start in
    let late = run-Late id before start k (start-Late id) in
    let late' = run-Late id between s l late in
    let up = run-Rises id between s c d l late h n in
    let (e, found, up') = run-Moves id after (run between s) m late' d n in
    (e, found, leaves c.lifecycle_status d.lifecycle_status e.lifecycle_status up up' left)

-- ===== src/Competitions/Moves.antt =====
-- The calls on the store of editions, and what each does to the status of one edition.
use finance_app.Base.{
  ℕ, ◌≤◌, ◌<◌, ◌≡◌, refl, sym, ap, ◌∙◌, subst, ◌⊎◌, inl, inr, Bool, true, false, not, Option, some,
  List, [], ◌∷◌, any_of, if◌then◌else◌, arith, Bool-cases, Option-cases,
}
use finance_app.Base.Text.{Text, text_eq, text_eq_iff}
use finance_app.Base.Assoc.{lookup, lookup-insert}
use finance_app.Base.Result.{ok, err, Result-cases}
use finance_app.Competitions.Lifecycle.{validate_lifecycle_transition}
use finance_app.Competitions.Editions.{
  Competition, Editions, no_editions, create_edition, create_competition, transition_lifecycle,
  stamped, check_finalizing, complete_edition, read_competition, completed_at,
}
use finance_app.Competitions.Ranks.{rank, transition-rises, late-rises}

-- The editions with the promotions that have passed their check.
pub record System : Type 0 where
  pub editions : Editions
  pub promoting : List Text

abbrev pub start : System
start = record { editions = no_editions; promoting = [] }

-- The calls on the editions. A promotion whose check has passed may write at any later time.
pub data Call : Type 0 where
  create : Competition → Call
  create_legacy : Competition → Call
  transition : Text → Text → Text → ℕ → Call
  check : Text → Call
  complete : Text → ℕ → Call

abbrev pub is_promoting : Text → System → Bool
is_promoting id s = any_of (λ other. text_eq other id) s.promoting

unfoldable pub step : Call → System → System
step (create e) s = record s { editions = (create_edition e s.editions).1 }
step (create_legacy c) s = record s { editions = create_competition c s.editions }
step (transition id from to now) s = record s {
  editions = (transition_lifecycle id from to now s.editions).1;
}
step (check id) s = elim (check_finalizing id s.editions) [
  | err _ ↦ s
  | ok goes_on ↦ if goes_on then record s { promoting = id ∷ s.promoting } else s
]
step (complete id now) s =
    if is_promoting id s then record s { editions = complete_edition id now s.editions } else s

unfoldable pub run : List Call → System → System
run [] s = s
run (c ∷ cs) s = run cs (step c s)

-- The call does not write a legacy sprint over the edition.
abbrev pub keeps : Text → Call → Bool
keeps id (create_legacy c) = not (text_eq c.id id)
keeps id _ = true

abbrev pub find : Text → System → Option Competition
find id s = lookup id s.editions.competitions

-- An edition that is being promoted is finalizing, cancelled or completed.
abbrev pub Late : Text → System → Type 0
Late id s =
    is_promoting id s ≡ true
    → (c : Competition) × (find id s ≡ some c) × (5 ≤ rank c.lifecycle_status)

abbrev pub Rises : Text → Text → Type 0
Rises a b = (a ≡ b) ⊎ (rank a < rank b)

-- What a call does to one edition: it is still there, and its status is the same or later.
abbrev pub Moves : Text → System → System → Type 0
Moves id s s' =
    (c : Competition)
    → find id s ≡ some c
    → (d : Competition) × (find id s' ≡ some d) × Rises c.lifecycle_status d.lifecycle_status

pub Rises-trans : (a b c : Text) → Rises a b → Rises b c → Rises a c
Rises-trans a b c (inl p) (inl q) = inl (p ∙ q)
Rises-trans a b c (inl p) (inr q) = inr (subst (λ x. rank x < rank c) (sym p) q)
Rises-trans a b c (inr p) (inl q) = inr (subst (λ x. rank a < rank x) q p)
Rises-trans a b c (inr p) (inr q) = inr (omega arith)

Rises-apart : (a b c : Text) → rank a < rank b → Rises b c → text_eq c a ≡ false
Rises-apart a b c l up = elim (Bool-cases (text_eq c a)) [
  | inr differ ↦ differ
  | inl same ↦
      let e = ap rank ((text_eq_iff c a).0 same) in
      elim up [ inl p ↦ absurd (omega (arith, ap rank p)) | inr q ↦ absurd (omega arith) ]
]

pub leaves : (a b c : Text) → Rises a b → Rises b c → text_eq b a ≡ false → text_eq c a ≡ false
leaves a b c (inl same) up left = absurd (ground (arith, text_eq_iff b a))
leaves a b c (inr higher) up left = Rises-apart a b c higher up

-- A call that adds no promotion and moves the edition forward keeps what is said of its promotion.
pub moved-Late :
    (id : Text) (s s' : System)
    → s'.promoting ≡ s.promoting
    → Moves id s s'
    → Late id s
    → Late id s'
moved-Late id s s' same moves late on =
    let (c, found, high) = late (ap (any_of (λ other. text_eq other id)) (sym same) ∙ on) in
    let (d, found', up) = moves c found in
    (d, found', elim up [ inl e ↦ subst (λ a. 5 ≤ rank a) e high | inr l ↦ omega arith ])

pub create-Moves :
    (id : Text) (e : Competition) (r : Editions) (c : Competition)
    → lookup id r.competitions ≡ some c
    → lookup id (create_edition e r).1.competitions ≡ some c
unfolding create_edition
create-Moves id e r c h = elim (Option-cases (lookup e.id r.competitions)) [
  | inr (d, k) ↦ ground arith
  | inl k ↦ ground (arith, lookup-insert e.id id e r.competitions, text_eq_iff e.id id)
]

pub legacy-Moves :
    (id : Text) (e : Competition) (r : Editions)
    → text_eq e.id id ≡ false
    → lookup id (create_competition e r).competitions ≡ lookup id r.competitions
unfolding create_competition
legacy-Moves id e r o = ground (arith, lookup-insert e.id id e r.competitions)

pub transition-Moves :
    (id other from to : Text) (now : ℕ) (r : Editions) (c : Competition)
    → lookup id r.competitions ≡ some c
    → (d : Competition) × (lookup id (transition_lifecycle other from to now r).1.competitions
        ≡ some d)
      × Rises c.lifecycle_status d.lifecycle_status
unfolding transition_lifecycle
transition-Moves id other from to now r c h =
    elim (Result-cases (validate_lifecycle_transition from to)) [
      | inr (e, k) ↦ (c, ground arith, inl refl)
      | inl (_, k) ↦ elim (Option-cases (lookup other r.competitions)) [
        | inl m ↦ (c, ground arith, inl refl)
        | inr (b, m) ↦ elim (Bool-cases (text_eq b.lifecycle_status from)) [
          | inr stale ↦ (c, ground arith, inl refl)
          | inl at ↦
              let d = record (stamped to now b) { lifecycle_status = to } in
              let put = lookup-insert other id d r.competitions in
              elim (Bool-cases (text_eq other id)) [
                | inr differ ↦ (c, ground (arith, put), inl refl)
                | inl same ↦
                    let is : from ≡ c.lifecycle_status =
                      ground (arith, text_eq_iff other id, text_eq_iff b.lifecycle_status from) in
                    (
                      d,
                      ground (arith, put),
                      inr (subst (λ a. rank a < rank to) is (transition-rises from to k)),
                    )
              ]
        ]
      ]
    ]

pub complete-Moves :
    (id other : Text) (now : ℕ) (r : Editions) (c : Competition)
    → lookup id r.competitions ≡ some c
    → (text_eq other id ≡ true → 5 ≤ rank c.lifecycle_status)
    → (d : Competition) × (lookup id (complete_edition other now r).competitions ≡ some d)
      × Rises c.lifecycle_status d.lifecycle_status
unfolding complete_edition
complete-Moves id other now r c h late =
    let d = completed_at now (read_competition other r) in
    let put = lookup-insert other id d r.competitions in
    elim (Bool-cases (text_eq other id)) [
      | inr differ ↦ (c, ground (arith, put), inl refl)
      | inl same ↦ (d, ground (arith, put), late-rises c.lifecycle_status (late same))
    ]

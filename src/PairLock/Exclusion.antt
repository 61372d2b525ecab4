-- ===== src/PairLock/Exclusion.antt =====
-- What every reachable table of mutexes keeps: each thread has the mutex of its pair, and the holder
-- of a mutex is the thread inside with it.
use finance_app.Base.{
  ℕ, ◌≡◌, ◌≢◌, ◌⊎◌, sym, ap, ◌∙◌, false, none, some, ◌==◌, ==_iff, arith, Bool-cases, inl, inr,
}
use finance_app.Base.Text.{Text, text_eq, text_eq_iff, text_lt_swap}
use finance_app.Base.Assoc.{lookup, lookup-insert}
use finance_app.PairLock.{
  Place, System, Step, Reach, key, start, at, find_mutex, ask, acquire, release,
}

-- Both orders of a pair have one key.
pub key_comm : (a b : Text) → key a b ≡ key b a
unfolding key
key_comm a b = elim (Bool-cases (text_eq a b)) [
  | inl same ↦
      let e : a ≡ b = ground (arith, text_eq_iff a b) in
      ap (λ c. key c b) e ∙ sym (ap (λ c. key b c) e)
  | inr other ↦ ground (arith, text_lt_swap a b (differ a b other))
]
  where
    differ : (a b : Text) → text_eq a b ≡ false → a ≢ b
    differ a b o e = ground (arith, text_eq_iff a b)

-- A thread that waits or is inside has the mutex of its pair; the holder of a mutex is the thread
-- inside with it.
pub record Inv (s : System) : Type 0 where
  pub waits :
      (i : ℕ) (a b : Text) (m : ℕ)
      → s.place i ≡ Place.waiting a b m
      → lookup (key a b) s.locks ≡ some m
  pub enters :
      (i : ℕ) (a b : Text) (m : ℕ)
      → s.place i ≡ Place.inside a b m
      → (lookup (key a b) s.locks ≡ some m) × (s.holder m ≡ some i)
  pub holds :
      (m i : ℕ) → s.holder m ≡ some i → (a : Text) × (b : Text) × (s.place i ≡ Place.inside a b m)

start-Inv : Inv start
start-Inv = record { waits = λ i a b m h. cc; enters = λ i a b m h. cc; holds = λ m i h. cc }

-- The mutexes in the table stay.
find_mutex-lookup :
    (k j : Text) (m : ℕ) (s : System)
    → lookup j s.locks ≡ some m
    → lookup j (find_mutex k s).1.locks ≡ some m
unfolding find_mutex
find_mutex-lookup k j m s h = ground (arith, lookup-insert k j s.next s.locks, text_eq_iff k j)

find_mutex-own :
    (k : Text) (s : System) → lookup k (find_mutex k s).1.locks ≡ some (find_mutex k s).0
unfolding find_mutex
find_mutex-own k s = ground (arith, lookup-insert k k s.next s.locks, text_eq_iff k k)

find_mutex-rest :
    (k : Text) (s : System)
    → ((find_mutex k s).1.holder ≡ s.holder) × ((find_mutex k s).1.place ≡ s.place)
unfolding find_mutex
find_mutex-rest k s = ground arith

-- A thread of the table after one has changed: that one, or another as before.
at-cases :
    {A : Type 0} (f : ℕ → A) (i j : ℕ) (a b : A)
    → at f i a j ≡ b
    → ((j ≡ i) × (a ≡ b)) ⊎ ((j ≢ i) × (f j ≡ b))
at-cases f i j a b h = elim (Bool-cases (j == i)) [
  | inl same ↦ inl (ground (arith, ==_iff j i), ground arith)
  | inr other ↦ inr (ground (arith, ==_iff j i), ground arith)
]

at-same : {A : Type 0} (f : ℕ → A) (i : ℕ) (a : A) → at f i a i ≡ a
at-same f i a = ground (arith, ==_iff i i)

at-other : {A : Type 0} (f : ℕ → A) (i j : ℕ) (a : A) → j ≢ i → at f i a j ≡ f j
at-other f i j a h = ground (arith, ==_iff j i)

some-inj : (i j : ℕ) → some i ≡ some j → i ≡ j
some-inj i j h = cc

waiting-eq :
    (a b c d : Text) (m n : ℕ)
    → Place.waiting a b m ≡ Place.waiting c d n
    → (a ≡ c) × (b ≡ d) × (m ≡ n)
waiting-eq a b c d m n h = (cc, cc, cc)

inside-eq :
    (a b c d : Text) (m n : ℕ)
    → Place.inside a b m ≡ Place.inside c d n
    → (a ≡ c) × (b ≡ d) × (m ≡ n)
inside-eq a b c d m n h = (cc, cc, cc)

ask-Inv : (i : ℕ) (a b : Text) (s : System) → s.place i ≡ Place.outside → Inv s → Inv (ask i a b s)
unfolding ask
ask-Inv i a b s out v =
    let (h, p) = find_mutex-rest (key a b) s in
    let own = find_mutex-own (key a b) s in
    let r = find_mutex (key a b) s in
    record {
      waits = λ j c d m w.
          elim (at-cases r.1.place i j (Place.waiting a b r.0) (Place.waiting c d m) w) [
            | inl (e, q) ↦
                let (x, y, z) = waiting-eq a b c d r.0 m q in
                ap (λ g. lookup g r.1.locks) (sym (ap (λ g. key g b) x ∙ ap (λ g. key c g) y))
                ∙ own
                ∙ ap some z
            | inr (n, q) ↦
                find_mutex-lookup (key a b) (key c d) m s
                  (v.waits j c d m (sym (ap (λ g. g j) p) ∙ q))
          ];
      enters = λ j c d m w.
          elim (at-cases r.1.place i j (Place.waiting a b r.0) (Place.inside c d m) w) [
            | inl (e, q) ↦ cc
            | inr (n, q) ↦
                let (l, o) = v.enters j c d m (sym (ap (λ g. g j) p) ∙ q) in
                (find_mutex-lookup (key a b) (key c d) m s l, ap (λ g. g m) h ∙ o)
          ];
      holds = λ m j w.
          let (c, d, q) = v.holds m j (sym (ap (λ g. g m) h) ∙ w) in
          (c, d, at-other r.1.place i j (Place.waiting a b r.0) (λ e. cc) ∙ ap (λ g. g j) p ∙ q);
    }

acquire-Inv :
    (i : ℕ) (a b : Text) (m : ℕ) (s : System)
    → s.place i ≡ Place.waiting a b m
    → s.holder m ≡ none
    → Inv s
    → Inv (acquire i a b m s)
unfolding acquire
acquire-Inv i a b m s at_i free v = record {
  waits = λ j c d n w. elim (at-cases s.place i j (Place.inside a b m) (Place.waiting c d n) w) [
    | inl (e, q) ↦ cc
    | inr (_, q) ↦ v.waits j c d n q
  ];
  enters = λ j c d n w. elim (at-cases s.place i j (Place.inside a b m) (Place.inside c d n) w) [
    | inl (e, q) ↦
        let (x, y, z) = inside-eq a b c d m n q in
        (
          ap (λ g. lookup g s.locks) (sym (ap (λ g. key g b) x ∙ ap (λ g. key c g) y))
              ∙ v.waits i a b m at_i
              ∙ ap some z,
          ap (at s.holder m (some i)) (sym z) ∙ at-same s.holder m (some i) ∙ ap some (sym e),
        )
    | inr (_, q) ↦
        let (l, o) = v.enters j c d n q in (l, at-other s.holder m n (some i) (λ e. cc) ∙ o)
  ];
  holds = λ n j w. elim (at-cases s.holder m n (some i) (some j) w) [
    | inl (e, q) ↦ (
      a,
      b,
      ap (at s.place i (Place.inside a b m)) (sym (some-inj i j q))
          ∙ at-same s.place i (Place.inside a b m)
          ∙ ap (Place.inside a b) (sym e),
    )
    | inr (_, q) ↦
        let (c, d, p) = v.holds n j q in
        (c, d, at-other s.place i j (Place.inside a b m) (λ e. cc) ∙ p)
  ];
}

release-Inv :
    (i : ℕ) (a b : Text) (m : ℕ) (s : System)
    → s.place i ≡ Place.inside a b m
    → Inv s
    → Inv (release i m s)
unfolding release
release-Inv i a b m s at_i v =
    let (_, held) = v.enters i a b m at_i in
    record {
      waits = λ j c d n w. elim (at-cases s.place i j Place.outside (Place.waiting c d n) w) [
        | inl (e, q) ↦ cc
        | inr (_, q) ↦ v.waits j c d n q
      ];
      enters = λ j c d n w. elim (at-cases s.place i j Place.outside (Place.inside c d n) w) [
        | inl (e, q) ↦ cc
        | inr (other, q) ↦
            let (l, o) = v.enters j c d n q in
            (
              l,
              at-other s.holder m n none (λ e. other (some-inj j i (sym o ∙ ap s.holder e ∙ held)))
                  ∙ o,
            )
      ];
      holds = λ n j w. elim (at-cases s.holder m n none (some j) w) [
        | inl (e, q) ↦ cc
        | inr (other, q) ↦
            let (c, d, p) = v.holds n j q in
            (
              c,
              d,
              at-other s.place i j Place.outside
                    (λ e. other (inside-eq c d a b n m (sym p ∙ ap s.place e ∙ at_i)).2)
                  ∙ p,
            )
      ];
    }

Reach-Inv : {s : System} → Reach s → Inv s
Reach-Inv Reach.begin = start-Inv
Reach-Inv (Reach.later {s} r (Step.asks i a b h)) = ask-Inv i a b s h (Reach-Inv r)
Reach-Inv (Reach.later {s} r (Step.acquires i a b m h f)) = acquire-Inv i a b m s h f (Reach-Inv r)
Reach-Inv (Reach.later {s} r (Step.releases i a b m h)) = release-Inv i a b m s h (Reach-Inv r)

-- While a thread is inside for a pair no other is, in whatever order it names the pair.
pub one_inside :
    {s : System}
    → Reach s
    → (i j : ℕ) (a b c d : Text) (m n : ℕ) → i ≢ j
    → ((c ≡ a) × (d ≡ b)) ⊎ ((c ≡ b) × (d ≡ a))
    → s.place i ≡ Place.inside a b m
    → s.place j ≢ Place.inside c d n
one_inside {s} r i j a b c d m n apart pair h k =
    let v = Reach-Inv r in
    let (l, held) = v.enters i a b m h in
    let (l', held') = v.enters j c d n k in
    let e : key c d ≡ key a b = elim pair [
      | inl (p, q) ↦ ap (λ g. key g d) p ∙ ap (key a) q
      | inr (p, q) ↦ ap (λ g. key g d) p ∙ ap (key b) q ∙ key_comm b a
    ] in
    let o = some-inj m n (sym l ∙ ap (λ g. lookup g s.locks) (sym e) ∙ l') in
    apart (some-inj i j (sym held ∙ ap s.holder o ∙ held'))

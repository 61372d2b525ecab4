-- ===== src/PairLock/Tests.antt =====
-- Two threads that ask for one pair in opposite orders: the second waits.
use finance_app.Base.{inr, ◌≢◌, refl}
use finance_app.Base.Text.{codes, text_lt, text_eq}
use finance_app.Base.Assoc
use finance_app.Base.Assoc.{lookup}
use finance_app.PairLock.{Place, System, Step, Reach, key, start, find_mutex, ask, acquire}
use finance_app.PairLock.Exclusion.{one_inside}

abbrev both_ask : System
both_ask = ask 2 (codes "b") (codes "a") (ask 1 (codes "a") (codes "b") start)

first_inside : Reach (acquire 1 (codes "a") (codes "b") 0 both_ask)
unfolding ask key find_mutex text_lt lookup Assoc.insert text_eq
first_inside =
    Reach.later
      (Reach.later (Reach.later Reach.begin (Step.asks 1 (codes "a") (codes "b") refl))
        (Step.asks 2 (codes "b") (codes "a") refl))
      (Step.acquires 1 (codes "a") (codes "b") 0 refl refl)

one_inside_example :
    (acquire 1 (codes "a") (codes "b") 0 both_ask).place 2 ≢ Place.inside (codes "b") (codes "a") 0
unfolding ask acquire key find_mutex text_lt lookup Assoc.insert text_eq
one_inside_example =
    one_inside first_inside 1 2 (codes "a") (codes "b") (codes "b") (codes "a") 0 0 (λ e. cc)
      (inr (refl, refl)) refl

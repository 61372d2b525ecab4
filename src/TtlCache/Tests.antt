-- ===== src/TtlCache/Tests.antt =====
-- A value that is written twice.
use finance_app.Base.{ℕ, ◌≡◌, some, List, [], ◌∷◌}
use finance_app.Base.Text.{codes, text_eq}
use finance_app.Base.Assoc
use finance_app.Base.Assoc.{lookup}
use finance_app.TtlCache.{new, get, set, invalidate}
use finance_app.TtlCache.Replay.{Call, run, replay, shown, get-run_refines}

abbrev calls : List (Call ℕ)
calls =
    Call.sets 5 (codes "k") 1
    ∷ Call.sets 6 (codes "j") 2
    ∷ Call.sets 9 (codes "k") 3
    ∷ Call.invalidates (codes "j")
    ∷ []

get-run_refines_example : get 19 (codes "k") (run calls (new 10)) ≡ some 3
unfolding get run set invalidate replay shown lookup Assoc.insert Assoc.erase text_eq
get-run_refines_example = get-run_refines 10 19 calls (codes "k")

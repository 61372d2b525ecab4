-- ===== src/Base/Text/Laws.antt =====
-- Equality and order of texts.
use mathlib.Core.Path.{◌≡◌, refl}
use mathlib.Core.Logic.{◌↔◌, ◌≢◌}
use mathlib.Core.Bool.{true, not}
use mathlib.Core.List.{[], ◌∷◌}
use native.Mathlib.Omega.{arith}
use finance_app.Base.Text.Defs.{Text, text_eq, text_lt}

pub eq_of_text_eq : (s t : Text) → text_eq s t ≡ true → s ≡ t
unfolding text_eq
eq_of_text_eq [] [] h = refl
eq_of_text_eq [] (y ∷ t) h = cc
eq_of_text_eq (x ∷ s) [] h = cc
eq_of_text_eq (x ∷ s) (y ∷ t) h = ground (arith, eq_of_text_eq s t)

pub text_eq_refl : (s : Text) → text_eq s s ≡ true
unfolding text_eq
text_eq_refl [] = refl
text_eq_refl (x ∷ s) = ground (arith, text_eq_refl s)

pub text_eq_iff : (s t : Text) → (text_eq s t ≡ true) ↔ (s ≡ t)
text_eq_iff s t = (eq_of_text_eq s t, λ e. rw (← e) (text_eq_refl s))

-- The order is total and asymmetric.
pub text_lt_swap : (s t : Text) → s ≢ t → text_lt s t ≡ not (text_lt t s)
unfolding text_lt
text_lt_swap [] [] h = absurd (h refl)
text_lt_swap [] (y ∷ t) h = refl
text_lt_swap (x ∷ s) [] h = refl
text_lt_swap (x ∷ s) (y ∷ t) h = ground (arith, text_lt_swap s t)

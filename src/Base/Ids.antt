-- ===== src/Base/Ids.antt =====
-- Identifiers and the keys that are joined from two of them (`followKey`, `blockKey`, `pairKey`).
-- User, message and conversation ids are UUIDs in their canonical text form.
use Prim.Native.Nat.{ℕ}
use mathlib.Core.Path.{◌≡◌}
use mathlib.Core.Bool.{Bool, true, ◌&&◌, ◌||◌}
use mathlib.Core.List.{[], ◌∷◌, ◌++◌}
use native.Mathlib.Omega.{arith}
use finance_app.Base.Tests.{leb, ◌==◌}
use finance_app.Base.Lists.{all_of}
use finance_app.Base.Text.{Text, text_eq, text_eq_iff}

-- A lower-case hexadecimal digit or a dash.
abbrev pub is_id_char : ℕ → Bool
is_id_char c = (leb b'0' c && leb c b'9') || (leb b'a' c && leb c b'f') || c == b'-'

abbrev pub IsId : Text → Type 0
IsId s = all_of is_id_char s ≡ true

-- Two ids joined by `->` determine both.
pub arrow_injective :
    (a c b d : Text)
    → IsId a
    → IsId c
    → a ++ (b'-' ∷ b'>' ∷ b) ≡ c ++ (b'-' ∷ b'>' ∷ d)
    → (a ≡ c) × (b ≡ d)
arrow_injective [] [] b d h k e = ground arith
arrow_injective [] (y ∷ []) b d h k e = ground arith
arrow_injective [] (y ∷ z ∷ c) b d h k e = ground arith
arrow_injective (x ∷ []) [] b d h k e = ground arith
arrow_injective (x ∷ z ∷ a) [] b d h k e = ground arith
arrow_injective (x ∷ a) (y ∷ c) b d h k e = ground (arith, arrow_injective a c b d)

-- Keys of two ids are equal exactly if their parts are.
pub arrow_key_eq :
    (a b c d : Text)
    → IsId a
    → IsId c
    → text_eq (a ++ (b'-' ∷ b'>' ∷ b)) (c ++ (b'-' ∷ b'>' ∷ d)) ≡ (text_eq a c && text_eq b d)
arrow_key_eq a b c d h k = ground (
  arith,
  text_eq_iff (a ++ (b'-' ∷ b'>' ∷ b)) (c ++ (b'-' ∷ b'>' ∷ d)),
  text_eq_iff a c,
  text_eq_iff b d,
  arrow_injective a c b d h k,
)

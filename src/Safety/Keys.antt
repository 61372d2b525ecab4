-- ===== src/Safety/Keys.antt =====
-- The block store as a relation between users: what each write changes.
use finance_app.Base.{ℕ, ◌≡◌, refl, false, ◌&&◌, ◌||◌, if◌then◌else◌, arith}
use finance_app.Base.Text.{Text, text_eq, text_eq_iff}
use finance_app.Base.Assoc.{lookup-insert, lookup-erase}
use finance_app.Base.Ids.{IsId, arrow_key_eq}
use finance_app.Safety.Defs.{Block, Blocks}
use finance_app.Safety.Store.{block_key, block, unblock, is_blocked, is_blocked_either_direction}

pub block_key_eq :
    (a b c d : Text)
    → IsId a
    → IsId c
    → text_eq (block_key a b) (block_key c d) ≡ (text_eq a c && text_eq b d)
unfolding block_key
block_key_eq a b c d h k = arrow_key_eq a b c d h k

-- A block adds the pair of blocker and blocked, and nothing else.
pub is_blocked-block :
    (now : ℕ) (a b c d : Text) (r : Blocks)
    → IsId a
    → IsId c
    → is_blocked c d (block now a b r) ≡ ((text_eq a c && text_eq b d) || is_blocked c d r)
unfolding is_blocked block
is_blocked-block now a b c d r h k =
    let added : Block = record { blocker_user_id = a; blocked_user_id = b; created_at = now } in
    ground (
      arith,
      block_key_eq a b c d h k,
      text_eq_iff (block_key a b) (block_key c d),
      lookup-insert (block_key a b) (block_key c d) added r,
    )

-- An unblock takes that pair away, and nothing else.
pub is_blocked-unblock :
    (a b c d : Text) (r : Blocks)
    → IsId a
    → IsId c
    → is_blocked c d (unblock a b r)
      ≡ (if text_eq a c && text_eq b d then false else is_blocked c d r)
unfolding is_blocked unblock
is_blocked-unblock a b c d r h k =
    ground (arith, block_key_eq a b c d h k, lookup-erase (block_key a b) (block_key c d) r)

pub is_blocked_either_direction_lem :
    (a b : Text) (r : Blocks)
    → is_blocked_either_direction a b r ≡ (is_blocked a b r || is_blocked b a r)
unfolding is_blocked is_blocked_either_direction
is_blocked_either_direction_lem a b r = refl

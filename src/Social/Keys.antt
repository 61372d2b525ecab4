-- ===== src/Social/Keys.antt =====
-- The follow store as a relation between users: what each write changes.
use finance_app.Base.{ℕ, ◌≡◌, false, ◌&&◌, ◌||◌, if◌then◌else◌, arith}
use finance_app.Base.Text.{Text, text_eq, text_eq_iff}
use finance_app.Base.Assoc.{lookup-insert, lookup-erase}
use finance_app.Base.Ids.{IsId, arrow_key_eq}
use finance_app.Social.Defs.{Follow, Repository}
use finance_app.Social.Follows.{follow_key, follow, unfollow, is_following}

pub follow_key_eq :
    (a b c d : Text)
    → IsId a
    → IsId c
    → text_eq (follow_key a b) (follow_key c d) ≡ (text_eq a c && text_eq b d)
unfolding follow_key
follow_key_eq a b c d h k = arrow_key_eq a b c d h k

-- A follow adds the pair of follower and followed, and nothing else.
pub is_following-follow :
    (now : ℕ) (a b c d : Text) (r : Repository)
    → IsId a
    → IsId c
    → is_following c d (follow now a b r) ≡ ((text_eq a c && text_eq b d) || is_following c d r)
unfolding is_following follow
is_following-follow now a b c d r h k =
    let added : Follow = record { follower_user_id = a; following_user_id = b; created_at = now } in
    ground (
      arith,
      follow_key_eq a b c d h k,
      text_eq_iff (follow_key a b) (follow_key c d),
      lookup-insert (follow_key a b) (follow_key c d) added r.follows,
    )

-- An unfollow takes that pair away, and nothing else.
pub is_following-unfollow :
    (a b c d : Text) (r : Repository)
    → IsId a
    → IsId c
    → is_following c d (unfollow a b r)
      ≡ (if text_eq a c && text_eq b d then false else is_following c d r)
unfolding is_following unfollow
is_following-unfollow a b c d r h k =
    ground
      (arith, follow_key_eq a b c d h k, lookup-erase (follow_key a b) (follow_key c d) r.follows)

-- ===== src/Separation/Preserve.antt =====
-- What a write of one store does to the separation of the two.
use finance_app.Base.{ℕ, ◌≡◌, refl, true, false, [], arith}
use finance_app.Base.Assoc.{lookup}
use finance_app.Base.Text.{Text, text_eq_iff}
use finance_app.Base.Ids.{IsId}
use finance_app.Safety.Store.{is_blocked, block, unblock, is_blocked_either_direction}
use finance_app.Safety.Keys.{is_blocked-block, is_blocked-unblock, is_blocked_either_direction_lem}
use finance_app.Social.{Repository, new_repository}
use finance_app.Social.Follows.{is_following, follow, unfollow}
use finance_app.Social.Keys.{is_following-follow, is_following-unfollow}
use finance_app.Separation.System.{System}

abbrev pub IsSeparated : System → Type 0
IsSeparated s =
    (a b : Text)
    → IsId a
    → IsId b
    → is_blocked_either_direction a b s.blocks ≡ true
    → is_following a b s.social ≡ false

-- A follow of a pair with no block keeps the stores apart.
pub follow-IsSeparated :
    (now : ℕ) (u t : Text) (s : System)
    → IsId u
    → IsId t
    → is_blocked_either_direction u t s.blocks ≡ false
    → IsSeparated s
    → IsSeparated (record s { social = follow now u t s.social })
unfolding is_blocked_either_direction
follow-IsSeparated now u t s hu ht free sep a b ha hb blocked = ground (
  arith,
  is_following-follow now u t a b s.social hu ha,
  text_eq_iff u a,
  text_eq_iff t b,
  sep a b ha hb blocked,
)

pub unfollow-IsSeparated :
    (u t : Text) (s : System)
    → IsId u
    → IsSeparated s
    → IsSeparated (record s { social = unfollow u t s.social })
unfollow-IsSeparated u t s hu sep a b ha hb blocked =
    ground (arith, is_following-unfollow u t a b s.social hu ha, sep a b ha hb blocked)

-- A block with the removal of both follows keeps the stores apart.
pub block-IsSeparated :
    (now : ℕ) (u t : Text) (s : System)
    → IsId u
    → IsId t
    → IsSeparated s
    → IsSeparated
        (record { blocks = block now u t s.blocks; social = unfollow t u (unfollow u t s.social) })
block-IsSeparated now u t s hu ht sep a b ha hb blocked = ground (
  arith,
  is_blocked-block now u t a b s.blocks hu ha,
  is_blocked-block now u t b a s.blocks hu hb,
  is_following-unfollow t u a b (unfollow u t s.social) ht ha,
  is_following-unfollow u t a b s.social hu ha,
  text_eq_iff u a,
  text_eq_iff t b,
  text_eq_iff u b,
  text_eq_iff t a,
  is_blocked_either_direction_lem a b s.blocks,
  is_blocked_either_direction_lem a b (block now u t s.blocks),
  sep a b ha hb,
)

pub now_blocked :
    (now : ℕ) (u t : Text) (s : System) → IsId u → is_blocked u t (block now u t s.blocks) ≡ true
now_blocked now u t s hu =
    ground (arith, is_blocked-block now u t u t s.blocks hu hu, text_eq_iff u u, text_eq_iff t t)

pub unfollow_both :
    (u t : Text) (r : Repository)
    → IsId u
    → IsId t
    → (is_following u t (unfollow t u (unfollow u t r)) ≡ false)
      × (is_following t u (unfollow t u (unfollow u t r)) ≡ false)
unfollow_both u t r hu ht = ground (
  arith,
  is_following-unfollow u t u t r hu hu,
  is_following-unfollow t u u t (unfollow u t r) ht hu,
  is_following-unfollow t u t u (unfollow u t r) ht ht,
  text_eq_iff u u,
  text_eq_iff t t,
)

pub unblock-IsSeparated :
    (u t : Text) (s : System)
    → IsId u
    → IsSeparated s
    → IsSeparated (record s { blocks = unblock u t s.blocks })
unblock-IsSeparated u t s hu sep a b ha hb blocked = ground (
  arith,
  is_blocked-unblock u t a b s.blocks hu ha,
  is_blocked-unblock u t b a s.blocks hu hb,
  is_blocked_either_direction_lem a b s.blocks,
  is_blocked_either_direction_lem a b (unblock u t s.blocks),
  sep a b ha hb,
)

pub empty-IsSeparated : IsSeparated (record { blocks = []; social = new_repository })
unfolding is_following lookup
empty-IsSeparated a b ha hb h = refl

-- ===== src/Safety/Gate.antt =====
-- The interaction gate and the block-set.
use finance_app.Base.{
  ◌≡◌, refl, ◌↔◌, ◌≢◌, Bool, true, false, ◌&&◌, ◌||◌, none, some, List, [], ◌∷◌, if◌then◌else◌,
  is_some, arith, any_of,
}
use finance_app.Base.Text.{Text, text_eq, text_eq_iff}
use finance_app.Base.Assoc.{Map, lookup, insert, values, IsUnique, lookup-insert, lookup-nil}
use finance_app.Base.Result.{Result, ok}
use finance_app.Base.Ids.{IsId}
use finance_app.Errors.{SafetyError}
use finance_app.Safety.Defs.{Block, Blocks, Service}
use finance_app.Safety.Store.{
  block_key, is_blocked, is_blocked_either_direction, pair_ids_from, blocked_pair_user_ids,
}
use finance_app.Safety.Keys.{block_key_eq}
use finance_app.Safety.Methods.{can_users_interact}

-- With a status provider, two users may interact exactly if neither is suspended or banned and
-- neither has blocked the other.
pub can_users_interact_iff :
    {S : Type 0} (svc : Service S) (a b : Text) (r : Blocks)
    (status : Text → Result SafetyError (Bool × Bool))
    → svc.status ≡ some status
    → (can_users_interact svc a b r ≡ ok true) ↔ (
        (status a ≡ ok (false, false))
        × (status b ≡ ok (false, false))
        × (is_blocked a b r ≡ false)
        × (is_blocked b a r ≡ false))
unfolding can_users_interact is_blocked_either_direction is_blocked
can_users_interact_iff svc a b r status wired = (λ h. ground arith, λ h. ground arith)

-- Every refusal of the gate is an error: it never answers `false` without one.
pub can_users_interact-ne-false :
    {S : Type 0} (svc : Service S) (a b : Text) (r : Blocks)
    → can_users_interact svc a b r ≢ ok false
unfolding can_users_interact
can_users_interact-ne-false svc a b r h = ground arith

abbrev pub set_has : Text → Map Bool → Bool
set_has user set = elim (lookup user set) [ none ↦ false | some b ↦ b ]

-- Every block stands under the key of its two users, whose ids are ids.
abbrev pub IsKeyed : Blocks → Type 0
IsKeyed [] = Unit
IsKeyed ((k, b) ∷ m) =
    (k ≡ block_key b.blocker_user_id b.blocked_user_id)
    × IsId b.blocker_user_id
    × IsId b.blocked_user_id
    × IsKeyed m

abbrev pub joins : Text → Text → Block → Bool
joins user other b =
    (text_eq b.blocker_user_id user && text_eq b.blocked_user_id other)
    || (text_eq b.blocked_user_id user && text_eq b.blocker_user_id other)

pair_ids_from_lem :
    (user other : Text) (bs : List Block) (out : Map Bool)
    → set_has other (pair_ids_from user bs out)
      ≡ (set_has other out || any_of (joins user other) bs)
unfolding pair_ids_from
pair_ids_from_lem user other [] out = ground arith
pair_ids_from_lem user other (b ∷ bs) out =
    let out1 =
      (if text_eq b.blocker_user_id user then insert b.blocked_user_id true out else out) in
    let out2 =
      (if text_eq b.blocked_user_id user then insert b.blocker_user_id true out1 else out1) in
    ground (
      arith,
      pair_ids_from_lem user other bs out2,
      lookup-insert b.blocked_user_id other true out,
      lookup-insert b.blocker_user_id other true out1,
    )

joins-values :
    (user other : Text) (m : Blocks)
    → IsId user
    → IsId other
    → IsKeyed m
    → IsUnique m
    → any_of (joins user other) (values m)
      ≡ (is_some (lookup (block_key user other) m) || is_some (lookup (block_key other user) m))
unfolding lookup
joins-values user other [] hu ho v u = refl
joins-values user other ((k, b) ∷ m) hu ho v u = ground (
  arith,
  joins-values user other m hu ho v.3 u.1,
  block_key_eq b.blocker_user_id b.blocked_user_id user other v.1 hu,
  block_key_eq b.blocker_user_id b.blocked_user_id other user v.1 ho,
  text_eq_iff b.blocker_user_id user,
  text_eq_iff b.blocked_user_id other,
  text_eq_iff b.blocker_user_id other,
  text_eq_iff b.blocked_user_id user,
  text_eq_iff k (block_key user other),
  text_eq_iff k (block_key other user),
)

-- In a store where each block stands once, under the key of its two ids, the block-set of a user
-- holds another user exactly if there is a block between the two, in either direction.
blocked_pair_user_ids_iff :
    (user other : Text) (r : Blocks)
    → IsId user
    → IsId other
    → IsKeyed r
    → IsUnique r
    → set_has other (blocked_pair_user_ids user r) ≡ is_blocked_either_direction user other r
unfolding is_blocked_either_direction is_blocked blocked_pair_user_ids
blocked_pair_user_ids_iff user other r hu ho v u = ground (
  arith,
  pair_ids_from_lem user other (values r) [],
  joins-values user other r hu ho v u,
  lookup-nil {V = Bool} other,
)

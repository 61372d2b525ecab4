-- ===== src/Safety/Tests.antt =====
-- Blocks at concrete stores.
use finance_app.Base.{ℕ, ◌≡◌, refl, ◌↔◌, ◌+◌, Bool, true, false, none, some, Option, [], ◌∷◌}
use finance_app.Base.Assoc
use finance_app.Base.Text
use finance_app.Base.Text.{Text, codes}
use finance_app.Base.Result.{Result, ok, err}
use finance_app.Errors.{ProfileError, SafetyError, SocialError}
use finance_app.Safety.Defs.{Blocks, Service}
use finance_app.Safety.Store
use finance_app.Safety.Store.{is_blocked, is_blocked_either_direction, blocked_pair_user_ids}
use finance_app.Safety.Methods
use finance_app.Safety.Methods.{block_target, can_users_interact}
use finance_app.Safety.Blocking.{block_target_rollback}
use finance_app.Safety.Gate.{can_users_interact_iff}

abbrev ann : Text
ann = codes "a-1"

abbrev ben : Text
ben = codes "b-2"

-- The removal of follows fails; its calls are counted.
abbrev remove : Text → Text → ℕ → Option SocialError × ℕ
remove a b n = (some (SocialError.storage []), n + 1)

abbrev status : Text → Result SafetyError (Bool × Bool)
status id = ok (false, false)

abbrev service : Service ℕ
service = record {
  profiles = record {
    get_by_user_id = λ id. err ProfileError.not_found;
    get_by_handle = λ h. err ProfileError.not_found;
  };
  follows = some remove;
  status = some status;
  coordinator = none;
}

abbrev blocks : Blocks
blocks =
    (codes "b-2->a-1", record { blocker_user_id = ben; blocked_user_id = ann; created_at = 3 }) ∷ []

computing : Unit {0}
unfolding Assoc.lookup Assoc.insert Assoc.erase Text.text_eq Store.block_key Store.block
    Store.unblock Store.is_blocked Store.is_blocked_either_direction Store.pair_ids_from
    Store.blocked_pair_user_ids Methods.block_target Methods.finish_block Methods.can_users_interact
computing = tt

block_target_rollback_example :
    let (e', r', s') = block_target service 9 ann ben blocks 0 in
    (e' ≡ some SafetyError.block_failed) × (is_blocked ann ben r' ≡ is_blocked ann ben blocks)
unfolding computing
block_target_rollback_example =
    block_target_rollback service 9 ann ben ann ben blocks 0 remove refl refl refl refl refl

can_users_interact_iff_example : (can_users_interact service ann ben blocks ≡ ok true) ↔ (
    (status ann ≡ ok (false, false))
    × (status ben ≡ ok (false, false))
    × (is_blocked ann ben blocks ≡ false)
    × (is_blocked ben ann blocks ≡ false))
can_users_interact_iff_example = can_users_interact_iff service ann ben blocks status refl

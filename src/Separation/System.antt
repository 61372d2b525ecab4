-- ===== src/Separation/System.antt =====
-- The two stores together, and the calls on them that change blocks or follows. `Follow` and
-- `Block` of one pair hold the same lock of internal/pairlock, so a call is one step.
use finance_app.Base.{ℕ, Bool, Option, none, some, List, [], ◌∷◌}
use finance_app.Base.Text.{Text}
use finance_app.Base.Result.{Result, ok}
use finance_app.Errors.{SafetyError, SocialError}
use finance_app.Profile.{ProfileRepository}
use finance_app.Safety.{Blocks, Service as SafetyService}
use finance_app.Safety.Methods.{
  block as block_by_handle, unblock as unblock_by_handle, can_users_interact, blocked_pair_user_ids,
}
use finance_app.Social.{Repository, MessageNotification, Service as SocialService}
use finance_app.Social.Methods.{
  follow as follow_by_handle, unfollow as unfollow_by_handle, remove_follow_both_directions,
}

-- What main.go hands to both services; `N` is the state of the notified component.
pub record Wiring (N : Type 0) : Type 0 where
  pub profiles : ProfileRepository
  pub status : Option (Text → Result SafetyError (Bool × Bool))
  pub notifier : Option (MessageNotification → N → Option SocialError × N)

pub record System : Type 0 where
  pub blocks : Blocks
  pub social : Repository

-- The calls of the two services, with their time, caller and handle.
pub data Call : Type 0 where
  follow block : ℕ → Text → Text → Call
  unfollow unblock : Text → Text → Call

-- The caller of a call.
abbrev pub caller : Call → Text
caller (follow _ user _) = user
caller (block _ user _) = user
caller (unfollow user _) = user
caller (unblock user _) = user

module _ {N : Type 0} where
  unfoldable pub safety_service : Wiring N → SafetyService Repository
  safety_service w = record {
    profiles = w.profiles;
    follows = some remove_follow_both_directions;
    status = w.status;
    coordinator = none;
  }

  -- The social service asks the safety service, which reads the blocks of the moment.
  unfoldable pub social_service : Wiring N → Blocks → SocialService N
  unfolding safety_service
  social_service w blocks = record {
    profiles = w.profiles;
    policy = some (λ a b. can_users_interact (safety_service w) a b blocks);
    blocked = some (λ user. ok (blocked_pair_user_ids (safety_service w) user blocks));
    notifier = w.notifier;
  }

  unfoldable pub step : Wiring N → Call → System → System
  unfolding safety_service social_service
  step w (follow now user handle) s = record s {
    social = (follow_by_handle (social_service w s.blocks) now user handle s.social).1;
  }
  step w (unfollow user handle) s = record s {
    social = (unfollow_by_handle (social_service w s.blocks) user handle s.social).1;
  }
  step w (block now user handle) s =
      let (e, blocks, social) =
        block_by_handle (safety_service w) now user handle s.blocks s.social in
      record { blocks = blocks; social = social }
  step w (unblock user handle) s = record s {
    blocks = (unblock_by_handle (safety_service w) user handle s.blocks).1;
  }

  unfoldable pub run : Wiring N → List Call → System → System
  run w [] s = s
  run w (c ∷ cs) s = run w cs (step w c s)

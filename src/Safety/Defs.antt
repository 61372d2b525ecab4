-- ===== src/Safety/Defs.antt =====
-- safety/model.go, and the interfaces that the service of safety/service.go is given.
use finance_app.Base.{ℕ, Bool, Option}
use finance_app.Base.Text.{Text}
use finance_app.Base.Result.{Result}
use finance_app.Base.Assoc.{Map}
use finance_app.Errors.{SafetyError, SocialError}
use finance_app.Profile.{ProfileRepository}

pub record Block : Type 0 where
  pub blocker_user_id : Text
  pub blocked_user_id : Text
  pub created_at : ℕ

-- `InMemoryRepository`: its `blocks`.
abbrev pub Blocks : Type 0
Blocks = Map Block

pub record BlockedUserItem : Type 0 where
  pub handle : Text
  pub display_name : Text
  pub avatar_key : Text
  pub blocked_at : ℕ

-- `S` is the state that the given components keep: the follow relationships, and the database of
-- the coordinator. A nil interface is `none`.
pub record Service (S : Type 0) : Type 0 where
  pub profiles : ProfileRepository
  -- `RemoveFollowBothDirections`
  pub follows : Option (Text → Text → S → Option SocialError × S)
  -- `UserStatus`: suspended, banned
  pub status : Option (Text → Result SafetyError (Bool × Bool))
  -- `BlockAndRemoveRelationships`
  pub coordinator : Option (Text → Text → S → Option SafetyError × S)

-- ===== src/Errors.antt =====
-- The error values of the packages: profile/validation.go, safety/errors.go, social/errors.go and
-- moderation/errors.go. An error that a package hands on from another stays that other's value,
-- as `errors.Is` sees it.
use finance_app.Base.Text.{Text}

pub data ProfileError : Type 0 where
  not_found handle_exists safety_unavailable ranked_data_unavailable : ProfileError
  -- `fmt.Errorf("%w: %s", ErrInvalid, message)`
  invalid : Text → ProfileError
  storage : Text → ProfileError

pub data SafetyError : Type 0 where
  self_block blocked not_found invalid_handle forbidden user_suspended user_banned : SafetyError
  block_failed : SafetyError
  of_profile : ProfileError → SafetyError
  storage : Text → SafetyError

pub data SocialError : Type 0 where
  not_found invalid_handle self_follow self_dm not_friends invalid_message : SocialError
  message_too_long message_rate_limited conversation_limited repeated_message : SocialError
  spam_burst conversation_not_found forbidden interaction_blocked message_not_found : SocialError
  safety_unavailable : SocialError
  of_profile : ProfileError → SocialError
  of_safety : SafetyError → SocialError
  storage : Text → SocialError

pub data ModerationError : Type 0 where
  self_report invalid_category duplicate_report not_found invalid_action : ModerationError
  moderation_forbidden message_not_accessible already_resolved : ModerationError
  storage : Text → ModerationError

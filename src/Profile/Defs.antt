-- ===== src/Profile/Defs.antt =====
-- profile/model.go, and the interface `ProfileRepository` of social/service.go and
-- safety/service.go.
use finance_app.Base.{ℕ, Bool}
use finance_app.Base.Text.{Text}
use finance_app.Base.Result.{Result}
use finance_app.Errors.{ProfileError}

pub record Profile : Type 0 where
  pub user_id : Text
  pub handle : Text
  pub display_name : Text
  pub avatar_key : Text
  pub bio : Text
  pub strategy_tag : Text
  pub is_public : Bool
  pub show_public_weights : Bool
  pub created_at : ℕ
  pub updated_at : ℕ

-- The lookups of a profile store, at one moment.
pub record ProfileRepository : Type 0 where
  pub get_by_user_id : Text → Result ProfileError Profile
  pub get_by_handle : Text → Result ProfileError Profile

-- ===== src/Separation/Refusal.antt =====
-- What a user is told who follows another across a block.
use finance_app.Base.{ℕ, ◌≡◌, refl, Bool, true, false, some, arith}
use finance_app.Base.Text.{Text, text_eq}
use finance_app.Base.Result.{Result, ok, err}
use finance_app.Errors.{SafetyError, SocialError}
use finance_app.Profile.{Profile}
use finance_app.Safety.{Blocks}
use finance_app.Safety.Store.{is_blocked_either_direction}
use finance_app.Safety.Methods.{can_users_interact}
use finance_app.Social.{Repository}
use finance_app.Social.Http.{error_status}
use finance_app.Social.Methods.{check_interaction, public_profile_by_handle, follow, follow_target}
use finance_app.Separation.System.{Wiring, social_service}

module _ {N : Type 0} (w : Wiring N) where
  -- As wired, with a status provider that reports neither of two users suspended or banned, a follow
  -- of the public profile of one by the other, with a block between them, changes no follow and is
  -- refused with the safety package's error, which the handler answers with status 500.
  pub blocked_follow_status :
      (now : ℕ) (user handle : Text) (t : Profile) (blocks : Blocks) (r : Repository)
      (status : Text → Result SafetyError (Bool × Bool))
      → w.status ≡ some status
      → status user ≡ ok (false, false)
      → status t.user_id ≡ ok (false, false)
      → public_profile_by_handle w.profiles handle ≡ ok t
      → text_eq t.user_id user ≡ false
      → is_blocked_either_direction user t.user_id blocks ≡ true
      → (follow (social_service w blocks) now user handle r
          ≡ (err (SocialError.of_safety SafetyError.blocked), r))
        × (error_status (SocialError.of_safety SafetyError.blocked) ≡ 500)
  unfolding follow follow_target check_interaction social_service can_users_interact error_status
  blocked_follow_status now user handle t blocks r status wired fit fit' found other blocked =
      (ground arith, refl)

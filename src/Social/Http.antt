-- ===== src/Social/Http.antt =====
-- social/handler.go: the HTTP status of an error. An error of the safety or profile package is none
-- of the errors that the switch lists.
use finance_app.Base.{ℕ}
use finance_app.Errors.{SocialError}

unfoldable pub error_status : SocialError → ℕ
error_status SocialError.invalid_handle = 400
error_status SocialError.invalid_message = 400
error_status SocialError.message_too_long = 400
error_status SocialError.self_follow = 400
error_status SocialError.self_dm = 400
error_status SocialError.not_friends = 403
error_status SocialError.interaction_blocked = 403
error_status SocialError.message_rate_limited = 429
error_status SocialError.conversation_limited = 429
error_status SocialError.repeated_message = 429
error_status SocialError.spam_burst = 429
error_status SocialError.forbidden = 403
error_status SocialError.not_found = 404
error_status SocialError.conversation_not_found = 404
error_status SocialError.message_not_found = 404
error_status _ = 500

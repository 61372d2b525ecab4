-- ===== src/Profile/Tests.antt =====
-- A generated handle.
use finance_app.Base.{◌≡◌}
use finance_app.Base.Text.{codes}
use finance_app.Base.Result.{ok}
use finance_app.Profile.Handle.{validate_handle, handle_candidate}
use finance_app.Profile.HandleLaws.{handle_candidate_valid}

handle_candidate_valid_example :
    validate_handle (handle_candidate (codes "Admin") (codes "7f-31")) ≡ ok tt
handle_candidate_valid_example = handle_candidate_valid (codes "Admin") (codes "7f-31")

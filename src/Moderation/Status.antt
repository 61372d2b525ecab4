-- ===== src/Moderation/Status.antt =====
-- moderation/model.go: the report statuses.

use finance_app.Base.Text.{Text, codes}

abbrev pub status_open : Text
status_open = codes "open"

abbrev pub under_review : Text
under_review = codes "under_review"

abbrev pub resolved_action_taken : Text
resolved_action_taken = codes "resolved_action_taken"

abbrev pub resolved_no_action : Text
resolved_no_action = codes "resolved_no_action"

-- ===== src/Moderation/Action.antt =====
-- moderation/model.go: the types of moderation actions.
use finance_app.Base.{List, [], ◌∷◌}
use finance_app.Base.Text.{Text, codes}

abbrev pub no_action : Text
no_action = codes "no_action"

abbrev pub warning : Text
warning = codes "warning"

abbrev pub temporary_suspension : Text
temporary_suspension = codes "temporary_suspension"

abbrev pub permanent_ban : Text
permanent_ban = codes "permanent_ban"

abbrev pub content_removal : Text
content_removal = codes "content_removal"

abbrev pub valid : List Text
valid = no_action ∷ warning ∷ temporary_suspension ∷ permanent_ban ∷ content_removal ∷ []

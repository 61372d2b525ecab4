-- ===== src/Moderation/Category.antt =====
-- moderation/model.go: the report categories.
use finance_app.Base.{List, [], ◌∷◌}
use finance_app.Base.Text.{Text, codes}

abbrev pub valid : List Text
valid =
    codes "harassment"
    ∷ codes "spam"
    ∷ codes "impersonation"
    ∷ codes "fraud_or_scam"
    ∷ codes "hate_or_abuse"
    ∷ codes "sexual_content"
    ∷ codes "threats"
    ∷ codes "privacy_violation"
    ∷ codes "other"
    ∷ []

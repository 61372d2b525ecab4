-- ===== src/Social/Participation.antt =====
-- social/service.go: hiding, reporting and reading messages, and their removal by a moderator.
use finance_app.Base.{ℕ, not, Option, some, [], ◌∷◌}
use finance_app.Base.Text.{Text}
use finance_app.Base.Result.{Result, ok, err, ◌>>=◌, ◌>>◌, refuse_if}
use finance_app.Errors.{SocialError}
use finance_app.Social.Defs.{MessageReportEvidence, Repository}
use finance_app.Social.Messages

-- Only a participant may hide, mark or report; `by_participant` is their common check.
unfoldable pub by_participant : Text → Text → Repository → Result SocialError (Unit {0})
by_participant id user r = do
  member ← Messages.is_participant id user r
  refuse_if (not member) SocialError.forbidden

unfoldable pub hide_message : Text → Text → Repository → Option SocialError × Repository
hide_message user message_id r =
    elim (Messages.message_by_id message_id r >>= λ m. by_participant m.conversation_id user r) [
      | err e ↦ (some e, r)
      | ok _ ↦ Messages.hide_message_for_user message_id user r
    ]

unfoldable pub remove_message : ℕ → Text → Text → Repository → Option SocialError × Repository
remove_message now moderator message_id r = Messages.remove_message now message_id moderator r

unfoldable pub message_for_report :
    Text → Text → Repository → Result SocialError MessageReportEvidence
message_for_report requester message_id r = do
  m ← Messages.message_by_id message_id r
  by_participant m.conversation_id requester r
  c ← Messages.get_conversation m.conversation_id r
  ok (record {
    message_id = m.id;
    conversation_id = m.conversation_id;
    sender_id = m.sender_user_id;
    participant_ids = c.participant_a ∷ c.participant_b ∷ [];
    text = m.body;
    created_at = m.created_at;
  })

unfoldable pub mark_read : Text → Text → Text → Repository → Option SocialError × Repository
mark_read user id last_read r = elim (by_participant id user r) [
  | err e ↦ (some e, r)
  | ok _ ↦ Messages.mark_read id user last_read r
]

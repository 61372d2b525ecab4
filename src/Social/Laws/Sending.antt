-- ===== src/Social/Laws/Sending.antt =====
-- `SendMessage`: what it requires, and what a failure leaves.
use finance_app.Base.{ℕ, ◌≤◌, ◌≡◌, ◌⊎◌, inl, inr, true, false, some, arith, length, Option-cases}
use finance_app.Base.Text.{Text, is_empty, trim_space}
use finance_app.Base.Assoc.{lookup}
use finance_app.Base.Result.{ok, err, Result-cases}
use finance_app.Errors.{ProfileError, SocialError}
use finance_app.Social.Defs.{Conversation, MessageDto, Repository, Service}
use finance_app.Social.Messages
use finance_app.Social.Messages.{get_conversation, has_participant}
use finance_app.Social.Methods.{are_friends, check_interaction}
use finance_app.Social.Rates.{create_message_refused}
use finance_app.Social.Messaging.{
  other_of, send_checks, new_message, message_write, message_dto, send_message, max_message_length,
  default_message_abuse_policy,
}

-- What a message must satisfy to be posted.
pub record MaySend {S : Type 0} (svc : Service S) (user id body : Text) (r : Repository)
    : Type 0 where
  pub conversation : Conversation
  pub found : lookup id r.conversations ≡ some conversation
  pub participant : has_participant conversation user ≡ true
  pub allowed : check_interaction svc user (other_of conversation user) ≡ ok tt
  pub friends : are_friends user (other_of conversation user) r ≡ true
  pub not_blank : is_empty (trim_space body) ≡ false
  pub short_enough : length (trim_space body) ≤ max_message_length

module _ {S : Type 0} (svc : Service S) (user id body : Text) (r : Repository) where
  send_checks_ok :
      (other text : Text)
      → send_checks svc user id body r ≡ ok (other, text)
      → MaySend svc user id body r × (text ≡ trim_space body)
  unfolding send_checks get_conversation
  send_checks_ok other text h = elim (Option-cases (lookup id r.conversations)) [
    | inl missing ↦ absurd (ground arith)
    | inr (c, found) ↦ elim (Result-cases (check_interaction svc user (other_of c user))) [
      | inr (e, refused) ↦ absurd (ground arith)
      | inl (u, allowed) ↦ (
        record {
          conversation = c;
          found = found;
          participant = ground arith;
          allowed = allowed;
          friends = ground arith;
          not_blank = ground arith;
          short_enough = ground arith;
        },
        ground arith,
      )
    ]
  ]

-- A message that is sent was allowed: its sender takes part in the conversation, the two are
-- friends, the policy lets them interact, and the trimmed body is not blank and not too long.
pub send_message_allowed :
    {S : Type 0} (svc : Service S) (now : ℕ) (msg_id notification_id user id body : Text)
    (r : Repository) (s : S) {dto : MessageDto}
    → (send_message svc now msg_id notification_id user id body r s).0 ≡ ok dto
    → MaySend svc user id body r
unfolding send_message
send_message_allowed svc now msg_id notification_id user id body r s h =
    elim (Result-cases (send_checks svc user id body r)) [
      | inr (e, refused) ↦ absurd (ground arith)
      | inl ((other, text), passed) ↦ (send_checks_ok svc user id body r other text passed).0
    ]

-- A failed send leaves the repository as it was, unless the only failure is that the sender's own
-- profile cannot be read for the answer.
pub send_message_failed :
    {S : Type 0} (svc : Service S) (now : ℕ) (msg_id notification_id user id body : Text)
    (r : Repository) (s : S) {e : SocialError}
    → (send_message svc now msg_id notification_id user id body r s).0 ≡ err e
    → ((send_message svc now msg_id notification_id user id body r s).1 ≡ r)
      ⊎ ((p : ProfileError) × (svc.profiles.get_by_user_id user ≡ err p))
unfolding send_message message_dto new_message
send_message_failed svc now msg_id notification_id user id body r s h =
    elim (Result-cases (send_checks svc user id body r)) [
      | inr (e, refused) ↦ inl (ground arith)
      | inl ((other, text), passed) ↦
          let write =
            message_write svc notification_id other (new_message now msg_id id user text) in
          elim (Option-cases (Messages.create_message write default_message_abuse_policy r s).0) [
            | inr (problem, failed) ↦ inl (
                ground
                  (arith, create_message_refused write default_message_abuse_policy r s failed))
            | inl posted ↦ elim (Result-cases (svc.profiles.get_by_user_id user)) [
              | inr (p, unread) ↦ inr (p, unread)
              | inl (p, known) ↦ inl (absurd (ground arith))
            ]
          ]
    ]

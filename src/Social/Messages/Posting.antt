-- ===== src/Social/Messages/Posting.antt =====
-- social/memory_repository.go: `AddMessage` and `CreateMessage` with its abuse policy.
use finance_app.Base.{
  ℕ, suc, ◌-◌, Bool, ◌&&◌, Option, none, some, List, [], ◌∷◌, ◌++◌, ltb, leb, if◌then◌else◌,
}
use finance_app.Base.Text.{Text, text_eq, to_lower, fields, join_spaces}
use finance_app.Base.Assoc.{Map, lookup, insert}
use finance_app.Errors.{SocialError}
use finance_app.Social.Defs.{Conversation, Message, MessageWrite, MessageAbusePolicy, Repository}
use finance_app.Social.Messages.Conversations.{messages_of}

-- The writes at the end of both methods, for the conversation `c` of the message.
unfoldable pub append_message : Message → Conversation → Repository → Repository
append_message msg c r = record r {
  messages =
      insert msg.conversation_id (messages_of msg.conversation_id r ++ (msg ∷ [])) r.messages;
  message_by_id = insert msg.id msg.conversation_id r.message_by_id;
  conversations =
      insert msg.conversation_id
        (record c { updated_at = msg.created_at; last_message_at = some msg.created_at })
        r.conversations;
}

unfoldable pub add_message : Message → Repository → Option SocialError × Repository
add_message msg r = elim (lookup msg.conversation_id r.conversations) [
  | none ↦ (some SocialError.conversation_not_found, r)
  | some c ↦ (none, append_message msg c r)
]

unfoldable pub normalize_message_body : Text → Text
normalize_message_body body = to_lower (join_spaces (fields body))

-- `userCount`, `conversationCount`, `repeatedCount` and `burstCount`.
pub record Counts : Type 0 where
  pub user : ℕ
  pub conversation : ℕ
  pub repeated : ℕ
  pub burst : ℕ

-- `!existing.CreatedAt.Before(msg.CreatedAt.Add(-window))`
abbrev pub within : Message → ℕ → Message → Bool
within msg window existing = leb (msg.created_at - window) existing.created_at

abbrev pub bump_if : Bool → ℕ → ℕ
bump_if b n = if b then suc n else n

-- One round of the inner loop, for an existing message of the conversation `id`.
unfoldable pub count_one : MessageAbusePolicy → Message → Text → Message → Counts → Counts
count_one policy msg id existing n =
    let own = text_eq existing.sender_user_id msg.sender_user_id in
    record {
      user = bump_if (own && within msg policy.user_window existing) n.user;
      conversation =
          bump_if (text_eq id msg.conversation_id && within msg policy.conversation_window existing)
            n.conversation;
      repeated =
          bump_if
            (own
              && within msg policy.repeated_window existing
              && text_eq (normalize_message_body existing.body) (normalize_message_body msg.body))
            n.repeated;
      burst = bump_if (own && within msg policy.burst_window existing) n.burst;
    }

unfoldable pub count_messages : MessageAbusePolicy → Message → Text → List Message → Counts → Counts
count_messages policy msg id [] n = n
count_messages policy msg id (m ∷ ms) n =
    count_messages policy msg id ms (count_one policy msg id m n)

unfoldable pub count_all : MessageAbusePolicy → Message → Map (List Message) → Counts → Counts
count_all policy msg [] n = n
count_all policy msg ((id, ms) ∷ rest) n =
    count_all policy msg rest (count_messages policy msg id ms n)

abbrev pub reached : ℕ → ℕ → Bool
reached limit n = ltb 0 limit && leb limit n

unfoldable pub abuse_refusal : MessageAbusePolicy → Counts → Option SocialError
abuse_refusal policy n =
    if reached policy.user_limit n.user
    then some SocialError.message_rate_limited
    else if reached policy.conversation_limit n.conversation
    then some SocialError.conversation_limited
    else if reached policy.repeated_limit n.repeated
    then some SocialError.repeated_message
    else if reached policy.burst_limit n.burst
    then some SocialError.spam_burst
    else none

abbrev pub no_counts : Counts
no_counts = record { user = 0; conversation = 0; repeated = 0; burst = 0 }

module _ {S : Type 0} where
  -- The notification, where there is one, and then the writes.
  unfoldable pub notify_and_append :
      MessageWrite S → Conversation → Repository → S → Option SocialError × Repository × S
  notify_and_append write c r s = elim write.volatile_notify [
    | none ↦ (none, append_message write.message c r, s)
    | some notify ↦
        (let (e, s') = notify s in
          elim e [
            | some problem ↦ (some problem, r, s')
            | none ↦ (none, append_message write.message c r, s')
          ])
  ]

  unfoldable pub create_message :
      MessageWrite S → MessageAbusePolicy → Repository → S → Option SocialError × Repository × S
  unfolding notify_and_append
  create_message write policy r s = elim (lookup write.message.conversation_id r.conversations) [
    | none ↦ (some SocialError.conversation_not_found, r, s)
    | some c ↦ elim (abuse_refusal policy (count_all policy write.message r.messages no_counts)) [
      | some refusal ↦ (some refusal, r, s)
      | none ↦ notify_and_append write c r s
    ]
  ]

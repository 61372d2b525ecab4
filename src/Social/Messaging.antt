-- ===== src/Social/Messaging.antt =====
-- social/service.go: conversations and messages, over the in-memory repository. Fresh ids
-- (`uuid.NewString`) and the time are arguments.
use finance_app.Base.{
  ℕ, Bool, not, ◌&&◌, Option, none, some, List, [], ◌∷◌, ◌++◌, ltb, leb, if◌then◌else◌, length,
  take, is_some,
}
use finance_app.Base.Text.{Text, codes, text_eq, trim_space, is_empty}
use finance_app.Base.Assoc.{Map}
use finance_app.Base.Result.{Result, ok, err, ◌>>=◌, ◌>>◌, refuse_if}
use finance_app.Errors.{ProfileError, SocialError}
use finance_app.Profile.{Profile}
use finance_app.Social.Defs.{
  Conversation, Message, MessageNotification, MessageWrite, MessageAbusePolicy, LastMessagePreview,
  ConversationSummary, MessageDto, Repository, Service,
}
use finance_app.Social.Messages
use finance_app.Social.Methods.{
  profile_by_handle, safe_profile, are_friends, check_interaction, blocked_set, in_set,
}

abbrev pub max_message_length : ℕ
max_message_length = 1000

abbrev pub default_message_abuse_policy : MessageAbusePolicy
default_message_abuse_policy = record {
  user_limit = 30;
  user_window = 60_000_000_000;
  conversation_limit = 40;
  conversation_window = 60_000_000_000;
  repeated_limit = 3;
  repeated_window = 600_000_000_000;
  burst_limit = 8;
  burst_window = 10_000_000_000;
}

abbrev pub removed_tombstone_text : Text
removed_tombstone_text = codes "This message was removed."

unfoldable pub truncate_preview : Text → Text
truncate_preview body = let b = trim_space body in if leb (length b) 80 then b else take 80 b

-- A profile error is handed on.
abbrev pub of_profile : {A : Type 0} → Result ProfileError A → Result SocialError A
of_profile (ok p) = ok p
of_profile (err e) = err (SocialError.of_profile e)

abbrev pub other_of : Conversation → Text → Text
other_of c user = if text_eq c.participant_a user then c.participant_b else c.participant_a

abbrev pub shown_body : Message → Text
shown_body m = if is_some m.removed_at then removed_tombstone_text else m.body

unfoldable pub preview_of : Text → Option Message → Option LastMessagePreview
unfolding truncate_preview
preview_of user none = none
preview_of user (some m) = some (record {
  body_preview = if is_some m.removed_at then removed_tombstone_text else truncate_preview m.body;
  sent_at = m.created_at;
  sent_by_me = text_eq m.sender_user_id user;
})

unfoldable pub new_message : ℕ → Text → Text → Text → Text → Message
new_message now msg_id id user body = record {
  id = msg_id;
  conversation_id = id;
  sender_user_id = user;
  body = body;
  created_at = now;
  removed_at = none;
  removed_by = none;
}

unfoldable pub message_notification : Text → Text → Message → MessageNotification
message_notification notification_id other msg = record {
  id = notification_id;
  recipient_id = other;
  kind = codes "new_message";
  dedupe_key = codes "message:" ++ msg.id;
  payload = (codes "conversation_id", msg.conversation_id) ∷ [];
  created_at = msg.created_at;
}

module _ {S : Type 0} where
  unfoldable pub conversation_summary :
      Service S → Text → Conversation → Repository → Result SocialError ConversationSummary
  unfolding preview_of
  conversation_summary svc user c r = do
    p ← of_profile (svc.profiles.get_by_user_id (other_of c user))
    ok (record {
      id = c.id;
      other_user = safe_profile p;
      last_message = preview_of user (Messages.last_message c.id r);
      updated_at = c.updated_at;
      unread_count = Messages.conversation_unread_count c.id user r;
    })

  unfoldable pub message_dto : Service S → Text → Message → Result SocialError MessageDto
  message_dto svc user m = do
    p ← of_profile (svc.profiles.get_by_user_id m.sender_user_id)
    ok (record {
      id = m.id;
      conversation_id = m.conversation_id;
      sender = safe_profile p;
      body = shown_body m;
      removed = is_some m.removed_at;
      sent_by_me = text_eq m.sender_user_id user;
      created_at = m.created_at;
    })

  -- A blocked user's conversation is left out, and so is one that cannot be summarised.
  unfoldable pub summaries :
      Service S → Text → Map Bool → Repository → List Conversation → List ConversationSummary
  summaries svc user blocked r [] = []
  summaries svc user blocked r (c ∷ cs) =
      let rest = summaries svc user blocked r cs in
      if in_set (other_of c user) blocked
      then rest
      else elim (conversation_summary svc user c r) [ err _ ↦ rest | ok dto ↦ dto ∷ rest ]

  unfoldable pub conversations :
      Service S → Text → Repository → Result SocialError (List ConversationSummary)
  unfolding summaries
  conversations svc user r = do
    blocked ← blocked_set svc user
    ok (summaries svc user blocked r (Messages.list_conversations user r))

  -- What `CreateConversation` does once its checks have passed.
  unfoldable pub open_conversation :
      Service S
      → ℕ
      → Text
      → Text
      → Text
      → Repository
      → Result SocialError ConversationSummary × Repository
  open_conversation svc now id user target r =
      elim (Messages.get_conversation_between user target r) [
        | some c ↦ (conversation_summary svc user c r, r)
        | none ↦
            (let (c, r') = Messages.create_conversation now id user target r in
              (conversation_summary svc user c r', r'))
      ]

  unfoldable pub conversation_checks :
      Service S → Text → Text → Repository → Result SocialError Profile
  conversation_checks svc user handle r = do
    target ← profile_by_handle svc.profiles handle
    refuse_if (text_eq target.user_id user) SocialError.self_dm
    check_interaction svc user target.user_id
    refuse_if (not (are_friends user target.user_id r)) SocialError.not_friends
    ok target

  unfoldable pub create_conversation :
      Service S
      → ℕ
      → Text
      → Text
      → Text
      → Repository
      → Result SocialError ConversationSummary × Repository
  unfolding conversation_checks open_conversation
  create_conversation svc now id user handle r = elim (conversation_checks svc user handle r) [
    | err e ↦ (err e, r)
    | ok target ↦ open_conversation svc now id user target.user_id r
  ]

  unfoldable pub dtos : Service S → Text → List Message → List MessageDto
  dtos svc user [] = []
  dtos svc user (m ∷ ms) =
      let rest = dtos svc user ms in
      elim (message_dto svc user m) [ err _ ↦ rest | ok dto ↦ dto ∷ rest ]

  unfoldable pub messages :
      Service S → Text → Text → ℕ → Repository → Result SocialError (List MessageDto)
  unfolding dtos
  messages svc user id limit r = do
    member ← Messages.is_participant id user r
    refuse_if (not member) SocialError.forbidden
    items ← Messages.list_messages id user limit r
    ok (dtos svc user items)

  -- The checks of `SendMessage`: the other participant and the trimmed body.
  unfoldable pub send_checks :
      Service S → Text → Text → Text → Repository → Result SocialError (Text × Text)
  send_checks svc user id body r = do
    c ← Messages.get_conversation id r
    refuse_if (not (text_eq c.participant_a user) && not (text_eq c.participant_b user))
        SocialError.forbidden
    check_interaction svc user (other_of c user)
    refuse_if (not (are_friends user (other_of c user) r)) SocialError.not_friends
    refuse_if (is_empty (trim_space body)) SocialError.invalid_message
    refuse_if (ltb max_message_length (length (trim_space body))) SocialError.message_too_long
    ok (other_of c user, trim_space body)

  unfoldable pub message_write : Service S → Text → Text → Message → MessageWrite S
  message_write svc notification_id other msg = elim svc.notifier [
    | none ↦ record { message = msg; notification = none; volatile_notify = none }
    | some notify ↦
        (let n = message_notification notification_id other msg in
          record { message = msg; notification = some n; volatile_notify = some (notify n) })
  ]

  unfoldable pub send_message :
      Service S
      → ℕ
      → Text
      → Text
      → Text
      → Text
      → Text
      → Repository
      → S
      → Result SocialError MessageDto × Repository × S
  unfolding send_checks
  send_message svc now msg_id notification_id user id body r s =
      elim (send_checks svc user id body r) [
        | err e ↦ (err e, r, s)
        | ok (other, text) ↦
            (let msg = new_message now msg_id id user text in
              let (e, r', s') =
                Messages.create_message (message_write svc notification_id other msg)
                  default_message_abuse_policy r s in
              elim e [
                | some problem ↦ (err problem, r', s')
                | none ↦ (message_dto svc user msg, r', s')
              ])
      ]

-- ===== src/Social/Tests.antt =====
-- The social component at concrete stores.
use finance_app.Base.{◌≡◌, refl, ◌⊎◌, ◌&&◌, some, any_of, count_if}
use finance_app.Base.Assoc
use finance_app.Base.Assoc.{lookup}
use finance_app.Base.Text
use finance_app.Base.Text.{Text, codes, text_eq}
use finance_app.Base.Result.{err}
use finance_app.Errors.{ProfileError, SocialError}
use finance_app.Social.Defs.{new_repository}
use finance_app.Social.Follows
use finance_app.Social.Follows.{is_following, list_mutual_friends}
use finance_app.Social.Messages
use finance_app.Social.Messages.{
  create_message, create_conversation, get_conversation_between, list_messages, messages_of,
  is_hidden, hide_message_for_user, message_by_id, remove_message, conversation_unread_count,
  append_message, mark_read, on_account_deleted, has_participant,
}
use finance_app.Social.Messaging
use finance_app.Social.Messaging.{send_message}
use finance_app.Social.Methods
use finance_app.Social.Rates.{
  total_if, own_since, own_same_since, Respects, create_message-Respects,
}
use finance_app.Social.Laws.Friendship.{IsValid, is_with, list_mutual_friends_iff}
use finance_app.Social.Laws.Conversing.{create_conversation_once}
use finance_app.Social.Laws.Sending.{MaySend, send_message_allowed, send_message_failed}
use finance_app.Social.Sample.{ann, ben, talk, service, second, friends, policy, write, again}

-- The definitions that a test computes through.
computing : Unit {0}
unfolding Assoc.lookup Assoc.insert Assoc.erase Text.text_eq Text.text_lt Text.trim_space
    Text.trim_left Text.is_space Text.to_lower Text.lower_rune Text.fields Text.join_spaces
    Follows.is_following Follows.follow_key Follows.list_mutual_friends Follows.friendships_from
    Follows.friendship_of Messages.pair_key Messages.get_conversation_between
    Messages.create_conversation Messages.get_conversation Messages.messages_of
    Messages.append_message Messages.normalize_message_body Messages.count_one
    Messages.count_messages Messages.count_all Messages.abuse_refusal Messages.notify_and_append
    Messages.create_message Messages.is_hidden Messages.page_limit Messages.list_messages
    Messages.message_by_id Messages.hide_message_for_user Messages.tombstone Messages.remove_message
    Messages.mark_read Messages.read_position Messages.counts_as_unread
    Messages.conversation_unread_count Messages.delete_conversation Messages.delete_conversations
    Messages.on_account_deleted Messaging.message_dto Messaging.send_checks Messaging.message_write
    Messaging.new_message Messaging.send_message Methods.check_interaction Methods.are_friends
    Methods.safe_profile
computing = tt

friends-IsValid : IsValid friends
unfolding computing
friends-IsValid = record {
  keyed = (refl, refl, refl, (refl, refl, refl, tt));
  unique = (refl, (refl, tt));
}

-- The third message, which repeats the first in other case, is refused.
repeated_is_refused : (create_message again policy friends tt).0 ≡ some SocialError.repeated_message
unfolding computing
repeated_is_refused = refl

create_message-Respects_example :
    let r' = (create_message write policy friends tt).1 in
    Respects 2 (total_if (own_since second 60) r'.messages)
    × Respects 0 (total_if (own_since second 10) r'.messages)
    × Respects 1 (total_if (own_same_since second 600) r'.messages)
    × Respects 2 (count_if (Messages.within second 60) (messages_of talk r'))
unfolding computing
create_message-Respects_example = create_message-Respects write policy friends tt (refl, tt) refl

create_conversation_once_example :
    let (c, r') = create_conversation 7 (codes "c-9") ben ann new_repository in
    (get_conversation_between ann ben r' ≡ some c)
    × (create_conversation 8 (codes "c-8") ann ben r' ≡ (c, r'))
    × (create_conversation 8 (codes "c-8") ben ann r' ≡ (c, r'))
create_conversation_once_example =
    create_conversation_once 7 8 (codes "c-9") (codes "c-8") ben ann new_repository

list_mutual_friends_iff_example :
    any_of (is_with ben) (list_mutual_friends ann friends)
    ≡ (is_following ann ben friends && is_following ben ann friends)
unfolding computing
list_mutual_friends_iff_example = list_mutual_friends_iff ann ben friends refl friends-IsValid

send_message_allowed_example : MaySend service ann talk (codes " hello ") friends
unfolding computing
send_message_allowed_example =
    send_message_allowed service 20 (codes "m-2") (codes "n-1") ann talk (codes " hello ") friends
      tt refl

send_message_failed_example :
    ((send_message service 20 (codes "m-2") (codes "n-1") ann talk (codes "  ") friends tt).1
      ≡ friends)
    ⊎ ((p : ProfileError) × (service.profiles.get_by_user_id ann ≡ err p))
unfolding computing
send_message_failed_example =
    send_message_failed service 20 (codes "m-2") (codes "n-1") ann talk (codes "  ") friends tt refl

-- ===== src/Social/Defs.antt =====
-- social/model.go and the fields of `InMemoryRepository`. Times are nanoseconds since Go's zero
-- time, so 0 is the zero `time.Time`.
use finance_app.Base.{ℕ, Bool, Option, List, []}
use finance_app.Base.Text.{Text}
use finance_app.Base.Assoc.{Map}
use finance_app.Base.Result.{Result}
use finance_app.Errors.{SafetyError, SocialError}
use finance_app.Profile.{ProfileRepository}

pub record Follow : Type 0 where
  pub follower_user_id : Text
  pub following_user_id : Text
  pub created_at : ℕ

pub record FollowState : Type 0 where
  pub handle : Text
  pub is_following : Bool
  pub follows_me : Bool
  pub is_friend : Bool

pub record Friendship : Type 0 where
  pub user_id : Text
  pub friends_since : ℕ

pub record FriendItem : Type 0 where
  pub handle : Text
  pub display_name : Text
  pub avatar_key : Text
  pub strategy_tag : Text
  pub friends_since : ℕ

pub record SafeProfile : Type 0 where
  pub handle : Text
  pub display_name : Text
  pub avatar_key : Text
  pub strategy_tag : Text

pub record Conversation : Type 0 where
  pub id : Text
  pub participant_a : Text
  pub participant_b : Text
  pub created_at : ℕ
  pub updated_at : ℕ
  pub last_message_at : Option ℕ

pub record Message : Type 0 where
  pub id : Text
  pub conversation_id : Text
  pub sender_user_id : Text
  pub body : Text
  pub created_at : ℕ
  pub removed_at : Option ℕ
  pub removed_by : Option Text

pub record MessageNotification : Type 0 where
  pub id : Text
  pub recipient_id : Text
  pub kind : Text
  pub dedupe_key : Text
  pub payload : Map Text
  pub created_at : ℕ

-- `S` is the state of the component that is notified; a nil function is `none`.
pub record MessageWrite (S : Type 0) : Type 0 where
  pub message : Message
  pub notification : Option MessageNotification
  pub volatile_notify : Option (S → Option SocialError × S)

pub record MessageAbusePolicy : Type 0 where
  pub user_limit : ℕ
  pub user_window : ℕ
  pub conversation_limit : ℕ
  pub conversation_window : ℕ
  pub repeated_limit : ℕ
  pub repeated_window : ℕ
  pub burst_limit : ℕ
  pub burst_window : ℕ

pub record ParticipantState : Type 0 where
  pub last_read_message_id : Text
  pub last_read_at : ℕ

pub record LastMessagePreview : Type 0 where
  pub body_preview : Text
  pub sent_at : ℕ
  pub sent_by_me : Bool

pub record ConversationSummary : Type 0 where
  pub id : Text
  pub other_user : SafeProfile
  pub last_message : Option LastMessagePreview
  pub updated_at : ℕ
  pub unread_count : ℕ

pub record MessageDto : Type 0 where
  pub id : Text
  pub conversation_id : Text
  pub sender : SafeProfile
  pub body : Text
  pub removed : Bool
  pub sent_by_me : Bool
  pub created_at : ℕ

pub record MessageReportEvidence : Type 0 where
  pub message_id : Text
  pub conversation_id : Text
  pub sender_id : Text
  pub participant_ids : List Text
  pub text : Text
  pub created_at : ℕ

-- `InMemoryRepository`.
pub record Repository : Type 0 where
  pub follows : Map Follow
  pub conversations : Map Conversation
  pub conversation_by_pair : Map Text
  pub messages : Map (List Message)
  pub message_by_id : Map Text
  pub hidden_for : Map (Map Bool)
  pub read_state : Map (Map ParticipantState)

-- `NewInMemoryRepository`
abbrev pub new_repository : Repository
new_repository = record {
  follows = [];
  conversations = [];
  conversation_by_pair = [];
  messages = [];
  message_by_id = [];
  hidden_for = [];
  read_state = [];
}

-- The interfaces that the service is given; a nil one is `none`. `notifier` is `Notify`, over the
-- state `S` of the component that is notified.
pub record Service (S : Type 0) : Type 0 where
  pub profiles : ProfileRepository
  -- `CanUsersInteract`
  pub policy : Option (Text → Text → Result SafetyError Bool)
  -- `BlockedPairUserIDs`
  pub blocked : Option (Text → Result SafetyError (Map Bool))
  pub notifier : Option (MessageNotification → S → Option SocialError × S)

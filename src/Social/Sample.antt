-- ===== src/Social/Sample.antt =====
-- Two friends with one conversation, for the tests.
use finance_app.Base.{ℕ, true, false, none, some, [], ◌∷◌, if◌then◌else◌}
use finance_app.Base.Text.{Text, codes, text_eq}
use finance_app.Base.Result.{ok, err}
use finance_app.Errors.{ProfileError}
use finance_app.Profile.{Profile, ProfileRepository}
use finance_app.Social.Defs.{
  Repository, Message, MessageWrite, Conversation, Service, MessageAbusePolicy,
}

abbrev pub person : Text → Text → Profile
person id handle = record {
  user_id = id;
  handle = handle;
  display_name = handle;
  avatar_key = [];
  bio = [];
  strategy_tag = codes "growth";
  is_public = true;
  show_public_weights = false;
  created_at = 1;
  updated_at = 1;
}

abbrev pub ann : Text
ann = codes "a-1"

abbrev pub ben : Text
ben = codes "b-2"

abbrev pub talk : Text
talk = codes "c-1"

abbrev pub profiles : ProfileRepository
profiles = record {
  get_by_user_id = λ id.
      if text_eq id ann
      then ok (person ann (codes "annie"))
      else if text_eq id ben
      then ok (person ben (codes "benny"))
      else err ProfileError.not_found;
  get_by_handle = λ h.
      if text_eq h (codes "annie")
      then ok (person ann (codes "annie"))
      else if text_eq h (codes "benny")
      then ok (person ben (codes "benny"))
      else err ProfileError.not_found;
}

abbrev pub service : Service (Unit {0})
service = record { profiles = profiles; policy = none; blocked = none; notifier = none }

abbrev pub message : ℕ → Text → Text → Text → Message
message now id sender body = record {
  id = id;
  conversation_id = talk;
  sender_user_id = sender;
  body = body;
  created_at = now;
  removed_at = none;
  removed_by = none;
}

abbrev pub first : Message
first = message 10 (codes "m-1") ben (codes "hi")

abbrev pub second : Message
second = message 20 (codes "m-2") ann (codes "hello")

abbrev pub conversation : Conversation
conversation = record {
  id = talk;
  participant_a = ann;
  participant_b = ben;
  created_at = 5;
  updated_at = 10;
  last_message_at = some 10;
}

abbrev pub friends : Repository
friends = record {
  follows =
      (codes "a-1->b-2", record { follower_user_id = ann; following_user_id = ben; created_at = 2 })
      ∷ (
        codes "b-2->a-1",
        record { follower_user_id = ben; following_user_id = ann; created_at = 3 },
      )
      ∷ [];
  conversations = (talk, conversation) ∷ [];
  conversation_by_pair = (codes "a-1:b-2", talk) ∷ [];
  messages = (talk, first ∷ []) ∷ [];
  message_by_id = (codes "m-1", talk) ∷ [];
  hidden_for = [];
  read_state = [];
}

abbrev pub policy : MessageAbusePolicy
policy = record {
  user_limit = 2;
  user_window = 60;
  conversation_limit = 2;
  conversation_window = 60;
  repeated_limit = 1;
  repeated_window = 600;
  burst_limit = 0;
  burst_window = 10;
}

abbrev pub write : MessageWrite (Unit {0})
write = record { message = second; notification = none; volatile_notify = none }

-- The same message again.
abbrev pub again : MessageWrite (Unit {0})
again = record {
  message = message 30 (codes "m-3") ben (codes "  HI ");
  notification = none;
  volatile_notify = none;
}

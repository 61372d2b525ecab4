-- ===== src/Social/Messages/Conversations.antt =====
-- social/memory_repository.go: conversations. Each method holds the mutex for its whole body.
use finance_app.Base.{
  ℕ, Bool, ◌||◌, Option, none, some, List, [], ◌∷◌, ◌++◌, ltb, if◌then◌else◌, keep_if,
}
use finance_app.Base.Text.{Text, codes, text_eq, text_lt}
use finance_app.Base.Assoc.{lookup, insert, values}
use finance_app.Base.Result.{Result, ok, err}
use finance_app.Errors.{SocialError}
use finance_app.Social.Defs.{Conversation, Message, Repository}

unfoldable pub pair_key : Text → Text → Text
pair_key a b = if text_lt a b then a ++ (codes ":" ++ b) else b ++ (codes ":" ++ a)

abbrev pub zero_conversation : Conversation
zero_conversation = record {
  id = [];
  participant_a = [];
  participant_b = [];
  created_at = 0;
  updated_at = 0;
  last_message_at = none;
}

-- `r.conversations[id]`, the zero value where the key is missing.
abbrev pub conversation_or_zero : Option Conversation → Conversation
conversation_or_zero none = zero_conversation
conversation_or_zero (some c) = c

unfoldable pub get_conversation_between : Text → Text → Repository → Option Conversation
get_conversation_between a b r = elim (lookup (pair_key a b) r.conversation_by_pair) [
  | none ↦ none
  | some id ↦ some (conversation_or_zero (lookup id r.conversations))
]

unfoldable pub create_conversation : ℕ → Text → Text → Text → Repository → Conversation × Repository
create_conversation now id a b r = elim (lookup (pair_key a b) r.conversation_by_pair) [
  | some existing ↦ (conversation_or_zero (lookup existing r.conversations), r)
  | none ↦
      (let c : Conversation = record {
        id = id;
        participant_a = a;
        participant_b = b;
        created_at = now;
        updated_at = now;
        last_message_at = none;
      } in
        (
          c,
          record r {
            conversations = insert id c r.conversations;
            conversation_by_pair = insert (pair_key a b) id r.conversation_by_pair;
          },
        ))
]

unfoldable pub get_conversation : Text → Repository → Result SocialError Conversation
get_conversation id r = elim (lookup id r.conversations) [
  | none ↦ err SocialError.conversation_not_found
  | some c ↦ ok c
]

abbrev pub has_participant : Conversation → Text → Bool
has_participant c user = text_eq c.participant_a user || text_eq c.participant_b user

-- `sort.Slice` by `UpdatedAt.After`, newest first.
unfoldable pub insert_updated : Conversation → List Conversation → List Conversation
insert_updated c [] = c ∷ []
insert_updated c (d ∷ ds) =
    let rest = insert_updated c ds in if ltb c.updated_at d.updated_at then d ∷ rest else c ∷ d ∷ ds

unfoldable pub sort_updated : List Conversation → List Conversation
sort_updated [] = []
sort_updated (c ∷ cs) = insert_updated c (sort_updated cs)

unfoldable pub list_conversations : Text → Repository → List Conversation
unfolding sort_updated insert_updated
list_conversations user r =
    sort_updated (keep_if (λ c. has_participant c user) (values r.conversations))

unfoldable pub is_participant : Text → Text → Repository → Result SocialError Bool
is_participant id user r = elim (lookup id r.conversations) [
  | none ↦ err SocialError.conversation_not_found
  | some c ↦ ok (has_participant c user)
]

unfoldable pub other_participant : Text → Text → Repository → Result SocialError Text
other_participant id user r = elim (lookup id r.conversations) [
  | none ↦ err SocialError.conversation_not_found
  | some c ↦
      if text_eq c.participant_a user
      then ok c.participant_b
      else if text_eq c.participant_b user
      then ok c.participant_a
      else err SocialError.forbidden
]

-- `r.messages[id]`, nil where the key is missing.
abbrev pub or_nil : Option (List Message) → List Message
or_nil none = []
or_nil (some ms) = ms

unfoldable pub messages_of : Text → Repository → List Message
messages_of id r = or_nil (lookup id r.messages)

-- ===== src/Social/Messages/Reading.antt =====
-- social/memory_repository.go: reading, hiding and removing messages, read positions, and the
-- deletion of an account.
use finance_app.Base.{
  ℕ, ◌+◌, ◌-◌, Bool, true, false, not, ◌&&◌, ◌||◌, Option, none, some, List, [], ◌∷◌, ltb, leb,
  ◌==◌, if◌then◌else◌, keep_if, count_if, find_first, length, drop, is_some,
}
use finance_app.Base.Text.{Text, text_eq}
use finance_app.Base.Assoc.{Map, lookup, insert, erase, keep_values}
use finance_app.Base.Result.{Result, ok, err}
use finance_app.Errors.{SocialError}
use finance_app.Social.Defs.{Follow, Conversation, Message, ParticipantState, Repository}
use finance_app.Social.Messages.Conversations.{pair_key, has_participant, messages_of}

-- `m[k]` on a map of flags, false where the key is missing.
abbrev pub flag : Option Bool → Bool
flag none = false
flag (some b) = b

-- `hidden != nil && hidden[m.ID]`
unfoldable pub is_hidden : Text → Repository → Message → Bool
is_hidden viewer r m = elim (lookup viewer r.hidden_for) [
  | none ↦ false
  | some hidden ↦ flag (lookup m.id hidden)
]

unfoldable pub page_limit : ℕ → ℕ
page_limit limit = if limit == 0 || ltb 50 limit then 50 else limit

abbrev pub last_part : ℕ → List Message → List Message
last_part limit ms = if ltb limit (length ms) then drop (length ms - limit) ms else ms

-- A negative limit is treated as 0 by the source, so limits are naturals.
unfoldable pub list_messages : Text → Text → ℕ → Repository → Result SocialError (List Message)
list_messages id viewer limit r = elim (lookup id r.conversations) [
  | none ↦ err SocialError.conversation_not_found
  | some _ ↦
      ok (
        last_part (page_limit limit) (keep_if (λ m. not (is_hidden viewer r m)) (messages_of id r)))
]

abbrev pub last_of : List Message → Option Message
last_of [] = none
last_of (m ∷ []) = some m
last_of (_ ∷ m ∷ ms) = last_of (m ∷ ms)

unfoldable pub last_message : Text → Repository → Option Message
last_message id r = last_of (messages_of id r)

abbrev pub has_id : Text → Message → Bool
has_id id m = text_eq m.id id

unfoldable pub message_by_id : Text → Repository → Result SocialError Message
message_by_id id r = elim (lookup id r.message_by_id) [
  | none ↦ err SocialError.message_not_found
  | some conversation ↦ elim (find_first (has_id id) (messages_of conversation r)) [
    | none ↦ err SocialError.message_not_found
    | some m ↦ ok m
  ]
]

-- `m[k]` on a map of maps, where the inner map is made when it is missing.
abbrev pub or_empty : {V : Type 0} → Option (Map V) → Map V
or_empty none = []
or_empty (some m) = m

unfoldable pub hide_message_for_user : Text → Text → Repository → Option SocialError × Repository
hide_message_for_user id user r =
    if is_some (lookup id r.message_by_id)
    then (
      none,
      record r {
        hidden_for =
            insert user (insert id true (or_empty (lookup user r.hidden_for))) r.hidden_for;
      },
    )
    else (some SocialError.message_not_found, r)

abbrev pub cons_to : Message → Option (List Message) → Option (List Message)
cons_to m none = none
cons_to m (some ms) = some (m ∷ ms)

-- The loop of `RemoveMessage`: the first message with the id is marked.
unfoldable pub tombstone : ℕ → Text → Text → List Message → Option (List Message)
tombstone now moderator id [] = none
tombstone now moderator id (m ∷ ms) =
    if text_eq m.id id
    then some (record m { removed_at = some now; removed_by = some moderator } ∷ ms)
    else cons_to m (tombstone now moderator id ms)

unfoldable pub remove_message : ℕ → Text → Text → Repository → Option SocialError × Repository
unfolding tombstone
remove_message now id moderator r = elim (lookup id r.message_by_id) [
  | none ↦ (some SocialError.message_not_found, r)
  | some conversation ↦ elim (tombstone now moderator id (messages_of conversation r)) [
    | none ↦ (some SocialError.message_not_found, r)
    | some items ↦ (none, record r { messages = insert conversation items r.messages })
  ]
]

unfoldable pub mark_read : Text → Text → Text → Repository → Option SocialError × Repository
mark_read id user last_read r =
    if is_some (lookup id r.conversations)
    then elim (find_first (has_id last_read) (messages_of id r)) [
      | none ↦ (some SocialError.message_not_found, r)
      | some m ↦ (
        none,
        record r {
          read_state =
              insert id
                (insert user
                  (record { last_read_message_id = last_read; last_read_at = m.created_at })
                  (or_empty (lookup id r.read_state)))
                r.read_state;
        },
      )
    ]
    else (some SocialError.conversation_not_found, r)

unfoldable pub read_position : Text → Text → Repository → Option ParticipantState
read_position id user r = lookup user (or_empty (lookup id r.read_state))

-- `hasState && !m.CreatedAt.After(state.lastReadAt)`
abbrev pub is_read : Option ParticipantState → Message → Bool
is_read none m = false
is_read (some p) m = leb m.created_at p.last_read_at

unfoldable pub counts_as_unread : Text → Text → Repository → Message → Bool
counts_as_unread id user r m =
    not (text_eq m.sender_user_id user)
    && not (is_some m.removed_at)
    && not (is_hidden user r m)
    && not (is_read (read_position id user r) m)

unfoldable pub conversation_unread_count : Text → Text → Repository → ℕ
conversation_unread_count id user r = count_if (counts_as_unread id user r) (messages_of id r)

unfoldable pub unread_from : Text → Repository → Map Conversation → ℕ
unread_from user r [] = 0
unread_from user r ((id, c) ∷ rest) =
    let n = unread_from user r rest in
    if has_participant c user then conversation_unread_count id user r + n else n

unfoldable pub unread_count : Text → Repository → ℕ
unfolding unread_from
unread_count user r = unread_from user r r.conversations

abbrev pub follow_involves : Text → Follow → Bool
follow_involves user f = text_eq f.follower_user_id user || text_eq f.following_user_id user

-- The second loop of `OnAccountDeleted`: the conversations of the user are deleted with their
-- messages and their pair entries.
unfoldable pub delete_conversation : Text → Text → Conversation → Repository → Repository
delete_conversation user id c r =
    if has_participant c user
    then record r {
      conversation_by_pair =
          erase (pair_key c.participant_a c.participant_b) r.conversation_by_pair;
      messages = erase id r.messages;
      conversations = erase id r.conversations;
    }
    else r

unfoldable pub delete_conversations : Text → Map Conversation → Repository → Repository
delete_conversations user [] r = r
delete_conversations user ((id, c) ∷ rest) r =
    delete_conversations user rest (delete_conversation user id c r)

unfoldable pub on_account_deleted : Text → Repository → Repository
unfolding delete_conversations
on_account_deleted user r =
    delete_conversations user r.conversations
      (record r { follows = keep_values (λ f. not (follow_involves user f)) r.follows })

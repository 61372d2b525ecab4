-- ===== src/Social/Laws/Unread.antt =====
-- Unread counts: what a new message and a read position do to them.
use finance_app.Base.{
  ℕ, ◌+◌, ◌≤◌, ◌≡◌, refl, Bool, false, none, some, List, [], ◌∷◌, ◌++◌, arith, if◌then◌else◌,
  count_if, find_first, All,
}
use finance_app.Base.Text.{Text, text_eq, text_eq_iff, text_eq_refl}
use finance_app.Base.Assoc.{lookup, insert, lookup-insert}
use finance_app.Social.Defs.{Conversation, Message, ParticipantState, Repository}
use finance_app.Social.Messages.{
  messages_of, or_nil, append_message, is_hidden, or_empty, has_id, mark_read, read_position,
  is_read, counts_as_unread, conversation_unread_count,
}

count_if-last :
    (p : Message → Bool) (ms : List Message) (m : Message)
    → count_if p (ms ++ (m ∷ [])) ≡ count_if p ms + (if p m then 1 else 0)
count_if-last p [] m = ground arith
count_if-last p (x ∷ xs) m = ground (arith, count_if-last p xs m)

-- A new message is counted by the test of the repository before it.
unread-append_message :
    (user : Text) (m : Message) (c : Conversation) (r : Repository)
    → conversation_unread_count m.conversation_id user (append_message m c r)
      ≡ conversation_unread_count m.conversation_id user r
        + (if counts_as_unread m.conversation_id user r m then 1 else 0)
unfolding conversation_unread_count append_message messages_of counts_as_unread is_hidden
    read_position
unread-append_message user m c r =
    let ms = or_nil (lookup m.conversation_id r.messages) in
    rw
      (
        lookup-insert m.conversation_id m.conversation_id (ms ++ (m ∷ [])) r.messages,
        text_eq_refl m.conversation_id,
      )
      (count_if-last (counts_as_unread m.conversation_id user r) ms m)

-- A posted message that is not marked removed, that a user has not hidden and that does not lie
-- within what the user has read of its conversation adds 1 to the user's unread count there, or 0
-- where the user is its sender.
pub post_unread :
    (user : Text) (m : Message) (c : Conversation) (r : Repository)
    → m.removed_at ≡ none
    → is_hidden user r m ≡ false
    → is_read (read_position m.conversation_id user r) m ≡ false
    → conversation_unread_count m.conversation_id user (append_message m c r)
      ≡ conversation_unread_count m.conversation_id user r
        + (if text_eq m.sender_user_id user then 0 else 1)
unfolding counts_as_unread
post_unread user m c r kept shown later = ground (arith, unread-append_message user m c r)

none_left :
    (p : Message → Bool) (t : ℕ) (ms : List Message)
    → ((m : Message) → m.created_at ≤ t → p m ≡ false)
    → All (λ m. m.created_at ≤ t) ms
    → count_if p ms ≡ 0
none_left p t [] h a = refl
none_left p t (m ∷ ms) h a = ground (arith, h m, none_left p t ms h a.1)

-- The read position that a successful call stores, and what it leaves alone.
read_position-mark_read :
    (id user last : Text) (r : Repository) {m : Message}
    → find_first (has_id last) (messages_of id r) ≡ some m
    → (mark_read id user last r).0 ≡ none
    → (read_position id user (mark_read id user last r).1
        ≡ some (record { last_read_message_id = last; last_read_at = m.created_at }))
      × (messages_of id (mark_read id user last r).1 ≡ messages_of id r)
unfolding mark_read read_position messages_of
read_position-mark_read id user last r {m} found done =
    let p : ParticipantState = record {
      last_read_message_id = last;
      last_read_at = m.created_at;
    } in
    let readers = or_empty (lookup id r.read_state) in
    ground (
      arith,
      lookup-insert id id (insert user p readers) r.read_state,
      lookup-insert user user p readers,
      text_eq_iff id id,
      text_eq_iff user user,
    )

-- After a user has marked a conversation read up to a message of it that no other is later than,
-- nothing in it is unread.
mark_read_newest :
    (id user last : Text) (r : Repository) {m : Message}
    → find_first (has_id last) (messages_of id r) ≡ some m
    → All (λ x. x.created_at ≤ m.created_at) (messages_of id r)
    → (mark_read id user last r).0 ≡ none
    → conversation_unread_count id user (mark_read id user last r).1 ≡ 0
unfolding conversation_unread_count counts_as_unread
mark_read_newest id user last r {m} found newest done =
    let after = (mark_read id user last r).1 in
    let (position, same) = read_position-mark_read id user last r found done in
    rw same (
      none_left (counts_as_unread id user after) m.created_at (messages_of id r)
        (λ x h. ground (arith, position)) newest)

-- ===== src/Social/Laws/Conversing.antt =====
-- Conversations: one for a pair of users; pages of messages; who may post.
use finance_app.Base.{
  ℕ, ◌-◌, ◌≤◌, ◌≡◌, refl, false, not, none, some, List, arith, In, length, keep_if, In-drop,
  In-keep_if, length-drop, inl, inr, Bool-cases,
}
use finance_app.Base.Text.{Text, text_eq, text_eq_iff, text_lt_swap}
use finance_app.Base.Assoc.{lookup-insert}
use finance_app.Base.Result.{ok}
use finance_app.Social.Defs.{Conversation, Message, Repository}
use finance_app.Social.Messages.{
  pair_key, get_conversation_between, create_conversation, messages_of, is_hidden, page_limit,
  last_part, list_messages,
}

-- The key of a pair does not depend on the order of its users.
pub pair_key_comm : (a b : Text) → pair_key a b ≡ pair_key b a
unfolding pair_key
pair_key_comm a b = elim (Bool-cases (text_eq a b)) [
  | inl same ↦ rw ((text_eq_iff a b).0 same) refl
  | inr differ ↦ ground (arith, text_lt_swap a b, text_eq_iff a b)
]

-- After a conversation is created for a pair, it is found under the reverse order too, and creating one
-- again, in either order, at any time and with any fresh id, gives the same one and writes nothing.
pub create_conversation_once :
    (now later : ℕ) (id other a b : Text) (r : Repository)
    → let (c, r') = create_conversation now id a b r in
      (get_conversation_between b a r' ≡ some c)
      × (create_conversation later other b a r' ≡ (c, r'))
      × (create_conversation later other a b r' ≡ (c, r'))
unfolding create_conversation get_conversation_between
create_conversation_once now later id other a b r =
    let c : Conversation = record {
      id = id;
      participant_a = a;
      participant_b = b;
      created_at = now;
      updated_at = now;
      last_message_at = none;
    } in
    ground (
      arith,
      pair_key_comm a b,
      lookup-insert (pair_key a b) (pair_key a b) id r.conversation_by_pair,
      text_eq_iff (pair_key a b) (pair_key a b),
      lookup-insert id id c r.conversations,
      text_eq_iff id id,
    )

page_limit_le : (limit : ℕ) → page_limit limit ≤ 50
unfolding page_limit
page_limit_le limit = ground arith

length-last_part : (limit : ℕ) (ms : List Message) → length (last_part limit ms) ≤ limit
length-last_part limit ms = ground (arith, length-drop (length ms - limit) ms)

In-last_part : (limit : ℕ) (m : Message) (ms : List Message) → In m (last_part limit ms) → In m ms
In-last_part limit m ms h = ground (arith, In-drop (length ms - limit) m ms)

-- A page holds at most 50 messages, and each of them is a message of the conversation that the
-- viewer has not hidden.
pub list_messages_page :
    (id viewer : Text) (limit : ℕ) (r : Repository) {ms : List Message} (m : Message)
    → list_messages id viewer limit r ≡ ok ms
    → In m ms
    → (length ms ≤ 50) × In m (messages_of id r) × (is_hidden viewer r m ≡ false)
unfolding list_messages
list_messages_page id viewer limit r {ms} m h i =
    let visible = keep_if (λ m. not (is_hidden viewer r m)) (messages_of id r) in
    let page = last_part (page_limit limit) visible in
    let is_page : ms ≡ page = ground arith in
    let kept =
      In-keep_if (λ m. not (is_hidden viewer r m)) m (messages_of id r)
        (In-last_part (page_limit limit) m visible (rw is_page at i)) in
    (
      rw is_page (omega (arith, length-last_part (page_limit limit) visible, page_limit_le limit)),
      kept.0,
      ground (arith, kept.1),
    )

-- ===== src/Social/Rates.antt =====
-- The abuse policy of `CreateMessage`: what its counters count, and the bound that they keep.
use finance_app.Base.{
  ℕ, ◌+◌, ◌≤◌, ◌<◌, ◌≡◌, ◌⊎◌, Bool, ◌&&◌, none, some, List, [], ◌∷◌, ◌++◌, arith, count_if,
  if◌then◌else◌, inl, inr, Option-cases,
}
use finance_app.Base.Text.{Text, text_eq, text_eq_iff}
use finance_app.Base.Assoc.{Map, lookup, insert, IsUnique, lookup-insert}
use finance_app.Errors.{SocialError}
use finance_app.Social.Defs.{Conversation, Message, MessageWrite, MessageAbusePolicy, Repository}
use finance_app.Social.Messages.{
  messages_of, or_nil, append_message, Counts, within, bump_if, count_one, count_messages,
  count_all, abuse_refusal, no_counts, notify_and_append, create_message, normalize_message_body,
}

-- How many messages of all conversations pass a test.
abbrev pub total_if : (Message → Bool) → Map (List Message) → ℕ
total_if p [] = 0
total_if p ((_, ms) ∷ rest) = count_if p ms + total_if p rest

-- The messages of one sender from `window` before the given message on.
abbrev pub own_since : Message → ℕ → Message → Bool
own_since msg window m = text_eq m.sender_user_id msg.sender_user_id && within msg window m

abbrev pub own_same_since : Message → ℕ → Message → Bool
own_same_since msg window m =
    text_eq m.sender_user_id msg.sender_user_id
    && within msg window m
    && text_eq (normalize_message_body m.body) (normalize_message_body msg.body)

module _ (policy : MessageAbusePolicy) (msg : Message) where
  -- What the four counters hold at the end of the inner loop, from the loop's start.
  abbrev Counted : Text → List Message → Counts → Counts → Type 0
  Counted id ms n after =
      (after.user ≡ count_if (own_since msg policy.user_window) ms + n.user)
      × (after.repeated ≡ count_if (own_same_since msg policy.repeated_window) ms + n.repeated)
      × (after.burst ≡ count_if (own_since msg policy.burst_window) ms + n.burst)
      × (after.conversation
          ≡ (if text_eq id msg.conversation_id
              then count_if (within msg policy.conversation_window) ms
              else 0)
            + n.conversation)

  count_messages-Counted :
      (id : Text) (ms : List Message) (n : Counts)
      → Counted id ms n (count_messages policy msg id ms n)
  unfolding count_messages count_one
  count_messages-Counted id [] n = ground arith
  count_messages-Counted id (m ∷ ms) n =
      ground (arith, count_messages-Counted id ms (count_one policy msg id m n))

  count_all_lem :
      (store : Map (List Message)) (n : Counts)
      → ((count_all policy msg store n).user
          ≡ total_if (own_since msg policy.user_window) store + n.user)
        × ((count_all policy msg store n).repeated
            ≡ total_if (own_same_since msg policy.repeated_window) store + n.repeated)
        × ((count_all policy msg store n).burst
            ≡ total_if (own_since msg policy.burst_window) store + n.burst)
  unfolding count_all
  count_all_lem [] n = ground arith
  count_all_lem ((id, ms) ∷ rest) n = omega (
    arith,
    count_messages-Counted id ms n,
    count_all_lem rest (count_messages policy msg id ms n),
  )

-- A message added at the end of one conversation adds to the total what the test says of it.
count_if-append :
    (p : Message → Bool) (ms : List Message) (m : Message)
    → count_if p (ms ++ (m ∷ [])) ≡ count_if p ms + bump_if (p m) 0
count_if-append p [] m = ground arith
count_if-append p (x ∷ xs) m = ground (arith, count_if-append p xs m)

total_if-insert :
    (p : Message → Bool) (k : Text) (ms : List Message) (store : Map (List Message))
    → total_if p (insert k ms store) + count_if p (or_nil (lookup k store))
      ≡ total_if p store + count_if p ms
unfolding insert lookup
total_if-insert p k ms [] = omega arith
total_if-insert p k ms ((j, w) ∷ store) = ground (arith, total_if-insert p k ms store)

pub total_if-append_message :
    (p : Message → Bool) (m : Message) (c : Conversation) (r : Repository)
    → total_if p (append_message m c r).messages ≡ total_if p r.messages + bump_if (p m) 0
unfolding append_message messages_of
total_if-append_message p m c r = omega (
  arith,
  total_if-insert p m.conversation_id (messages_of m.conversation_id r ++ (m ∷ [])) r.messages,
  count_if-append p (messages_of m.conversation_id r) m,
)

-- In a store with no key twice, the conversation counter counts that conversation's messages.
conversation_counted :
    (policy : MessageAbusePolicy) (msg : Message) (store : Map (List Message)) (n : Counts)
    → IsUnique store
    → (count_all policy msg store n).conversation
      ≡ count_if (within msg policy.conversation_window) (or_nil (lookup msg.conversation_id store))
        + n.conversation
unfolding count_all lookup
conversation_counted policy msg [] n u = omega arith
conversation_counted policy msg ((id, ms) ∷ rest) n u = ground (
  arith,
  count_messages-Counted policy msg id ms n,
  conversation_counted policy msg rest (count_messages policy msg id ms n) u.1,
  text_eq_iff id msg.conversation_id,
  u.0,
)

not_refused :
    (policy : MessageAbusePolicy) (n : Counts)
    → abuse_refusal policy n ≡ none
    → ((policy.user_limit ≡ 0) ⊎ (n.user < policy.user_limit))
      × ((policy.conversation_limit ≡ 0) ⊎ (n.conversation < policy.conversation_limit))
      × ((policy.repeated_limit ≡ 0) ⊎ (n.repeated < policy.repeated_limit))
      × ((policy.burst_limit ≡ 0) ⊎ (n.burst < policy.burst_limit))
unfolding abuse_refusal
not_refused policy n h = ground arith

-- A limit is not set, or it is not passed.
abbrev pub Respects : ℕ → ℕ → Type 0
Respects limit n = (limit ≡ 0) ⊎ (n ≤ limit)

conversation-append_message :
    (p : Message → Bool) (m : Message) (c : Conversation) (r : Repository)
    → count_if p (messages_of m.conversation_id (append_message m c r))
      ≡ count_if p (messages_of m.conversation_id r) + bump_if (p m) 0
unfolding append_message messages_of
conversation-append_message p m c r =
    let ms = messages_of m.conversation_id r in
    ground (
      arith,
      lookup-insert m.conversation_id m.conversation_id (ms ++ (m ∷ [])) r.messages,
      text_eq_iff m.conversation_id m.conversation_id,
      count_if-append p ms m,
    )

-- A counter below its limit, and one message more.
one_more :
    {limit counter after : ℕ} (before : ℕ) (b : Bool)
    → (limit ≡ 0) ⊎ (counter < limit)
    → counter ≡ before + 0
    → after ≡ before + bump_if b 0
    → Respects limit after
one_more before b below counted grown = ground arith

module _ {S : Type 0} (write : MessageWrite S) (policy : MessageAbusePolicy) (r : Repository)
    (s : S) where
  -- An accepted message was written for an existing conversation after no limit was reached.
  pub create_message_accepted :
      (create_message write policy r s).0 ≡ none
      → (c : Conversation) × (lookup write.message.conversation_id r.conversations ≡ some c)
        × (abuse_refusal policy (count_all policy write.message r.messages no_counts) ≡ none)
        × ((create_message write policy r s).1 ≡ append_message write.message c r)
  unfolding create_message notify_and_append
  create_message_accepted h =
      elim (Option-cases (lookup write.message.conversation_id r.conversations)) [
        | inl missing ↦ absurd (ground arith)
        | inr (c, found) ↦ (c, found, ground arith, ground arith)
      ]

  -- A message that is not accepted, whatever refuses it, leaves the repository as it was.
  pub create_message_refused :
      {e : SocialError}
      → (create_message write policy r s).0 ≡ some e
      → (create_message write policy r s).1 ≡ r
  unfolding create_message notify_and_append
  create_message_refused h = ground arith

  -- After a message is accepted, each limit of the policy that is set (not 0) holds of the stored
  -- messages, the new one included: the sender's messages within `user_window` and within
  -- `burst_window`, the sender's messages of the same normalized body within `repeated_window`,
  -- and the messages of the conversation within `conversation_window`.
  pub create_message-Respects :
      IsUnique r.messages
      → (create_message write policy r s).0 ≡ none
      → let msg = write.message in
        let r' = (create_message write policy r s).1 in
        Respects policy.user_limit (total_if (own_since msg policy.user_window) r'.messages)
        × Respects policy.burst_limit (total_if (own_since msg policy.burst_window) r'.messages)
        × Respects policy.repeated_limit
            (total_if (own_same_since msg policy.repeated_window) r'.messages)
        × Respects policy.conversation_limit
            (count_if (within msg policy.conversation_window) (messages_of msg.conversation_id r'))
  unfolding messages_of
  create_message-Respects unique h =
      let msg = write.message in
      let (c, found, free, stored) = create_message_accepted h in
      let counts = count_all policy msg r.messages no_counts in
      let below = not_refused policy counts free in
      let counted = count_all_lem policy msg r.messages no_counts in
      rw stored (
        one_more _ _ below.0 counted.0
            (total_if-append_message (own_since msg policy.user_window) msg c r),
        one_more _ _ below.3 counted.2
            (total_if-append_message (own_since msg policy.burst_window) msg c r),
        one_more _ _ below.2 counted.1
            (total_if-append_message (own_same_since msg policy.repeated_window) msg c r),
        one_more _ _ below.1 (conversation_counted policy msg r.messages no_counts unique)
            (conversation-append_message (within msg policy.conversation_window) msg c r),
      )

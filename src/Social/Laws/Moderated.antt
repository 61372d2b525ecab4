-- ===== src/Social/Laws/Moderated.antt =====
-- Hiding a message for one user, and removing it for all.
use finance_app.Base.{
  ℕ, ◌≡◌, ◌≢◌, Bool, true, ◌&&◌, ◌||◌, none, some, List, [], ◌∷◌, arith, find_first, inl, inr,
  Bool-cases, Option-cases,
}
use finance_app.Base.Text.{Text, text_eq, text_eq_iff}
use finance_app.Base.Assoc.{lookup, insert, lookup-insert, lookup-nil}
use finance_app.Base.Result.{ok}
use finance_app.Social.Defs.{Message, Repository}
use finance_app.Social.Messages.{
  messages_of, or_nil, is_hidden, or_empty, hide_message_for_user, has_id, message_by_id, tombstone,
  remove_message,
}

-- A message that is hidden for a user is hidden in that user's view and in no other; what was
-- hidden before stays hidden.
pub hide_message_for_user_view :
    (id user viewer : Text) (r : Repository) (m : Message)
    → (hide_message_for_user id user r).0 ≡ none
    → is_hidden viewer (hide_message_for_user id user r).1 m
      ≡ ((text_eq user viewer && text_eq id m.id) || is_hidden viewer r m)
unfolding hide_message_for_user is_hidden
hide_message_for_user_view id user viewer r m h =
    let hidden = or_empty (lookup user r.hidden_for) in
    ground (
      arith,
      lookup-insert user viewer (insert id true hidden) r.hidden_for,
      lookup-insert id m.id true hidden,
      lookup-nil {V = Bool} m.id,
      text_eq_iff user viewer,
      text_eq_iff id m.id,
    )

abbrev pub removed : ℕ → Text → Message → Message
removed now moderator m = record m { removed_at = some now; removed_by = some moderator }

-- The loop of `RemoveMessage` marks the first message with the id and keeps the others.
tombstone_lem :
    (now : ℕ) (moderator id : Text) (m : Message) (ms : List Message)
    → find_first (has_id id) ms ≡ some m
    → (items : List Message) × (tombstone now moderator id ms ≡ some items)
      × (find_first (has_id id) items ≡ some (removed now moderator m))
unfolding tombstone
tombstone_lem now moderator id m [] h = absurd (ground arith)
tombstone_lem now moderator id m (x ∷ ms) h = elim (Bool-cases (text_eq x.id id)) [
  | inl here ↦ (removed now moderator x ∷ ms, ground arith, ground arith)
  | inr later ↦
      let (items, e, found) = tombstone_lem now moderator id m ms (ground arith) in
      (x ∷ items, ground arith, ground arith)
]

tombstone_others :
    (now : ℕ) (moderator id j : Text) (ms items : List Message)
    → id ≢ j
    → tombstone now moderator id ms ≡ some items
    → find_first (has_id j) items ≡ find_first (has_id j) ms
unfolding tombstone
tombstone_others now moderator id j [] items ne h = absurd (ground arith)
tombstone_others now moderator id j (x ∷ ms) items ne h =
    elim (Option-cases (tombstone now moderator id ms)) [
      | inl none_left ↦ ground (arith, text_eq_iff x.id id, text_eq_iff x.id j)
      | inr (rest, e) ↦ ground (
        arith,
        text_eq_iff x.id id,
        text_eq_iff x.id j,
        tombstone_others now moderator id j ms rest ne e,
      )
    ]

module _ (now : ℕ) (id moderator j : Text) (r : Repository) (home : Text)
    (items : List Message) where
  -- What is found of the other message, once the marked list is stored.
  others_kept :
      id ≢ j
      → tombstone now moderator id (or_nil (lookup home r.messages)) ≡ some items
      → message_by_id j (record r { messages = insert home items r.messages }) ≡ message_by_id j r
  unfolding message_by_id messages_of
  others_kept ne marked = elim (Option-cases (lookup j r.message_by_id)) [
    | inl missing ↦ ground arith
    | inr (place, stored) ↦ ground (
      arith,
      lookup-insert home place items r.messages,
      text_eq_iff home place,
      tombstone_others now moderator id j (or_nil (lookup home r.messages)) items ne marked,
    )
  ]

-- A message that can be found can be removed. It keeps its body, its sender and its time, and is
-- marked with the time and the moderator; every other message is found as before.
remove_message_marks :
    (now : ℕ) (id moderator j : Text) (r : Repository) {m : Message}
    → message_by_id id r ≡ ok m
    → id ≢ j
    → let (e, r') = remove_message now id moderator r in
      (e ≡ none)
      × (message_by_id id r' ≡ ok (removed now moderator m))
      × (message_by_id j r' ≡ message_by_id j r)
unfolding remove_message message_by_id messages_of
remove_message_marks now id moderator j r {m} h ne =
    elim (Option-cases (lookup id r.message_by_id)) [
      | inl missing ↦ absurd (ground arith)
      | inr (home, stored) ↦
          let old = or_nil (lookup home r.messages) in
          let (items, marked, found) = tombstone_lem now moderator id m old (ground arith) in
          (
            ground arith,
            ground (arith, lookup-insert home home items r.messages, text_eq_iff home home),
            ground (arith, others_kept now id moderator j r home items ne marked),
          )
    ]

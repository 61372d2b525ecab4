-- ===== src/Social/Laws/Deletion.antt =====
-- `OnAccountDeleted`: nothing of the account is left among follows and conversations.
use finance_app.Base.{
  ◌≡◌, refl, ◌⊎◌, inl, inr, true, false, not, ◌&&◌, none, some, [], ◌∷◌, arith, if◌then◌else◌,
  Option-cases, Bool-cases,
}
use finance_app.Base.Text.{Text, text_eq, text_eq_iff}
use finance_app.Base.Assoc.{Map, lookup, keep_values, IsUnique, lookup-erase, lookup-keep_values}
use finance_app.Base.Ids.{IsId}
use finance_app.Social.Defs.{Follow, Conversation, Repository}
use finance_app.Social.Follows.{follow_key, is_following}
use finance_app.Social.Keys.{follow_key_eq}
use finance_app.Social.Messages.{
  has_participant, messages_of, follow_involves, delete_conversation, delete_conversations,
  on_account_deleted,
}
use finance_app.Social.Laws.Friendship.{IsKeyed, IsValid}

abbrev IsGone : Text → Repository → Type 0
IsGone id r = (lookup id r.conversations ≡ none) × (messages_of id r ≡ [])

-- The loop leaves the follows alone.
delete_conversations-follows :
    (user : Text) (cs : Map Conversation) (r : Repository)
    → (delete_conversations user cs r).follows ≡ r.follows
unfolding delete_conversations delete_conversation
delete_conversations-follows user [] r = refl
delete_conversations-follows user ((id, c) ∷ cs) r =
    ground (arith, delete_conversations-follows user cs (delete_conversation user id c r))

delete_conversation-lookup :
    (user id j : Text) (c : Conversation) (r : Repository)
    → (lookup id (delete_conversation user j c r).conversations
        ≡ (if has_participant c user && text_eq j id then none else lookup id r.conversations))
      × (messages_of id (delete_conversation user j c r)
          ≡ (if has_participant c user && text_eq j id then [] else messages_of id r))
unfolding delete_conversation messages_of
delete_conversation-lookup user id j c r =
    ground (arith, lookup-erase j id r.conversations, lookup-erase j id r.messages)

-- What has been deleted stays deleted.
IsGone-stays :
    (user id : Text) (cs : Map Conversation) (r : Repository)
    → IsGone id r
    → IsGone id (delete_conversations user cs r)
unfolding delete_conversations
IsGone-stays user id [] r g = g
IsGone-stays user id ((j, c) ∷ cs) r g =
    IsGone-stays user id cs (delete_conversation user j c r)
      (ground (arith, delete_conversation-lookup user id j c r))

-- Every conversation of the user that the loop meets is deleted.
met-IsGone :
    (user id : Text) (cs : Map Conversation) (r : Repository) {c : Conversation}
    → lookup id cs ≡ some c
    → has_participant c user ≡ true
    → IsGone id (delete_conversations user cs r)
unfolding delete_conversations lookup
met-IsGone user id [] r h p = absurd (ground arith)
met-IsGone user id ((j, d) ∷ cs) r {c} h p = elim (Bool-cases (text_eq j id)) [
  | inl here ↦
      IsGone-stays user id cs (delete_conversation user j d r)
        (ground (arith, delete_conversation-lookup user id j d r))
  | inr later ↦ met-IsGone user id cs (delete_conversation user j d r) {c = c} (ground arith) p
]

-- The loop adds no conversation.
survivors :
    (user id : Text) (cs : Map Conversation) (r : Repository) {c : Conversation}
    → lookup id (delete_conversations user cs r).conversations ≡ some c
    → lookup id r.conversations ≡ some c
unfolding delete_conversations
survivors user id [] r h = h
survivors user id ((j, d) ∷ cs) r h = ground (
  arith,
  survivors user id cs (delete_conversation user j d r) h,
  delete_conversation-lookup user id j d r,
)

-- After an account is deleted, every conversation that is left was there before and is one that the
-- account takes no part in.
pub on_account_deleted_conversations :
    (user id : Text) (r : Repository) {c : Conversation}
    → lookup id (on_account_deleted user r).conversations ≡ some c
    → (lookup id r.conversations ≡ some c) × (has_participant c user ≡ false)
unfolding on_account_deleted
on_account_deleted_conversations user id r {c} h =
    let r' = record r { follows = keep_values (λ f. not (follow_involves user f)) r.follows } in
    let before = survivors user id r.conversations r' h in
    elim (Bool-cases (has_participant c user)) [
      | inl member ↦ absurd (ground (arith, met-IsGone user id r.conversations r' before member))
      | inr other ↦ (before, other)
    ]

keyed_lookup :
    (a b : Text) (m : Map Follow) {f : Follow}
    → IsId a
    → IsKeyed m
    → lookup (follow_key a b) m ≡ some f
    → (f.follower_user_id ≡ a) × (f.following_user_id ≡ b)
unfolding lookup
keyed_lookup a b [] h v e = absurd (ground arith)
keyed_lookup a b ((k, g) ∷ m) {f} h v e = ground (
  arith,
  keyed_lookup a b m {f = f} h v.3,
  follow_key_eq g.follower_user_id g.following_user_id a b v.1 h,
  text_eq_iff k (follow_key a b),
  text_eq_iff g.follower_user_id a,
  text_eq_iff g.following_user_id b,
)

not_kept :
    (user a b : Text) (m : Map Follow)
    → IsId a
    → IsKeyed m
    → IsUnique m
    → (a ≡ user) ⊎ (b ≡ user)
    → lookup (follow_key a b) (keep_values (λ f. not (follow_involves user f)) m) ≡ none
not_kept user a b m h v u own =
    elim (Option-cases
      (lookup (follow_key a b) (keep_values (λ f. not (follow_involves user f)) m))) [
        | inl gone ↦ gone
        | inr (f, kept) ↦
            let (found, test) =
              lookup-keep_values (λ f. not (follow_involves user f)) (follow_key a b) f m u kept in
            absurd (
              ground (
                arith,
                keyed_lookup a b m h v found,
                text_eq_iff f.follower_user_id user,
                text_eq_iff f.following_user_id user,
              ))
      ]

-- In a store where each follow stands once, under the key of its two ids, no user follows an
-- account after it is deleted, and it follows no user.
pub on_account_deleted_follows :
    (user other : Text) (r : Repository)
    → IsId user
    → IsId other
    → IsValid r
    → (is_following user other (on_account_deleted user r) ≡ false)
      × (is_following other user (on_account_deleted user r) ≡ false)
unfolding on_account_deleted is_following
on_account_deleted_follows user other r hu ho v =
    let r' = record r { follows = keep_values (λ f. not (follow_involves user f)) r.follows } in
    let same = delete_conversations-follows user r.conversations r' in
    (
      rw (same, not_kept user user other r.follows hu v.keyed v.unique (inl refl)) refl,
      rw (same, not_kept user other user r.follows ho v.keyed v.unique (inr refl)) refl,
    )

-- ===== src/Social/Laws/Friendship.antt =====
-- Friendships: the list of mutual friends against the follow relation.
use finance_app.Base.{ℕ, ◌≡◌, refl, Bool, ◌&&◌, ◌||◌, List, [], ◌∷◌, arith, any_of, is_some}
use finance_app.Base.Text.{Text, text_eq, text_eq_iff}
use finance_app.Base.Assoc.{
  Map, lookup, insert, erase, values, IsUnique, insert-IsUnique, erase-IsUnique,
}
use finance_app.Base.Ids.{IsId}
use finance_app.Social.Defs.{Follow, Friendship, Repository}
use finance_app.Social.Follows.{
  follow_key, follow, unfollow, is_following, friendship_of, friendships_from, insert_friendship,
  sort_friendships, list_mutual_friends,
}
use finance_app.Social.Keys.{follow_key_eq}

-- Every follow stands under the key of its two users, whose ids are ids.
abbrev pub IsKeyed : Map Follow → Type 0
IsKeyed [] = Unit
IsKeyed ((k, f) ∷ m) =
    (k ≡ follow_key f.follower_user_id f.following_user_id)
    × IsId f.follower_user_id
    × IsId f.following_user_id
    × IsKeyed m

pub record IsValid (r : Repository) : Type 0 where
  pub keyed : IsKeyed r.follows
  pub unique : IsUnique r.follows

insert-IsKeyed :
    (f : Follow) (m : Map Follow)
    → IsId f.follower_user_id
    → IsId f.following_user_id
    → IsKeyed m
    → IsKeyed (insert (follow_key f.follower_user_id f.following_user_id) f m)
unfolding insert
insert-IsKeyed f [] h k v = (refl, h, k, tt)
insert-IsKeyed f ((j, g) ∷ m) h k v = ground (arith, insert-IsKeyed f m h k)

erase-IsKeyed : (k : Text) (m : Map Follow) → IsKeyed m → IsKeyed (erase k m)
unfolding erase
erase-IsKeyed k [] v = tt
erase-IsKeyed k ((j, g) ∷ m) v = ground (arith, erase-IsKeyed k m)

-- Follows and unfollows by ids keep the store valid.
pub follow-IsValid :
    (now : ℕ) (a b : Text) (r : Repository)
    → IsId a
    → IsId b
    → IsValid r
    → IsValid (follow now a b r)
unfolding follow
follow-IsValid now a b r h k v =
    let f : Follow = record { follower_user_id = a; following_user_id = b; created_at = now } in
    ground (
      arith,
      insert-IsKeyed f r.follows h k v.keyed,
      insert-IsUnique (follow_key a b) f r.follows v.unique,
    )

pub unfollow-IsValid : (a b : Text) (r : Repository) → IsValid r → IsValid (unfollow a b r)
unfolding unfollow
unfollow-IsValid a b r v = record {
  keyed = erase-IsKeyed (follow_key a b) r.follows v.keyed;
  unique = erase-IsUnique (follow_key a b) r.follows v.unique;
}

abbrev pub is_with : Text → Friendship → Bool
is_with user p = text_eq p.user_id user

any-insert_friendship :
    (t : Text) (p : Friendship) (ps : List Friendship)
    → any_of (is_with t) (insert_friendship p ps) ≡ (is_with t p || any_of (is_with t) ps)
unfolding insert_friendship
any-insert_friendship t p [] = refl
any-insert_friendship t p (q ∷ ps) = ground (arith, any-insert_friendship t p ps)

any-sort_friendships :
    (t : Text) (ps : List Friendship)
    → any_of (is_with t) (sort_friendships ps) ≡ any_of (is_with t) ps
unfolding sort_friendships
any-sort_friendships t [] = refl
any-sort_friendships t (p ∷ ps) =
    ground (arith, any-sort_friendships t ps, any-insert_friendship t p (sort_friendships ps))

any-friendships_from :
    (user t : Text) (all m : Map Follow)
    → IsId user
    → IsKeyed m
    → IsUnique m
    → any_of (is_with t) (friendships_from user all (values m))
      ≡ (is_some (lookup (follow_key user t) m) && is_some (lookup (follow_key t user) all))
unfolding friendships_from friendship_of lookup
any-friendships_from user t all [] h v u = refl
any-friendships_from user t all ((k, f) ∷ m) h v u = ground (
  arith,
  any-friendships_from user t all m h v.3 u.1,
  follow_key_eq f.follower_user_id f.following_user_id user t v.1 h,
  text_eq_iff f.follower_user_id user,
  text_eq_iff f.following_user_id t,
  text_eq_iff k (follow_key user t),
  u.0,
)

-- In a store where each follow stands once, under the key of its two ids, a user is in the caller's
-- list of friends exactly if each follows the other.
pub list_mutual_friends_iff :
    (user t : Text) (r : Repository)
    → IsId user
    → IsValid r
    → any_of (is_with t) (list_mutual_friends user r)
      ≡ (is_following user t r && is_following t user r)
unfolding list_mutual_friends is_following
list_mutual_friends_iff user t r h v = ground (
  arith,
  any-sort_friendships t (friendships_from user r.follows (values r.follows)),
  any-friendships_from user t r.follows r.follows h v.keyed v.unique,
)

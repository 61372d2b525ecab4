-- ===== src/Social/Follows.antt =====
-- social/memory_repository.go: the follow relationships. Each method holds the mutex for its whole
-- body, and these do not fail.
use finance_app.Base.{
  ℕ, Bool, Option, none, some, List, [], ◌∷◌, ◌++◌, ltb, if◌then◌else◌, keep_if, is_some,
}
use finance_app.Base.Text.{Text, codes, text_eq}
use finance_app.Base.Assoc.{Map, lookup, insert, erase, values}
use finance_app.Social.Defs.{Follow, Friendship, Repository}

unfoldable pub follow_key : Text → Text → Text
follow_key a b = a ++ (codes "->" ++ b)

unfoldable pub follow : ℕ → Text → Text → Repository → Repository
follow now follower following r =
    if is_some (lookup (follow_key follower following) r.follows) then r else record r {
      follows =
          insert (follow_key follower following)
            (record {
              follower_user_id = follower;
              following_user_id = following;
              created_at = now;
            })
            r.follows;
    }

unfoldable pub unfollow : Text → Text → Repository → Repository
unfollow follower following r = record r {
  follows = erase (follow_key follower following) r.follows;
}

unfoldable pub is_following : Text → Text → Repository → Bool
is_following follower following r = is_some (lookup (follow_key follower following) r.follows)

-- `sort.Slice` by `CreatedAt.After`, newest first.
unfoldable pub insert_newest : Follow → List Follow → List Follow
insert_newest f [] = f ∷ []
insert_newest f (g ∷ gs) =
    let rest = insert_newest f gs in if ltb f.created_at g.created_at then g ∷ rest else f ∷ g ∷ gs

unfoldable pub sort_newest : List Follow → List Follow
sort_newest [] = []
sort_newest (f ∷ fs) = insert_newest f (sort_newest fs)

unfoldable pub list_following : Text → Repository → List Follow
unfolding sort_newest insert_newest
list_following user r =
    sort_newest (keep_if (λ (f : Follow). text_eq f.follower_user_id user) (values r.follows))

unfoldable pub list_followers : Text → Repository → List Follow
unfolding sort_newest insert_newest
list_followers user r =
    sort_newest (keep_if (λ (f : Follow). text_eq f.following_user_id user) (values r.follows))

-- The friendship that the loop makes of one follow, if it is returned.
unfoldable pub friendship_of : Text → Map Follow → Follow → Option Friendship
friendship_of user all f =
    if text_eq f.follower_user_id user
    then elim (lookup (follow_key f.following_user_id user) all) [
      | none ↦ none
      | some back ↦ some (record {
        user_id = f.following_user_id;
        friends_since = if ltb f.created_at back.created_at then back.created_at else f.created_at;
      })
    ]
    else none

unfoldable pub friendships_from : Text → Map Follow → List Follow → List Friendship
unfolding friendship_of
friendships_from user all [] = []
friendships_from user all (f ∷ fs) =
    let rest = friendships_from user all fs in
    elim (friendship_of user all f) [ none ↦ rest | some p ↦ p ∷ rest ]

unfoldable pub insert_friendship : Friendship → List Friendship → List Friendship
insert_friendship f [] = f ∷ []
insert_friendship f (g ∷ gs) =
    let rest = insert_friendship f gs in
    if ltb f.friends_since g.friends_since then g ∷ rest else f ∷ g ∷ gs

unfoldable pub sort_friendships : List Friendship → List Friendship
sort_friendships [] = []
sort_friendships (f ∷ fs) = insert_friendship f (sort_friendships fs)

unfoldable pub list_mutual_friends : Text → Repository → List Friendship
unfolding friendships_from sort_friendships insert_friendship
list_mutual_friends user r = sort_friendships (friendships_from user r.follows (values r.follows))

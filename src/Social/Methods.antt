-- ===== src/Social/Methods.antt =====
-- social/service.go: follows and friendships, over the in-memory repository. `pairlock` serialises
-- `Follow` with `safety.Service.Block` for one pair; a call here is one whole critical section.
-- The repository's calls on follows never fail, so the branches on their errors are not written.
use finance_app.Base.{ℕ, Bool, true, false, ◌&&◌, Option, none, some, List, [], ◌∷◌, if◌then◌else◌}
use finance_app.Base.Text.{Text, text_eq, trim_space, to_lower}
use finance_app.Base.Assoc.{Map, lookup}
use finance_app.Base.Result.{Result, ok, err, ◌>>=◌}
use finance_app.Errors.{ProfileError, SafetyError, SocialError}
use finance_app.Profile.{Profile, ProfileRepository}
use finance_app.Profile.Handle.{validate_handle}
use finance_app.Social.Defs.{
  Follow, FollowState, Friendship, FriendItem, SafeProfile, Repository, Service,
}
use finance_app.Social.Follows

abbrev pub lookup_error : Result ProfileError Profile → Result SocialError Profile
lookup_error (ok p) = ok p
lookup_error (err ProfileError.not_found) = err SocialError.not_found
lookup_error (err e) = err (SocialError.of_profile e)

unfoldable pub profile_by_handle : ProfileRepository → Text → Result SocialError Profile
profile_by_handle profiles handle =
    let h = to_lower (trim_space handle) in
    elim (validate_handle h) [
      | err _ ↦ err SocialError.invalid_handle
      | ok _ ↦ lookup_error (profiles.get_by_handle h)
    ]

unfoldable pub public_profile_by_handle : ProfileRepository → Text → Result SocialError Profile
public_profile_by_handle profiles handle = do
  p ← profile_by_handle profiles handle
  if p.is_public then ok p else err SocialError.not_found

unfoldable pub friend_item : Profile → ℕ → FriendItem
friend_item p since = record {
  handle = p.handle;
  display_name = p.display_name;
  avatar_key = p.avatar_key;
  strategy_tag = p.strategy_tag;
  friends_since = since;
}

unfoldable pub safe_profile : Profile → SafeProfile
safe_profile p = record {
  handle = p.handle;
  display_name = p.display_name;
  avatar_key = p.avatar_key;
  strategy_tag = p.strategy_tag;
}

unfoldable pub follow_state_for_target : Text → Profile → Repository → FollowState
follow_state_for_target user target r =
    let is_following = Follows.is_following user target.user_id r in
    let follows_me = Follows.is_following target.user_id user r in
    record {
      handle = target.handle;
      is_following = is_following;
      follows_me = follows_me;
      is_friend = is_following && follows_me;
    }

unfoldable pub are_friends : Text → Text → Repository → Bool
are_friends a b r = Follows.is_following a b r && Follows.is_following b a r

-- The errors of the policy are handed on as they are.
abbrev pub policy_outcome : Result SafetyError Bool → Result SocialError (Unit {0})
policy_outcome (err e) = err (SocialError.of_safety e)
policy_outcome (ok true) = ok tt
policy_outcome (ok false) = err SocialError.interaction_blocked

-- A flag of the caller's block-set, false where the user is not in it.
abbrev pub in_set : Text → Map Bool → Bool
in_set user set = elim (lookup user set) [ none ↦ false | some b ↦ b ]

abbrev pub safety_outcome : Result SafetyError (Map Bool) → Result SocialError (Map Bool)
safety_outcome (err _) = err SocialError.safety_unavailable
safety_outcome (ok set) = ok set

abbrev pub followed_users : List Follow → List (Text × ℕ)
followed_users [] = []
followed_users (f ∷ fs) = (f.following_user_id, f.created_at) ∷ followed_users fs

abbrev pub following_users : List Follow → List (Text × ℕ)
following_users [] = []
following_users (f ∷ fs) = (f.follower_user_id, f.created_at) ∷ following_users fs

abbrev pub friend_users : List Friendship → List (Text × ℕ)
friend_users [] = []
friend_users (f ∷ fs) = (f.user_id, f.friends_since) ∷ friend_users fs

-- What `FollowState` answers: a user's own state is blank.
unfoldable pub own_or_target : Text → Profile → Repository → FollowState
own_or_target user target r =
    if text_eq target.user_id user
    then record {
      handle = target.handle;
      is_following = false;
      follows_me = false;
      is_friend = false;
    }
    else follow_state_for_target user target r

module _ {S : Type 0} where
  unfoldable pub check_interaction : Service S → Text → Text → Result SocialError (Unit {0})
  check_interaction svc a b = elim svc.policy [
    | none ↦ ok tt
    | some policy ↦ policy_outcome (policy a b)
  ]

  -- The critical section of `Follow`, once the target is known.
  unfoldable pub follow_target :
      Service S → ℕ → Text → Profile → Repository → Result SocialError FollowState × Repository
  follow_target svc now user target r = elim (check_interaction svc user target.user_id) [
    | err e ↦ (err e, r)
    | ok _ ↦
        (let r' = Follows.follow now user target.user_id r in
          (ok (follow_state_for_target user target r'), r'))
  ]

  unfoldable pub follow :
      Service S → ℕ → Text → Text → Repository → Result SocialError FollowState × Repository
  unfolding follow_target
  follow svc now user handle r = elim (public_profile_by_handle svc.profiles handle) [
    | err e ↦ (err e, r)
    | ok target ↦
        if text_eq target.user_id user
        then (err SocialError.self_follow, r)
        else follow_target svc now user target r
  ]

  unfoldable pub unfollow :
      Service S → Text → Text → Repository → Result SocialError FollowState × Repository
  unfollow svc user handle r = elim (profile_by_handle svc.profiles handle) [
    | err e ↦ (err e, r)
    | ok target ↦
        if text_eq target.user_id user
        then (err SocialError.self_follow, r)
        else (let r' = Follows.unfollow user target.user_id r in
            (ok (follow_state_for_target user target r'), r'))
  ]

  unfoldable pub follow_state :
      Service S → Text → Text → Repository → Result SocialError FollowState
  follow_state svc user handle r = do
    target ← profile_by_handle svc.profiles handle
    ok (own_or_target user target r)

  -- It fails closed.
  unfoldable pub blocked_set : Service S → Text → Result SocialError (Map Bool)
  blocked_set svc user = elim svc.blocked [
    | none ↦ ok []
    | some source ↦ safety_outcome (source user)
  ]

  -- The loop of the three lists: a blocked user is left out, and so is one with no profile.
  unfoldable pub listed : Service S → Map Bool → List (Text × ℕ) → List FriendItem
  listed svc blocked [] = []
  listed svc blocked ((user, since) ∷ rest) =
      let others = listed svc blocked rest in
      if in_set user blocked then others else elim (svc.profiles.get_by_user_id user) [
        | err _ ↦ others
        | ok p ↦ friend_item p since ∷ others
      ]

  unfoldable pub following : Service S → Text → Repository → Result SocialError (List FriendItem)
  unfolding listed
  following svc user r = do
    blocked ← blocked_set svc user
    ok (listed svc blocked (followed_users (Follows.list_following user r)))

  unfoldable pub followers : Service S → Text → Repository → Result SocialError (List FriendItem)
  unfolding listed
  followers svc user r = do
    blocked ← blocked_set svc user
    ok (listed svc blocked (following_users (Follows.list_followers user r)))

  unfoldable pub friends : Service S → Text → Repository → Result SocialError (List FriendItem)
  unfolding listed
  friends svc user r = do
    blocked ← blocked_set svc user
    ok (listed svc blocked (friend_users (Follows.list_mutual_friends user r)))

-- `RemoveFollowBothDirections`, in the form that `safety.Service` takes it.
unfoldable pub remove_follow_both_directions :
    Text → Text → Repository → Option SocialError × Repository
remove_follow_both_directions a b r = (none, Follows.unfollow b a (Follows.unfollow a b r))

-- ===== src/Separation/Tests.antt =====
-- Two users, and runs of the calls between them.
use finance_app.Base.{◌≡◌, refl, true, false, none, some, List, [], ◌∷◌, if◌then◌else◌, arith, take}
use finance_app.Base.Assoc
use finance_app.Base.Text.{
  Text, codes, text_eq, to_lower, lower_rune, trim_space, trim_left, is_space,
}
use finance_app.Base.Result.{ok, err}
use finance_app.Base.Ids.{IsId}
use finance_app.Errors.{ProfileError, SafetyError, SocialError}
use finance_app.Profile.{Profile, ProfileRepository}
use finance_app.Profile.Handle
use finance_app.Safety.Store
use finance_app.Safety.Methods as SafetyMethods
use finance_app.Social.Methods as SocialMethods
use finance_app.Social.Follows
use finance_app.Safety.Store.{is_blocked, is_blocked_either_direction}
use finance_app.Safety.Methods.{profile_by_handle}
use finance_app.Social.{new_repository}
use finance_app.Social.Follows.{is_following}
use finance_app.Separation.System.{Wiring, System, Call, safety_service, social_service, step, run}
use finance_app.Separation.Invariant.{no_follow_across_block, block_clears}
use finance_app.Separation.Refusal.{blocked_follow_status}
use finance_app.Social.Http.{error_status}

abbrev person : Text → Text → Profile
person id handle = record {
  user_id = id;
  handle = handle;
  display_name = handle;
  avatar_key = [];
  bio = [];
  strategy_tag = codes "growth";
  is_public = true;
  show_public_weights = false;
  created_at = 1;
  updated_at = 1;
}

abbrev alice : Profile
alice = person (codes "a1-07") (codes "alice")

abbrev bob : Profile
bob = person (codes "b2-19") (codes "bob")

abbrev profiles : ProfileRepository
profiles = record {
  get_by_user_id = λ id.
      if text_eq id alice.user_id
      then ok alice
      else if text_eq id bob.user_id
      then ok bob
      else err ProfileError.not_found;
  get_by_handle = λ h.
      if text_eq h alice.handle
      then ok alice
      else if text_eq h bob.handle
      then ok bob
      else err ProfileError.not_found;
}

abbrev wiring : Wiring (Unit {0})
wiring = record { profiles = profiles; status = some (λ _. ok (false, false)); notifier = none }

abbrev empty : System
empty = record { blocks = []; social = new_repository }

-- Both follow one another, one blocks the other, and both try to follow again.
abbrev calls : List Call
calls =
    Call.follow 5 alice.user_id (codes "bob")
    ∷ Call.follow 6 bob.user_id (codes " Alice ")
    ∷ Call.block 7 alice.user_id (codes "bob")
    ∷ Call.follow 8 bob.user_id (codes "alice")
    ∷ Call.follow 9 alice.user_id (codes "bob")
    ∷ []

ids : (h : Text) (p : Profile) → profiles.get_by_handle h ≡ ok p → IsId p.user_id
ids h p e = ground arith

-- The definitions that a run computes through.
running : Unit {0}
unfolding run step is_following is_blocked is_blocked_either_direction Assoc.lookup Assoc.insert
    Assoc.erase text_eq to_lower lower_rune trim_space trim_left is_space Handle.validate_handle
    Handle.matches_handle Handle.is_reserved SocialMethods.follow SocialMethods.follow_target
    SocialMethods.public_profile_by_handle SocialMethods.profile_by_handle
    SocialMethods.check_interaction SocialMethods.follow_state_for_target SocialMethods.unfollow
    SocialMethods.remove_follow_both_directions Follows.follow Follows.unfollow Follows.follow_key
    SafetyMethods.block SafetyMethods.block_target SafetyMethods.finish_block
    SafetyMethods.profile_by_handle SafetyMethods.can_users_interact Store.block Store.unblock
    Store.block_key safety_service social_service
running = tt

-- The first two calls make the two friends.
before_block :
    is_following alice.user_id bob.user_id (run wiring (take 2 calls) empty).social ≡ true
unfolding running
before_block = refl

-- After the block the two later follows are refused.
after_block :
    let s = (run wiring calls empty) in
    (is_following alice.user_id bob.user_id s.social ≡ false)
    × (is_following bob.user_id alice.user_id s.social ≡ false)
    × (is_blocked alice.user_id bob.user_id s.blocks ≡ true)
unfolding running
after_block = (refl, refl, refl)

block_clears_example :
    (t : Profile) × (profile_by_handle profiles (codes "bob") ≡ ok t)
    × (is_blocked alice.user_id t.user_id
          (step wiring
            (Call.block 7 alice.user_id (codes "bob"))
            (run wiring (take 2 calls) empty)).blocks
        ≡ true)
    × (is_following alice.user_id t.user_id
          (step wiring
            (Call.block 7 alice.user_id (codes "bob"))
            (run wiring (take 2 calls) empty)).social
        ≡ false)
    × (is_following t.user_id alice.user_id
          (step wiring
            (Call.block 7 alice.user_id (codes "bob"))
            (run wiring (take 2 calls) empty)).social
        ≡ false)
unfolding running
block_clears_example =
    block_clears wiring ids 7 alice.user_id (codes "bob") (run wiring (take 2 calls) empty) refl
      refl

-- Both may follow again before the block; after it no follow is left.
no_follow_across_block_example :
    is_following alice.user_id bob.user_id (run wiring calls empty).social ≡ false
unfolding running
no_follow_across_block_example =
    no_follow_across_block wiring ids calls alice.user_id bob.user_id
      (refl, (refl, (refl, (refl, (refl, tt))))) refl refl refl

blocked_follow_status_example :
    (SocialMethods.follow
        (social_service wiring (run wiring calls empty).blocks)
        9
        bob.user_id
        (codes "alice")
        new_repository
      ≡ (err (SocialError.of_safety SafetyError.blocked), new_repository))
    × (error_status (SocialError.of_safety SafetyError.blocked) ≡ 500)
unfolding running
blocked_follow_status_example =
    blocked_follow_status wiring 9 bob.user_id (codes "alice") alice (run wiring calls empty).blocks
      new_repository (λ _. ok (false, false)) refl refl refl refl refl refl

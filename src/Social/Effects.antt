-- ===== src/Social/Effects.antt =====
-- What the follow methods of social/service.go do to the repository, by their outcome.
use finance_app.Base.{ℕ, ◌≡◌, ◌⊎◌, inl, inr, true, false, arith, Bool-cases}
use finance_app.Base.Text.{Text, text_eq, trim_space, to_lower}
use finance_app.Base.Result.{Result, ok, err, Result-cases}
use finance_app.Errors.{ProfileError, SocialError}
use finance_app.Profile.{Profile, ProfileRepository}
use finance_app.Social.Defs.{Repository, Service}
use finance_app.Social.Follows
use finance_app.Social.Methods.{
  lookup_error, profile_by_handle, public_profile_by_handle, check_interaction, follow,
  follow_state_for_target, unfollow,
}

lookup_error_ok : (x : Result ProfileError Profile) (p : Profile) → lookup_error x ≡ ok p → x ≡ ok p
lookup_error_ok x p h = ground arith

pub profile_by_handle_ok :
    (profiles : ProfileRepository) (handle : Text) (p : Profile)
    → profile_by_handle profiles handle ≡ ok p
    → profiles.get_by_handle (to_lower (trim_space handle)) ≡ ok p
unfolding profile_by_handle
profile_by_handle_ok profiles handle p h =
    ground (arith, lookup_error_ok (profiles.get_by_handle (to_lower (trim_space handle))) p)

pub public_profile_by_handle_ok :
    (profiles : ProfileRepository) (handle : Text) (p : Profile)
    → public_profile_by_handle profiles handle ≡ ok p
    → (profiles.get_by_handle (to_lower (trim_space handle)) ≡ ok p) × (p.is_public ≡ true)
unfolding public_profile_by_handle
public_profile_by_handle_ok profiles handle p h =
    ground (arith, profile_by_handle_ok profiles handle p)

module _ {S : Type 0} (svc : Service S) (user handle : Text) (r : Repository) where
  -- A follow is refused and changes nothing, or it goes to a public profile of another user that
  -- the policy lets the caller interact with.
  pub follow_effect :
      (now : ℕ)
      → ((e : SocialError) × (follow svc now user handle r ≡ (err e, r)))
        ⊎ ((t : Profile) × (public_profile_by_handle svc.profiles handle ≡ ok t)
            × (text_eq t.user_id user ≡ false)
            × (check_interaction svc user t.user_id ≡ ok tt)
            × (follow svc now user handle r ≡ (
              ok (follow_state_for_target user t (Follows.follow now user t.user_id r)),
              Follows.follow now user t.user_id r,
            )))
  unfolding follow
  follow_effect now = elim (Result-cases (public_profile_by_handle svc.profiles handle)) [
    | inr (e, q) ↦ inl (e, ground arith)
    | inl (t, q) ↦ elim (Bool-cases (text_eq t.user_id user)) [
      | inl own ↦ inl (SocialError.self_follow, ground arith)
      | inr other ↦ elim (Result-cases (check_interaction svc user t.user_id)) [
        | inr (e, c) ↦ inl (e, ground arith)
        | inl (u, c) ↦ inr (t, q, other, c, ground arith)
      ]
    ]
  ]

  pub unfollow_effect :
      ((e : SocialError) × (unfollow svc user handle r ≡ (err e, r)))
      ⊎ ((t : Profile) × (profile_by_handle svc.profiles handle ≡ ok t)
          × ((unfollow svc user handle r).1 ≡ Follows.unfollow user t.user_id r))
  unfolding unfollow
  unfollow_effect = elim (Result-cases (profile_by_handle svc.profiles handle)) [
    | inr (e, q) ↦ inl (e, ground arith)
    | inl (t, q) ↦ elim (Bool-cases (text_eq t.user_id user)) [
      | inl own ↦ inl (SocialError.self_follow, ground arith)
      | inr other ↦ inr (t, q, ground arith)
    ]
  ]

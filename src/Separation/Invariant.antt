-- ===== src/Separation/Invariant.antt =====
-- No pair of users is blocked in a direction and following in a direction.
use finance_app.Base.{ℕ, ◌≡◌, refl, true, false, List, [], ◌∷◌, arith, All, inl, inr, none, some}
use finance_app.Base.Text.{Text}
use finance_app.Base.Result.{ok}
use finance_app.Base.Ids.{IsId}
use finance_app.Errors.{SafetyError}
use finance_app.Profile.{Profile}
use finance_app.Safety.{Blocks}
use finance_app.Safety.Store.{is_blocked, block, is_blocked_either_direction}
use finance_app.Social.{new_repository}
use finance_app.Social.Follows.{is_following, unfollow}
use finance_app.Safety.Methods.{
  block as block_by_handle, block_target, can_users_interact, profile_by_handle,
}
use finance_app.Safety.Effects
use finance_app.Social.Effects as FollowEffects
use finance_app.Social.Methods.{check_interaction, remove_follow_both_directions}
use finance_app.Separation.System.{
  Wiring, System, Call, caller, safety_service, social_service, step, run,
}
use finance_app.Separation.Preserve.{
  IsSeparated, follow-IsSeparated, unfollow-IsSeparated, block-IsSeparated, now_blocked,
  unfollow_both, unblock-IsSeparated, empty-IsSeparated,
}

module _ {N : Type 0} (w : Wiring N) where
  -- The policy lets a pair through only if neither has blocked the other.
  check_interaction_free :
      (a b : Text) (r : Blocks)
      → check_interaction (social_service w r) a b ≡ ok tt
      → is_blocked_either_direction a b r ≡ false
  unfolding check_interaction social_service can_users_interact
  check_interaction_free a b r h = ground arith

module _ {N : Type 0} (w : Wiring N) where
  -- As wired, the critical section of a block writes it and removes both follows.
  pub block_target_wired :
      (now : ℕ) (u t : Text) (s : System)
      → block_target (safety_service w) now u t s.blocks s.social
        ≡ (none, block now u t s.blocks, unfollow t u (unfollow u t s.social))
  unfolding block_target safety_service remove_follow_both_directions
  block_target_wired now u t s = refl

module _ {N : Type 0} (w : Wiring N)
    (ids : (h : Text) (p : Profile) → w.profiles.get_by_handle h ≡ ok p → IsId p.user_id) where
  step-IsSeparated :
      (c : Call) (s : System) → IsId (caller c) → IsSeparated s → IsSeparated (step w c s)
  unfolding step
  step-IsSeparated (Call.follow now user handle) s hu sep =
      elim (FollowEffects.follow_effect (social_service w s.blocks) user handle s.social now) [
        | inl (e, q) ↦ rw q sep
        | inr (t, found, other, free, q) ↦ rw q (
            follow-IsSeparated now user t.user_id s hu
              (ids _ t (FollowEffects.public_profile_by_handle_ok w.profiles handle t found).0)
              (check_interaction_free w user t.user_id s.blocks free) sep)
      ]
  step-IsSeparated (Call.unfollow user handle) s hu sep =
      elim (FollowEffects.unfollow_effect (social_service w s.blocks) user handle s.social) [
        | inl (e, q) ↦ rw q sep
        | inr (t, found, q) ↦ rw q (unfollow-IsSeparated user t.user_id s hu sep)
      ]
  step-IsSeparated (Call.block now user handle) s hu sep =
      elim (Effects.block_effect (safety_service w) user handle s.blocks now s.social) [
        | inl (e, q) ↦ rw q sep
        | inr (t, found, other, q) ↦
            rw (q, block_target_wired w now user t.user_id s)
              (block-IsSeparated now user t.user_id s hu
                (ids _ t (Effects.profile_by_handle_ok w.profiles handle t found)) sep)
      ]
  step-IsSeparated (Call.unblock user handle) s hu sep =
      elim (Effects.unblock_effect (safety_service w) user handle s.blocks) [
        | inl q ↦ rw q sep
        | inr (t, found, q) ↦ rw q (unblock-IsSeparated user t.user_id s hu sep)
      ]

  pub run-IsSeparated :
      (cs : List Call) (s : System)
      → All (λ c. IsId (caller c)) cs
      → IsSeparated s
      → IsSeparated (run w cs s)
  unfolding run
  run-IsSeparated [] s h sep = sep
  run-IsSeparated (c ∷ cs) s h sep =
      run-IsSeparated cs (step w c s) h.1 (step-IsSeparated c s h.0 sep)

  -- After any calls of any users, in any order, from empty stores, no user follows another who has
  -- blocked them or whom they have blocked. The ids of the callers and of the profiles that a handle
  -- finds are made of hexadecimal digits and dashes.
  pub no_follow_across_block :
      (cs : List Call) (a b : Text)
      → All (λ c. IsId (caller c)) cs
      → IsId a
      → IsId b
      → let s = run w cs (record { blocks = []; social = new_repository }) in
        is_blocked_either_direction a b s.blocks ≡ true → is_following a b s.social ≡ false
  no_follow_across_block cs a b callers ha hb blocked =
      run-IsSeparated cs (record { blocks = []; social = new_repository }) callers empty-IsSeparated
        a b ha hb blocked

  -- A block call that answers no error has found a target, which it leaves blocked by the caller, with
  -- no follow between the two in either direction. The caller and the profiles that a handle finds
  -- have ids.
  pub block_clears :
      (now : ℕ) (user handle : Text) (s : System)
      → IsId user
      → (block_by_handle (safety_service w) now user handle s.blocks s.social).0 ≡ none
      → (t : Profile) × (profile_by_handle w.profiles handle ≡ ok t)
        × (is_blocked user t.user_id (step w (Call.block now user handle) s).blocks ≡ true)
        × (is_following user t.user_id (step w (Call.block now user handle) s).social ≡ false)
        × (is_following t.user_id user (step w (Call.block now user handle) s).social ≡ false)
  unfolding step
  block_clears now user handle s hu done =
      elim (Effects.block_effect (safety_service w) user handle s.blocks now s.social) [
        | inl (e, q) ↦ absurd (refused e q)
        | inr (t, found, other, q) ↦ (
          t,
          found,
          rw (q, block_target_wired w now user t.user_id s) (now_blocked now user t.user_id s hu),
          rw (q, block_target_wired w now user t.user_id s)
              (unfollow_both user t.user_id s.social hu (id_of t found)).0,
          rw (q, block_target_wired w now user t.user_id s)
              (unfollow_both user t.user_id s.social hu (id_of t found)).1,
        )
      ]
    where
      id_of : (t : Profile) → profile_by_handle w.profiles handle ≡ ok t → IsId t.user_id
      id_of t found = ids _ t (Effects.profile_by_handle_ok w.profiles handle t found)

      refused :
          (e : SafetyError)
          → block_by_handle (safety_service w) now user handle s.blocks s.social
            ≡ (some e, s.blocks, s.social)
          → ⊥
      refused e q = cc

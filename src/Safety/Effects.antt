-- ===== src/Safety/Effects.antt =====
-- What the block methods of safety/service.go do, by their outcome.
use finance_app.Base.{ℕ, ◌≡◌, ◌⊎◌, inl, inr, false, none, some, arith, Bool-cases}
use finance_app.Base.Text.{Text, text_eq, trim_space, to_lower}
use finance_app.Base.Result.{Result, ok, Result-cases}
use finance_app.Errors.{ProfileError, SafetyError}
use finance_app.Profile.{Profile, ProfileRepository}
use finance_app.Safety.Defs.{Blocks, Service}
use finance_app.Safety.Store
use finance_app.Safety.Methods.{lookup_error, profile_by_handle, block, block_target, unblock}

lookup_error_ok : (x : Result ProfileError Profile) (p : Profile) → lookup_error x ≡ ok p → x ≡ ok p
lookup_error_ok x p h = ground arith

pub profile_by_handle_ok :
    (profiles : ProfileRepository) (handle : Text) (p : Profile)
    → profile_by_handle profiles handle ≡ ok p
    → profiles.get_by_handle (to_lower (trim_space handle)) ≡ ok p
unfolding profile_by_handle
profile_by_handle_ok profiles handle p h =
    ground (arith, lookup_error_ok (profiles.get_by_handle (to_lower (trim_space handle))) p)

module _ {S : Type 0} (svc : Service S) (user handle : Text) (r : Blocks) where
  -- A block is refused before its critical section, or enters it for another user.
  pub block_effect :
      (now : ℕ) (s : S)
      → ((e : SafetyError) × (block svc now user handle r s ≡ (some e, r, s)))
        ⊎ ((t : Profile) × (profile_by_handle svc.profiles handle ≡ ok t)
            × (text_eq t.user_id user ≡ false)
            × (block svc now user handle r s ≡ block_target svc now user t.user_id r s))
  unfolding block
  block_effect now s = elim (Result-cases (profile_by_handle svc.profiles handle)) [
    | inr (e, q) ↦ inl (e, ground arith)
    | inl (t, q) ↦ elim (Bool-cases (text_eq t.user_id user)) [
      | inl own ↦ inl (SafetyError.self_block, ground arith)
      | inr other ↦ inr (t, q, other, ground arith)
    ]
  ]

  pub unblock_effect :
      ((unblock svc user handle r).1 ≡ r)
      ⊎ ((t : Profile) × (profile_by_handle svc.profiles handle ≡ ok t)
          × (unblock svc user handle r ≡ (none, Store.unblock user t.user_id r)))
  unfolding unblock
  unblock_effect = elim (Result-cases (profile_by_handle svc.profiles handle)) [
    | inr (e, q) ↦ inl (ground arith)
    | inl (t, q) ↦ inr (t, q, ground arith)
  ]

-- ===== src/Safety/Methods.antt =====
-- safety/service.go, over the in-memory block store. The store's own calls never fail, so the
-- branches on their errors are not written. `pairlock` serialises `Block` with `Follow` for one
-- pair; a call here is one whole critical section.
use finance_app.Base.{ℕ, Bool, true, Option, none, some, List, [], ◌∷◌, if◌then◌else◌}
use finance_app.Base.Text.{Text, text_eq, trim_space, to_lower}
use finance_app.Base.Assoc.{Map}
use finance_app.Base.Result.{Result, ok, err}
use finance_app.Errors.{ProfileError, SafetyError, SocialError}
use finance_app.Profile.{Profile, ProfileRepository}
use finance_app.Profile.Handle.{validate_handle}
use finance_app.Safety.Defs.{Block, Blocks, BlockedUserItem, Service}
use finance_app.Safety.Store

abbrev pub lookup_error : Result ProfileError Profile → Result SafetyError Profile
lookup_error (ok p) = ok p
lookup_error (err ProfileError.not_found) = err SafetyError.not_found
lookup_error (err e) = err (SafetyError.of_profile e)

unfoldable pub profile_by_handle : ProfileRepository → Text → Result SafetyError Profile
profile_by_handle profiles handle =
    let h = to_lower (trim_space handle) in
    elim (validate_handle h) [
      | err _ ↦ err SafetyError.invalid_handle
      | ok _ ↦ lookup_error (profiles.get_by_handle h)
    ]

-- One round of the loop over the two users: what `UserStatus` makes of one of them.
abbrev pub status_refusal : Result SafetyError (Bool × Bool) → Option SafetyError
status_refusal (err e) = some e
status_refusal (ok (suspended, banned)) =
    if banned
    then some SafetyError.user_banned
    else if suspended
    then some SafetyError.user_suspended
    else none

module _ {S : Type 0} where
  -- What follows the block write: the follow removal, and the rollback of a new block where it
  -- fails.
  unfoldable pub finish_block :
      Bool → Text → Text → Option SocialError × S → Blocks → Option SafetyError × Blocks × S
  finish_block already user target (none, s) r = (none, r, s)
  finish_block already user target (some _, s) r =
      (some SafetyError.block_failed, if already then r else Store.unblock user target r, s)

  -- The critical section of `Block`, once the target is known.
  unfoldable pub block_target :
      Service S → ℕ → Text → Text → Blocks → S → Option SafetyError × Blocks × S
  unfolding finish_block
  block_target svc now user target r s = elim svc.coordinator [
    | some commit ↦ (let (e, s') = commit user target s in (e, r, s'))
    | none ↦
        (let already = Store.is_blocked user target r in
          let r' = Store.block now user target r in
          elim svc.follows [
            | none ↦ (none, r', s)
            | some remove ↦ finish_block already user target (remove user target s) r'
          ])
  ]

  unfoldable pub block : Service S → ℕ → Text → Text → Blocks → S → Option SafetyError × Blocks × S
  unfolding block_target
  block svc now user handle r s = elim (profile_by_handle svc.profiles handle) [
    | err e ↦ (some e, r, s)
    | ok target ↦
        if text_eq target.user_id user
        then (some SafetyError.self_block, r, s)
        else block_target svc now user target.user_id r s
  ]

  unfoldable pub unblock : Service S → Text → Text → Blocks → Option SafetyError × Blocks
  unblock svc user handle r = elim (profile_by_handle svc.profiles handle) [
    | err e ↦ (some e, r)
    | ok target ↦ (none, Store.unblock user target.user_id r)
  ]

  -- A profile that cannot be read is left out.
  unfoldable pub blocked_items : Service S → List Block → List BlockedUserItem
  blocked_items svc [] = []
  blocked_items svc (b ∷ bs) =
      let rest = blocked_items svc bs in
      elim (svc.profiles.get_by_user_id b.blocked_user_id) [
        | err _ ↦ rest
        | ok p ↦
            record {
              handle = p.handle;
              display_name = p.display_name;
              avatar_key = p.avatar_key;
              blocked_at = b.created_at;
            }
            ∷ rest
      ]

  unfoldable pub blocked_users : Service S → Text → Blocks → List BlockedUserItem
  unfolding blocked_items
  blocked_users svc user r = blocked_items svc (Store.list_blocked user r)

  abbrev pub statuses_refusal : Service S → List Text → Option SafetyError
  statuses_refusal svc [] = none
  statuses_refusal svc (id ∷ ids) = elim svc.status [
    | none ↦ none
    | some status ↦
        (let rest = statuses_refusal svc ids in
          elim (status_refusal (status id)) [ some e ↦ some e | none ↦ rest ])
  ]

  unfoldable pub can_users_interact : Service S → Text → Text → Blocks → Result SafetyError Bool
  can_users_interact svc a b r = elim (statuses_refusal svc (a ∷ b ∷ [])) [
    | some e ↦ err e
    | none ↦ if Store.is_blocked_either_direction a b r then err SafetyError.blocked else ok true
  ]

  unfoldable pub blocked_pair_user_ids : Service S → Text → Blocks → Map Bool
  blocked_pair_user_ids svc user r = Store.blocked_pair_user_ids user r

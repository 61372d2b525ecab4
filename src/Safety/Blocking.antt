-- ===== src/Safety/Blocking.antt =====
-- A block that cannot clear the follows is rolled back; an unblock restores nothing.
use finance_app.Base.{ℕ, ◌≡◌, Option, none, some, arith}
use finance_app.Base.Text.{Text, text_eq_iff}
use finance_app.Base.Ids.{IsId}
use finance_app.Errors.{SafetyError, SocialError}
use finance_app.Safety.Defs.{Blocks, Service}
use finance_app.Safety.Store
use finance_app.Safety.Store.{is_blocked}
use finance_app.Safety.Keys.{is_blocked-block, is_blocked-unblock}
use finance_app.Safety.Methods.{block_target, finish_block}

-- Without a coordinator, where the follows cannot be removed, a block by a user with an id fails
-- with `block_failed`, and who is blocked by whom has not changed, for a blocker with an id.
pub block_target_rollback :
    {S : Type 0} (svc : Service S) (now : ℕ) (u t c d : Text) (r : Blocks) (s : S)
    (remove : Text → Text → S → Option SocialError × S) {e : SocialError}
    → IsId u
    → IsId c
    → svc.coordinator ≡ none
    → svc.follows ≡ some remove
    → (remove u t s).0 ≡ some e
    → let (e', r', s') = block_target svc now u t r s in
      (e' ≡ some SafetyError.block_failed) × (is_blocked c d r' ≡ is_blocked c d r)
unfolding block_target finish_block
block_target_rollback svc now u t c d r s remove hu hc no_coordinator follows failed = ground (
  arith,
  is_blocked-block now u t c d r hu hc,
  is_blocked-unblock u t c d (Store.block now u t r) hu hc,
  text_eq_iff u c,
  text_eq_iff t d,
)

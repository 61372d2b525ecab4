-- ===== src/Auth/Repository/Run.antt =====
-- Runs of the methods of `InMemoryUserRepository` that write, in the order of its mutex. The hooks
-- of a creation write to other stores, so a run leaves them out.
use finance_app.Base.{ℕ, Bool, false, Option, List, [], ◌∷◌}
use finance_app.Base.Text.{Text, text_eq}
use finance_app.Auth.Defs.{User, AuthIdentity, LifecycleToken, EmailOutboxMessage}
use finance_app.Auth.Repository.Defs.{Repository}
use finance_app.Auth.Repository.Accounts
use finance_app.Auth.Repository.Tokens
use finance_app.Auth.Repository.Outbox

-- Where a method takes the time, it comes first.
pub data Call : Type 0 where
  create : User → Call
  create_with_verification : User → LifecycleToken → EmailOutboxMessage → Call
  create_provider_user : User → AuthIdentity → Call
  create_identity : AuthIdentity → Call
  update_password : Text → Text → Call
  update_password_and_revoke : Text → Text → Call
  increment_auth_version : Text → Call
  set_role : Text → Text → Call
  suspend : Text → Option ℕ → Text → Call
  ban : ℕ → Text → Text → Call
  soft_delete : Text → Call
  delete_account : Text → Call
  save_email_verification_token : ℕ → LifecycleToken → Call
  verify_email_token : ℕ → Text → Call
  save_password_reset_token : ℕ → LifecycleToken → Call
  reset_password_token : ℕ → Text → Text → Call
  save_reauthentication_token : LifecycleToken → Call
  consume_reauthentication_token : ℕ → Text → Text → Call
  claim_email_outbox : ℕ → ℕ → Call
  claim_email_outbox_by_id : ℕ → Text → Call
  mark_email_outbox_delivered : ℕ → Text → Call
  mark_email_outbox_failed : ℕ → Text → Text → Call

unfoldable pub step : Call → Repository → Repository
step (create u) r = (Accounts.create u r).1
step (create_with_verification u token email) r =
    (Accounts.create_with_verification {X = Unit {0}} u token email [] r tt).1
step (create_provider_user u identity) r =
    (Accounts.create_provider_user {X = Unit {0}} u identity [] r tt).1
step (create_identity identity) r = (Accounts.create_identity identity r).1
step (update_password id hash) r = (Accounts.update_password id hash r).1
step (update_password_and_revoke id hash) r = (Accounts.update_password_and_revoke id hash r).1
step (increment_auth_version id) r = (Accounts.increment_auth_version id r).1
step (set_role id role) r = (Accounts.set_role id role r).1
step (suspend id until reason) r = (Accounts.suspend id until reason r).1
step (ban now id reason) r = (Accounts.ban now id reason r).1
step (soft_delete id) r = (Accounts.soft_delete id r).1
step (delete_account id) r = (Accounts.delete_account id r).1
step (save_email_verification_token now token) r = Tokens.save_email_verification_token now token r
step (verify_email_token now hash) r = (Tokens.verify_email_token now hash r).1
step (save_password_reset_token now token) r = Tokens.save_password_reset_token now token r
step (reset_password_token now hash password) r =
    (Tokens.reset_password_token now hash password r).1
step (save_reauthentication_token token) r = Tokens.save_reauthentication_token token r
step (consume_reauthentication_token now user hash) r =
    (Tokens.consume_reauthentication_token now user hash r).1
step (claim_email_outbox limit now) r = (Outbox.claim_email_outbox limit now r).1
step (claim_email_outbox_by_id now id) r = (Outbox.claim_email_outbox_by_id id now r).1
step (mark_email_outbox_delivered at id) r = (Outbox.mark_email_outbox_delivered id at r).1
step (mark_email_outbox_failed at id failure) r =
    (Outbox.mark_email_outbox_failed id failure at r).1

unfoldable pub run : List Call → Repository → Repository
run [] r = r
run (c ∷ cs) r = run cs (step c r)

-- A call that makes an account with this id.
abbrev pub creates : Text → Call → Bool
creates id (create u) = text_eq u.id id
creates id (create_with_verification u _ _) = text_eq u.id id
creates id (create_provider_user u _) = text_eq u.id id
creates id _ = false

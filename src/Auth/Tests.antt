-- ===== src/Auth/Tests.antt =====
-- An account from its registration to its ban.
use finance_app.Base.{
  ℕ, ◌+◌, ◌*◌, ◌≡◌, refl, true, false, none, some, List, [], ◌∷◌, arith, any_of, is_some, ◌≢◌,
  subst,
}
use finance_app.Base.Text.{
  Text, codes, text_eq, to_lower, lower_rune, trim_space, trim_left, is_space,
}
use finance_app.Base.Assoc
use finance_app.Base.Assoc.{lookup}
use finance_app.Base.Result.{ok, err}
use finance_app.Auth.Defs.{
  AuthError, ProviderClaims, EmailOutboxMessage, is_banned, email_kind_verification,
  email_outbox_retry_delay,
}
use finance_app.Auth.Repository.Defs.{
  Repository, find_by_id, find_by_email, normalize_email, identity_key,
  new_in_memory_user_repository,
}
use finance_app.Auth.Repository.Accounts
use finance_app.Auth.Repository.Tokens
use finance_app.Auth.Repository.Outbox
use finance_app.Auth.Repository.Run.{Call, run, step}
use finance_app.Auth.Service.Defs
use finance_app.Auth.Service.Defs.{Service}
use finance_app.Auth.Service.Registration
use finance_app.Auth.Service.Login
use finance_app.Auth.Service.Passwords
use finance_app.Auth.Service.Passwords.{revoke_sessions, change_password_and_revoke}
use finance_app.Auth.Middleware
use finance_app.Auth.Middleware.{Access, require_auth_with_user}
use finance_app.Auth.Laws.Index.{IsIndexed}
use finance_app.Auth.Laws.Indexes.{indexes_agree}
use finance_app.Auth.Laws.Sessions.{
  revoked_token_refused, changed_password_refuses, banned_never_admitted,
}
use finance_app.Auth.Laws.SingleUse.{reset_token_single_use}
use finance_app.Auth.Laws.Delivery.{has_id, delivered_never_claimed}
use finance_app.Auth.Service.Registration.{Draws}
use finance_app.Auth.Laws.Leases.{Claim, claiming, claim_is_exclusive, failed_delivery_retried}
use finance_app.Auth.Laws.Signing.{SignIn, claims_of, login_admits, sign_in_not_banned}
use finance_app.Auth.Laws.Verifying.{register_verify_login}
use finance_app.Auth.Sample.{
  crypto-Laws, bcrypt_matches, draws, input, service, registered, verified, ann, token, request,
}

-- The definitions that a run computes through.
computing : Unit {0}
unfolding run step lookup Assoc.insert Assoc.erase text_eq to_lower lower_rune trim_space trim_left
    is_space is_banned find_by_id find_by_email normalize_email identity_key Accounts.stored_user
    Accounts.store_user Accounts.create Accounts.run_hooks Accounts.create_with_verification
    Accounts.create_provider_user Accounts.update_password_and_revoke
    Accounts.increment_auth_version Accounts.ban Accounts.delete_account
    Accounts.filter_memory_tokens Tokens.consume_all Tokens.save_email_verification_token
    Tokens.save_password_reset_token Tokens.take_token Tokens.verify_email_token
    Tokens.reset_password_token Outbox.is_leased Outbox.is_due Outbox.claim Outbox.claim_from
    Outbox.claim_email_outbox Outbox.claim_id Outbox.claim_email_outbox_by_id Outbox.write_first
    Outbox.delivered Outbox.failed Outbox.mark_email_outbox_delivered
    Outbox.mark_email_outbox_failed Defs.truncate_runes Defs.byte_length Defs.hash_signup_ip
    Defs.generate Defs.parse Defs.issue Defs.new_lifecycle_token Defs.hash_lifecycle_token
    Defs.hash_password Registration.deliver_claimed_email Registration.deliver_email_outbox_by_id
    Registration.registration_checks Registration.new_user Registration.verification_message
    Registration.register_context Registration.verify_email Login.login Login.login_with_apple
    Login.apple_claims Login.link_or_register Login.login_with_provider_claims
    Accounts.find_identity Accounts.create_identity Registration.forgot_password
    Passwords.change_password_and_revoke Passwords.revoke_sessions Middleware.after_prefix
    Middleware.bearer_token Middleware.session_token_from Middleware.session_token
    Middleware.require_auth_with_user
computing = tt

found_ann : find_by_id (codes "u-1") verified ≡ ok ann
unfolding computing
found_ann = refl

-- A request with the token is admitted until the token expires.
admitted_ann :
    (require_auth_with_user service 1029 request verified ≡ Access.admitted (codes "u-1"))
    × (require_auth_with_user service 1030 request verified ≡ Access.unauthorized)
unfolding computing
admitted_ann = (refl, refl)

-- The calls of the repository that the registration and the link make.
abbrev signup : List Call
signup =
    Call.create_with_verification (record ann { email_verified_at = none })
      (record {
        id = codes "t-1";
        user_id = codes "u-1";
        token_hash = b'#' ∷ codes "raw";
        expires_at = 10 + service.verification_ttl;
        created_at = 10;
      })
      (record {
        id = codes "m-1";
        user_id = codes "u-1";
        kind = email_kind_verification;
        recipient = codes "ann@example.org";
        verification_url = codes "http://localhost:5137/verify-email?token=raw";
        created_at = 10;
        available_at = 10;
        claimed_at = none;
        delivered_at = none;
        attempts = 0;
        last_error = [];
      })
    ∷ Call.claim_email_outbox_by_id 10 (codes "m-1")
    ∷ Call.mark_email_outbox_failed (10 + email_outbox_retry_delay) (codes "m-1") (codes "refused")
    ∷ Call.verify_email_token 20 (b'#' ∷ codes "raw")
    ∷ []

signup_runs : run signup new_in_memory_user_repository ≡ verified
unfolding computing
signup_runs = refl

indexed : IsIndexed verified
unfolding computing
indexed = subst IsIndexed signup_runs (indexes_agree signup (refl, (refl, (refl, (refl, tt)))))

indexes_agree_example : IsIndexed (run signup new_in_memory_user_repository)
unfolding computing
indexes_agree_example = indexes_agree signup (refl, (refl, (refl, (refl, tt))))

-- A change of role, and a link that is tried again.
abbrev later_calls : List Call
later_calls =
    Call.set_role (codes "u-1") (codes "moderator")
    ∷ Call.verify_email_token 40 (b'#' ∷ codes "raw")
    ∷ []

revoked_token_refused_example :
    require_auth_with_user service 60 request
      (run later_calls (revoke_sessions service (codes "u-1") verified).1)
    ≡ Access.unauthorized
unfolding computing
revoked_token_refused_example =
    revoked_token_refused service later_calls verified ann 60 request token
      (claims_of service 30 ann) (IsIndexed.bounded indexed) refl (refl, (refl, tt)) refl refl refl
      (omega arith)

-- The token that a change of password answers.
abbrev fresh_token : Text
fresh_token =
    elim (change_password_and_revoke service 50 8 (codes "u-1") (codes "password")
      (codes "password two") verified).0 [ ok t ↦ t | err _ ↦ [] ]

abbrev refused_message : EmailOutboxMessage
refused_message = record {
  id = codes "m-1";
  user_id = codes "u-1";
  kind = email_kind_verification;
  recipient = codes "ann@example.org";
  verification_url = codes "http://localhost:5137/verify-email?token=raw";
  created_at = 10;
  available_at = 10 + email_outbox_retry_delay;
  claimed_at = none;
  delivered_at = none;
  attempts = 1;
  last_error = codes "refused";
}

changed_password_refuses_example :
    require_auth_with_user service 60 request (
      run later_calls
        (change_password_and_revoke service 50 8
          (codes "u-1")
          (codes "password")
          (codes "password two")
          verified).1)
    ≡ Access.unauthorized
unfolding computing
changed_password_refuses_example =
    changed_password_refuses service later_calls verified ann 50 8 (codes "password")
      (codes "password two") fresh_token 60 request token (claims_of service 30 ann)
      (IsIndexed.bounded indexed) refl refl (refl, (refl, tt)) refl refl refl (omega arith)

banned_never_admitted_example :
    require_auth_with_user service 60 request
      (run later_calls (Accounts.ban 55 (codes "u-1") (codes "spam") verified).1)
    ≢ Access.admitted (codes "u-1")
unfolding computing
banned_never_admitted_example =
    banned_never_admitted service later_calls verified ann 55 (codes "spam") 60 request
      (IsIndexed.bounded indexed) refl (refl, (refl, tt))

-- A link to reset the password, followed at 45.
abbrev asked : Repository
asked =
    (Registration.forgot_password service 40 (codes "t-2") (some (codes "reset"))
      (codes "ann@example.org") verified 0).0

reset_token_single_use_example :
    (Tokens.reset_password_token 90 (b'#' ∷ codes "reset") (codes "again") (
      run later_calls
        (Tokens.reset_password_token 45 (b'#' ∷ codes "reset") (codes "new") asked).1)).0
    ≡ err AuthError.invalid_lifecycle_token
unfolding computing
reset_token_single_use_example =
    reset_token_single_use (b'#' ∷ codes "reset") 45 90 (codes "new") (codes "again")
      (record ann { password_hash = codes "new"; auth_version = 2 }) later_calls asked (omega arith)
      refl (refl, (refl, tt))

-- The message of the registration, which the sender has refused once, is claimed again.
abbrev again : ℕ
again = 10 + email_outbox_retry_delay

abbrev claimed : Repository
claimed = (Outbox.claim_email_outbox_by_id (codes "m-1") again verified).1

-- A batch claims it first, and then it is asked for by its id.
claim_is_exclusive_example :
    let r' = run later_calls (claiming (Claim.batch 20) again verified).1 in
    any_of (has_id (codes "m-1")) (claiming (Claim.by_id (codes "m-1")) (again + 60) r').0 ≡ false
unfolding computing
claim_is_exclusive_example =
    claim_is_exclusive (Claim.batch 20) (Claim.by_id (codes "m-1")) (codes "m-1") again (again + 60)
      later_calls verified (omega arith) refl (refl, (refl, tt)) (omega arith)

delivered_never_claimed_example :
    let r' =
      run later_calls (Outbox.mark_email_outbox_delivered (codes "m-1") (again + 1) claimed).1 in
    (any_of (has_id (codes "m-1")) (Outbox.claim_email_outbox 20 (again * 9) r').0 ≡ false)
    × (is_some (Outbox.claim_email_outbox_by_id (codes "m-1") (again * 9) r').0 ≡ false)
unfolding computing
delivered_never_claimed_example =
    delivered_never_claimed (codes "m-1") (again + 1) 20 (again * 9) later_calls claimed
      (omega arith) refl (refl, (refl, tt))

failed_delivery_retried_example :
    (Outbox.claim_email_outbox_by_id
      (codes "m-1")
      (again + email_outbox_retry_delay)
      (Registration.deliver_claimed_email service again
        (Outbox.claim again refused_message)
        claimed
        0).1).0
    ≡ some (
        Outbox.claim (again + email_outbox_retry_delay) (
          Outbox.failed
            (codes "refused")
            (again + email_outbox_retry_delay)
            (Outbox.claim again refused_message)))
unfolding computing
failed_delivery_retried_example =
    failed_delivery_retried service again (again + email_outbox_retry_delay)
      (Outbox.claim again refused_message) claimed 0 (codes "refused") refl refl refl refl
      (omega arith)

login_admits_example :
    require_auth_with_user service 1029 request verified ≡ Access.admitted (codes "u-1")
unfolding computing
login_admits_example =
    login_admits service crypto-Laws verified indexed 30 1029 (codes "ann@example.org")
      (codes "password") ann token request refl refl

sign_in_not_banned_example :
    (is_banned ann ≡ false)
    × (service.crypto.sign (codes "key") (claims_of service 30 ann) ≡ some token)
unfolding computing
sign_in_not_banned_example =
    sign_in_not_banned service 30
      (SignIn.with_password (codes "ann@example.org") (codes "password")) verified 0 ann token refl

register_verify_login_example :
    (Login.login service 30 (codes "ann@example.org") (codes "password") registered
      ≡ err AuthError.email_verification_required)
    × ((Registration.verify_email service 20 (codes "raw") registered).0
        ≡ Defs.issue service 20 ann)
    × (Login.login service 30 (codes "ann@example.org") (codes "password") verified
        ≡ Defs.issue service 30 ann)
unfolding computing
register_verify_login_example =
    register_verify_login service 10 20 30 draws input (codes "raw")
      (record ann { email_verified_at = none }) new_in_memory_user_repository 0 bcrypt_matches refl
      refl refl refl (omega arith)

-- A stranger's Apple token without an address, sent with the address of another user.
abbrev stranger : ProviderClaims
stranger = record {
  provider = [];
  subject = codes "stranger";
  email = [];
  email_verified = false;
  display_name = [];
  avatar_key = [];
}

abbrev apple_service : Service ℕ
apple_service = record service { apple_enabled = true; apple_verifier = some (λ _. ok stranger) }

abbrev claim_to_be_ann : ProviderClaims
claim_to_be_ann = record stranger { email = codes "ann@example.org" }

abbrev hijacked : Repository
hijacked =
    (Login.login_with_apple apple_service 30 draws (codes "jwt") claim_to_be_ann verified 0).1

-- ===== src/Auth/Service/Registration.antt =====
-- service.go and email_outbox.go: registration with its verification email, delivery of the
-- outbox, and the calls on verification links.
use finance_app.Base.{
  ℕ, ◌+◌, Bool, true, false, not, ◌||◌, Option, none, some, List, [], ◌∷◌, ◌++◌, if◌then◌else◌, ltb,
  is_some,
}
use finance_app.Base.Text.{Text, codes, trim_space, is_empty, text_eq}
use finance_app.Base.Result.{Result, ok, err, ◌>>=◌, ◌>>◌, refuse_if}
use finance_app.Auth.Defs.{
  User, LifecycleToken, RegisterInput, EmailOutboxMessage, AuthError, role_user,
  email_kind_verification, email_outbox_batch_size, email_outbox_retry_delay,
}
use finance_app.Auth.Repository.Defs.{Repository, normalize_email, find_by_email}
use finance_app.Auth.Repository.Accounts.{create_with_verification, run_hooks}
use finance_app.Auth.Repository.Tokens.{
  verify_email_token, save_email_verification_token, save_password_reset_token,
}
use finance_app.Auth.Repository.Outbox.{
  claim_email_outbox, claim_email_outbox_by_id, mark_email_outbox_delivered,
  mark_email_outbox_failed,
}
use finance_app.Auth.Service.Defs.{
  Service, byte_length, min_password_length, max_avatar_key_length, truncate_runes, hash_signup_ip,
  new_lifecycle_token, hash_password, hash_lifecycle_token, issue,
}

-- What is drawn at random in one call: the uuids of the user, the token and the message, the salt
-- and the raw token.
pub record Draws : Type 0 where
  pub user_id : Text
  pub token_id : Text
  pub message_id : Text
  pub salt : ℕ
  pub raw : Option Text

module _ {X : Type 0} (s : Service X) where
  abbrev send_email : EmailOutboxMessage → X → Option Text × X
  send_email m x =
      if text_eq m.kind email_kind_verification
      then s.email_sender.send_verification m.recipient m.verification_url x
      else (some (codes "unsupported auth email kind"), x)

  unfoldable pub deliver_claimed_email :
      ℕ → EmailOutboxMessage → Repository → X → Result AuthError (Unit {0}) × Repository × X
  deliver_claimed_email now m r x =
      let (sent, x') = send_email m x in
      elim sent [
        | some failure ↦
            let (_, r') =
              mark_email_outbox_failed m.id failure (now + email_outbox_retry_delay) r in
            (err AuthError.delivery, r', x')
        | none ↦ (let (out, r') = mark_email_outbox_delivered m.id now r in (out, r', x'))
      ]

  unfoldable pub deliver_email_outbox_by_id :
      ℕ → Text → Repository → X → Result AuthError (Unit {0}) × Repository × X
  deliver_email_outbox_by_id now id r x =
      let (claimed, r') = claim_email_outbox_by_id id now r in
      elim claimed [ none ↦ (ok tt, r', x) | some m ↦ deliver_claimed_email now m r' x ]

  -- The loop over a claimed batch: the number delivered, and whether some delivery failed.
  unfoldable pub deliver_all :
      ℕ → List EmailOutboxMessage → Repository → X → (ℕ × Bool) × Repository × X
  deliver_all now [] r x = ((0, false), r, x)
  deliver_all now (m ∷ ms) r x =
      let (out, r', x') = deliver_claimed_email now m r x in
      let ((n, bad), r'', x'') = deliver_all now ms r' x' in
      elim out [ ok _ ↦ ((n + 1, bad), r'', x'') | err _ ↦ ((n, true), r'', x'') ]

  unfoldable pub process_email_outbox_once : ℕ → Repository → X → (ℕ × Bool) × Repository × X
  process_email_outbox_once now r x =
      let (ms, r') = claim_email_outbox email_outbox_batch_size now r in deliver_all now ms r' x

  -- The checks before anything is written.
  unfoldable pub registration_checks : RegisterInput → Result AuthError (Unit {0})
  registration_checks input = do
    refuse_if (is_empty (normalize_email input.email)) AuthError.email_required
    refuse_if (is_empty input.password) AuthError.password_required
    refuse_if (ltb (byte_length input.password) min_password_length) AuthError.password_too_short
    refuse_if (is_empty input.display_name) AuthError.display_name_required

  abbrev pub avatar_or_default : Text → Text
  avatar_or_default key =
      let short = truncate_runes (trim_space key) max_avatar_key_length in
      if is_empty short then codes "default" else short

  unfoldable pub new_user : Draws → RegisterInput → Text → User
  unfolding truncate_runes
  new_user draws input hash = record {
    id = draws.user_id;
    email = normalize_email input.email;
    display_name = input.display_name;
    avatar_key = avatar_or_default input.avatar_key;
    password_hash = hash;
    has_password = true;
    email_verified_at = none;
    auth_version = 1;
    role = role_user;
    suspended_until = none;
    suspension_reason = [];
    banned_at = none;
    ban_reason = [];
    signup_ip_hash = hash_signup_ip s input.signup_ip;
  }

  unfoldable pub verification_message : ℕ → Draws → User → Text → EmailOutboxMessage
  verification_message now draws u raw = record {
    id = draws.message_id;
    user_id = u.id;
    kind = email_kind_verification;
    recipient = u.email;
    verification_url = s.public_app_url ++ (codes "/verify-email?token=" ++ raw);
    created_at = now;
    available_at = now;
    claimed_at = none;
    delivered_at = none;
    attempts = 0;
    last_error = [];
  }

  -- The checks, the hash and the token, before anything is written.
  abbrev pub prepared : ℕ → Draws → RegisterInput → Result AuthError (Text × Text × LifecycleToken)
  prepared now draws input = do
    registration_checks input
    hash ← hash_password s draws.salt input.password
    token ← new_lifecycle_token s now draws.token_id draws.raw draws.user_id s.verification_ttl
    ok (hash, token.0, token.1)

  unfoldable pub register_context :
      ℕ → Draws → RegisterInput → Repository → X → Result AuthError User × Repository × X
  unfolding new_user
  register_context now draws input r x = elim (prepared now draws input) [
    | err e ↦ (err e, r, x)
    | ok (hash, raw, token) ↦
        let u = new_user draws input hash in
        let m = verification_message now draws u raw in
        let (stored, r', x') = create_with_verification u token m s.tx_creation_hooks r x in
        elim stored [
          | err e ↦ (err e, r', x')
          | ok _ ↦
              let (ready, x'') = run_hooks s.creation_hooks u.id x' in
              elim ready [
                | err e ↦ (err e, r', x'')
                | ok _ ↦
                    let (_, r'', x''') = deliver_email_outbox_by_id now m.id r' x'' in
                    (ok u, r'', x''')
              ]
        ]
  ]

  unfoldable pub verify_email : ℕ → Text → Repository → Result AuthError (User × Text) × Repository
  verify_email now raw r =
      let (out, r') = verify_email_token now (hash_lifecycle_token s raw) r in
      (elim out [ err e ↦ err e | ok u ↦ issue s now u ], r')

  unfoldable pub resend_verification :
      ℕ → Text → Option Text → Text → Repository → X → Repository × X
  resend_verification now id raw email r x = elim (find_by_email email r) [
    | err _ ↦ (r, x)
    | ok u ↦
        if not u.has_password || is_some u.email_verified_at
        then (r, x)
        else elim (new_lifecycle_token s now id raw u.id s.verification_ttl) [
          | err _ ↦ (r, x)
          | ok (value, token) ↦
              let (_, x') =
                s.email_sender.send_verification u.email
                  (s.public_app_url ++ (codes "/verify-email?token=" ++ value)) x in
              (save_email_verification_token now token r, x')
        ]
  ]

  unfoldable pub forgot_password : ℕ → Text → Option Text → Text → Repository → X → Repository × X
  forgot_password now id raw email r x = elim (find_by_email email r) [
    | err _ ↦ (r, x)
    | ok u ↦
        if not u.has_password
        then (r, x)
        else elim (new_lifecycle_token s now id raw u.id s.reset_ttl) [
          | err _ ↦ (r, x)
          | ok (value, token) ↦
              let (_, x') =
                s.email_sender.send_password_reset u.email
                  (s.public_app_url ++ (codes "/reset-password?token=" ++ value)) x in
              (save_password_reset_token now token r, x')
        ]
  ]

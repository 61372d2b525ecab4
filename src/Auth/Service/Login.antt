-- ===== src/Auth/Service/Login.antt =====
-- service.go: sign-in with a password, with Google and with Apple.
use finance_app.Base.{
  ℕ, Bool, true, false, not, Option, none, some, [], ◌∷◌, if◌then◌else◌, ltb, ◌==◌, is_some, length,
}
use finance_app.Base.Text.{Text, codes, trim_space, is_empty}
use finance_app.Base.Result.{Result, ok, err, ◌>>◌, refuse_if}
use finance_app.Auth.Defs.{
  User, AuthIdentity, ProviderClaims, AuthError, role_user, provider_google, provider_apple,
}
use finance_app.Auth.Repository.Defs.{Repository, normalize_email, find_by_email, find_by_id}
use finance_app.Auth.Repository.Accounts.{create_provider_user, create_identity, find_identity}
use finance_app.Auth.Service.Defs.{Service, Verifier, max_avatar_key_length, truncate_runes, issue}
use finance_app.Auth.Service.Registration.{Draws}

-- `strings.Split(email, "@")[0]`
unfoldable pub before_at : Text → Text
before_at [] = []
before_at (c ∷ s) = let rest = before_at s in if c == b'@' then [] else c ∷ rest

module _ {X : Type 0} (s : Service X) where
  unfoldable pub login : ℕ → Text → Text → Repository → Result AuthError (User × Text)
  login now email password r = elim (find_by_email email r) [
    | err _ ↦ err AuthError.invalid_credentials
    | ok u ↦ do
      refuse_if (not (s.crypto.password_matches u.password_hash password))
          AuthError.invalid_credentials
      refuse_if (not u.has_password) AuthError.invalid_credentials
      refuse_if (not (is_some u.email_verified_at)) AuthError.email_verification_required
      issue s now u
  ]

  abbrev shown_name : Text → Text → Text
  shown_name email name =
      let shown = if is_empty (trim_space name) then before_at email else trim_space name in
      if ltb (length shown) 2 then codes "Investor" else shown

  abbrev provider_avatar : Text → Text
  provider_avatar key =
      let short = truncate_runes (trim_space key) max_avatar_key_length in
      if is_empty short then codes "default" else short

  unfoldable pub provider_user : ℕ → Draws → Text → ProviderClaims → User
  unfolding truncate_runes before_at
  provider_user now draws email claims = record {
    id = draws.user_id;
    email = email;
    display_name = shown_name email claims.display_name;
    avatar_key = provider_avatar claims.avatar_key;
    password_hash = [];
    has_password = false;
    email_verified_at = some now;
    auth_version = 1;
    role = role_user;
    suspended_until = none;
    suspension_reason = [];
    banned_at = none;
    ban_reason = [];
    signup_ip_hash = [];
  }

  unfoldable pub provider_identity : Draws → Text → Text → ProviderClaims → AuthIdentity
  provider_identity draws user email claims = record {
    id = draws.token_id;
    user_id = user;
    provider = claims.provider;
    provider_subject = claims.subject;
    email = email;
    email_verified = claims.email_verified;
  }

  unfoldable pub register_provider_user :
      ℕ
      → Draws
      → Text
      → ProviderClaims
      → Repository
      → X
      → Result AuthError (User × Text) × Repository × X
  unfolding provider_user
  register_provider_user now draws email claims r x =
      let u = provider_user now draws email claims in
      let (out, r', x') =
        create_provider_user u (provider_identity draws u.id email claims) s.tx_creation_hooks r
          x in
      (elim out [ err e ↦ err e | ok _ ↦ issue s now u ], r', x')

  -- The part that follows where no identity is found.
  unfoldable pub link_or_register :
      ℕ → Draws → ProviderClaims → Repository → X → Result AuthError (User × Text) × Repository × X
  link_or_register now draws claims r x =
      let email = normalize_email claims.email in
      if is_empty email
      then (err AuthError.invalid_provider_token, r, x)
      else if not claims.email_verified
      then (err AuthError.provider_email_unverified, r, x)
      else elim (find_by_email email r) [
        | err _ ↦ register_provider_user now draws email claims r x
        | ok u ↦
            let (_, r') = create_identity (provider_identity draws u.id email claims) r in
            (issue s now u, r', x)
      ]

  unfoldable pub login_with_provider_claims :
      ℕ → Draws → ProviderClaims → Repository → X → Result AuthError (User × Text) × Repository × X
  login_with_provider_claims now draws claims r x =
      if is_empty claims.subject
      then (err AuthError.invalid_provider_token, r, x)
      else elim (find_identity claims.provider claims.subject r) [
        | ok i ↦ (elim (find_by_id i.user_id r) [ err e ↦ err e | ok u ↦ issue s now u ], r, x)
        | err _ ↦ link_or_register now draws claims r x
      ]

  -- `err` of the enabled flag and of a missing verifier, else the verifier's claims.
  abbrev pub verified : Bool → Option Verifier → Text → Result AuthError ProviderClaims
  verified enabled verifier credential =
      if enabled
      then (elim verifier [
        | none ↦ err AuthError.provider_not_configured
        | some verify ↦ verify credential
      ])
      else err AuthError.provider_disabled

  unfoldable pub login_with_google :
      ℕ → Draws → Text → Repository → X → Result AuthError (User × Text) × Repository × X
  login_with_google now draws credential r x =
      elim (verified s.google_enabled s.google_verifier credential) [
        | err e ↦ (err e, r, x)
        | ok claims ↦
            login_with_provider_claims now draws (record claims { provider = provider_google }) r x
      ]

  -- The claims of Apple with what they lack filled in from the request.
  unfoldable pub apple_claims : ProviderClaims → ProviderClaims → ProviderClaims
  apple_claims claims fallback =
      let fill = if is_empty claims.email then not (is_empty fallback.email) else false in
      record claims {
        provider = provider_apple;
        email = if fill then fallback.email else claims.email;
        email_verified = if fill then true else claims.email_verified;
        display_name =
            if is_empty claims.display_name then fallback.display_name else claims.display_name;
      }

  unfoldable pub login_with_apple :
      ℕ
      → Draws
      → Text
      → ProviderClaims
      → Repository
      → X
      → Result AuthError (User × Text) × Repository × X
  login_with_apple now draws credential fallback r x =
      elim (verified s.apple_enabled s.apple_verifier credential) [
        | err e ↦ (err e, r, x)
        | ok claims ↦ login_with_provider_claims now draws (apple_claims claims fallback) r x
      ]

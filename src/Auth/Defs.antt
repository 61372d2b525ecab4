-- ===== src/Auth/Defs.antt =====
-- backend/internal/auth/model.go, errors.go, email_outbox.go: accounts, one-time tokens, email
-- messages. Times are numbers of nanoseconds, and an absent pointer to a time is `none`.
use finance_app.Base.{ℕ, ◌*◌, Bool, false, ◌||◌, Option, none, some, ltb, is_some}
use finance_app.Base.Text.{Text, codes, text_eq}

-- errors.go; `hashing`, `signing`, `random_source`, `hook`, `provider` and `delivery` stand for the errors that other
-- code returns, passed on as they are.
pub data AuthError : Type 0 where
  email_required : AuthError
  password_required : AuthError
  password_too_short : AuthError
  display_name_required : AuthError
  email_exists : AuthError
  invalid_credentials : AuthError
  user_not_found : AuthError
  identity_not_found : AuthError
  provider_disabled : AuthError
  provider_not_configured : AuthError
  invalid_provider_token : AuthError
  provider_email_unverified : AuthError
  email_verification_required : AuthError
  invalid_lifecycle_token : AuthError
  reauthentication_required : AuthError
  password_already_set : AuthError
  email_outbox_not_found : AuthError
  account_banned : AuthError
  account_suspended : AuthError
  invalid_token : AuthError
  hashing : AuthError
  signing : AuthError
  random_source : AuthError
  hook : AuthError
  provider : AuthError
  delivery : AuthError

pub record User : Type 0 where
  pub id : Text
  pub email : Text
  pub display_name : Text
  pub avatar_key : Text
  pub password_hash : Text
  pub has_password : Bool
  pub email_verified_at : Option ℕ
  pub auth_version : ℕ
  pub role : Text
  pub suspended_until : Option ℕ
  pub suspension_reason : Text
  pub banned_at : Option ℕ
  pub ban_reason : Text
  pub signup_ip_hash : Text

abbrev pub role_user : Text
role_user = codes "user"

abbrev pub role_moderator : Text
role_moderator = codes "moderator"

abbrev pub role_admin : Text
role_admin = codes "admin"

unfoldable pub is_banned : User → Bool
is_banned u = is_some u.banned_at

unfoldable pub is_suspended : ℕ → User → Bool
is_suspended now u = elim u.suspended_until [ none ↦ false | some t ↦ ltb now t ]

unfoldable pub is_moderator : User → Bool
is_moderator u = text_eq u.role role_moderator || text_eq u.role role_admin

unfoldable pub is_admin : User → Bool
is_admin u = text_eq u.role role_admin

pub record PublicUser : Type 0 where
  pub id : Text
  pub email : Text
  pub display_name : Text
  pub email_verified : Bool
  pub has_password : Bool
  pub role : Text
  pub suspended_until : Option ℕ
  pub suspension_reason : Text

unfoldable pub public_user : User → PublicUser
public_user u = record {
  id = u.id;
  email = u.email;
  display_name = u.display_name;
  email_verified = is_some u.email_verified_at;
  has_password = u.has_password;
  role = u.role;
  suspended_until = u.suspended_until;
  suspension_reason = u.suspension_reason;
}

pub record RankableUser : Type 0 where
  pub id : Text
  pub display_name : Text
  pub avatar_key : Text

pub record RegisterInput : Type 0 where
  pub email : Text
  pub password : Text
  pub display_name : Text
  pub avatar_key : Text
  pub signup_ip : Text

pub record AuthIdentity : Type 0 where
  pub id : Text
  pub user_id : Text
  pub provider : Text
  pub provider_subject : Text
  pub email : Text
  pub email_verified : Bool

pub record ProviderClaims : Type 0 where
  pub provider : Text
  pub subject : Text
  pub email : Text
  pub email_verified : Bool
  pub display_name : Text
  pub avatar_key : Text

abbrev pub provider_google : Text
provider_google = codes "google"

abbrev pub provider_apple : Text
provider_apple = codes "apple"

-- repository.go's `memoryLifecycleToken`: a `LifecycleToken` and the time it was used at.
pub record LifecycleToken : Type 0 where
  pub id : Text
  pub user_id : Text
  pub token_hash : Text
  pub expires_at : ℕ
  pub created_at : ℕ

pub record MemoryToken : Type 0 where
  pub token : LifecycleToken
  pub consumed_at : Option ℕ

abbrev pub email_kind_verification : Text
email_kind_verification = codes "email_verification"

pub record EmailOutboxMessage : Type 0 where
  pub id : Text
  pub user_id : Text
  pub kind : Text
  pub recipient : Text
  pub verification_url : Text
  pub created_at : ℕ
  pub available_at : ℕ
  pub claimed_at : Option ℕ
  pub delivered_at : Option ℕ
  pub attempts : ℕ
  pub last_error : Text

abbrev pub second : ℕ
second = 1000000000

-- 5 * time.Minute
abbrev pub email_outbox_lease_ttl : ℕ
email_outbox_lease_ttl = 300 * second

-- 15 * time.Second
abbrev pub email_outbox_retry_delay : ℕ
email_outbox_retry_delay = 15 * second

abbrev pub email_outbox_batch_size : ℕ
email_outbox_batch_size = 20

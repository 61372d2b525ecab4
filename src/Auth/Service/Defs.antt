-- ===== src/Auth/Service/Defs.antt =====
-- backend/internal/auth/service.go, jwt.go: the service's fields, and the libraries it uses as
-- parameters. A `X` is the state of what stands outside of the package: the senders of email and
-- the stores that the hooks of an account write to.
use finance_app.Base.{
  ℕ, ◌+◌, ◌*◌, Bool, false, Option, none, some, List, [], ◌∷◌, if◌then◌else◌, ltb, ◌==◌, take,
  reverse, ◌≡◌,
}
use finance_app.Base.Text.{Text, codes, trim_space, is_empty}
use finance_app.Base.Result.{Result, ok, err}
use finance_app.Auth.Defs.{User, LifecycleToken, ProviderClaims, AuthError, second, is_banned}
use finance_app.Auth.Repository.Accounts.{Hook}

-- jwt.go's `Claims`.
pub record Claims : Type 0 where
  pub user_id : Text
  pub email : Text
  pub auth_version : ℕ
  pub subject : Text
  pub issued_at : ℕ
  pub expires_at : ℕ

-- bcrypt, crypto/sha256, crypto/hmac and golang-jwt. The first argument of `hash_password` is its
-- random salt; `parse` checks the method, the signature and the expiry at a time.
pub record Crypto : Type 0 where
  pub hash_password : ℕ → Text → Option Text
  pub password_matches : Text → Text → Bool
  pub sha256_hex : Text → Text
  pub hmac_hex : Text → Text → Text
  pub numeric_date : ℕ → ℕ
  pub sign : Text → Claims → Option Text
  pub parse : Text → ℕ → Text → Option Claims

-- What golang-jwt documents of a token that it signed: with the same key and before its expiry it
-- parses to its claims, and from its expiry on it does not parse.
pub record Laws (c : Crypto) : Type 0 where
  pub parse-sign :
      (key token : Text) (now : ℕ) (claims : Claims)
      → c.sign key claims ≡ some token
      → c.parse key now token ≡ (if ltb now claims.expires_at then some claims else none)

pub record TokenManager : Type 0 where
  pub secret : Text
  pub expiry : ℕ

abbrev pub Verifier : Type 0
Verifier = Text → Result AuthError ProviderClaims

-- A sender answers the text of its error, or none.
abbrev pub Send : Type 0 → Type 0
Send X = Text → Text → X → Option Text × X

pub record EmailSender (X : Type 0) : Type 0 where
  pub send_verification : Send X
  pub send_password_reset : Send X

pub record Service (X : Type 0) : Type 0 where
  pub crypto : Crypto
  pub tokens : TokenManager
  pub google_enabled : Bool
  pub apple_enabled : Bool
  pub google_verifier : Option Verifier
  pub apple_verifier : Option Verifier
  pub deletion_hooks : List (Hook X)
  pub creation_hooks : List (Hook X)
  pub tx_creation_hooks : List (Hook X)
  pub email_sender : EmailSender X
  pub public_app_url : Text
  pub verification_ttl : ℕ
  pub reset_ttl : ℕ
  pub reauth_ttl : ℕ
  pub signup_ip_pepper : Text

abbrev pub min_password_length : ℕ
min_password_length = 8

abbrev pub max_avatar_key_length : ℕ
max_avatar_key_length = 40

unfoldable pub truncate_runes : Text → ℕ → Text
truncate_runes value max = take max value

-- `len` of a Go string: the bytes of its UTF-8 form.
unfoldable pub byte_length : Text → ℕ
byte_length [] = 0
byte_length (c ∷ s) =
    (if ltb c 0x80 then 1 else if ltb c 0x800 then 2 else if ltb c 0x10000 then 3 else 4)
    + byte_length s

abbrev pub hour : ℕ
hour = 3600 * second

-- `NewService`, with the sender given to it.
abbrev pub new_service : {X : Type 0} → Crypto → TokenManager → EmailSender X → Service X
new_service crypto tokens sender = record {
  crypto = crypto;
  tokens = tokens;
  google_enabled = false;
  apple_enabled = false;
  google_verifier = none;
  apple_verifier = none;
  deletion_hooks = [];
  creation_hooks = [];
  tx_creation_hooks = [];
  email_sender = sender;
  public_app_url = codes "http://localhost:5137";
  verification_ttl = 24 * hour;
  reset_ttl = hour;
  reauth_ttl = 300 * second;
  signup_ip_pepper = [];
}

pub record LifecycleConfig (X : Type 0) : Type 0 where
  pub email_sender : Option (EmailSender X)
  pub public_app_url : Text
  pub verification_ttl : ℕ
  pub reset_ttl : ℕ
  pub reauth_ttl : ℕ

unfoldable pub drop_slashes : Text → Text
drop_slashes [] = []
drop_slashes (c ∷ s) = let rest = drop_slashes s in if c == b'/' then rest else c ∷ s

module _ {X : Type 0} where
  unfoldable pub configure_lifecycle : LifecycleConfig X → Service X → Service X
  unfolding drop_slashes
  configure_lifecycle cfg s = record s {
    email_sender = elim cfg.email_sender [ none ↦ s.email_sender | some e ↦ e ];
    public_app_url =
        if is_empty (trim_space cfg.public_app_url)
        then s.public_app_url
        else reverse (drop_slashes (reverse cfg.public_app_url));
    verification_ttl =
        if ltb 0 cfg.verification_ttl then cfg.verification_ttl else s.verification_ttl;
    reset_ttl = if ltb 0 cfg.reset_ttl then cfg.reset_ttl else s.reset_ttl;
    reauth_ttl = if ltb 0 cfg.reauth_ttl then cfg.reauth_ttl else s.reauth_ttl;
  }

  unfoldable pub hash_signup_ip : Service X → Text → Text
  hash_signup_ip s ip =
      if is_empty s.signup_ip_pepper
      then []
      else if is_empty ip
      then []
      else s.crypto.hmac_hex s.signup_ip_pepper ip

  -- jwt.go: `Generate` and `Parse`.
  unfoldable pub generate : Service X → ℕ → Text → Text → ℕ → Result AuthError Text
  generate s now user_id email version =
      elim (s.crypto.sign s.tokens.secret (record {
        user_id = user_id;
        email = email;
        auth_version = version;
        subject = user_id;
        issued_at = s.crypto.numeric_date now;
        expires_at = s.crypto.numeric_date (now + s.tokens.expiry);
      })) [ none ↦ err AuthError.signing | some t ↦ ok t ]

  unfoldable pub parse : Service X → ℕ → Text → Result AuthError Claims
  parse s now token = elim (s.crypto.parse s.tokens.secret now token) [
    | none ↦ err AuthError.invalid_token
    | some c ↦ ok c
  ]

  unfoldable pub issue : Service X → ℕ → User → Result AuthError (User × Text)
  issue s now u =
      if is_banned u
      then err AuthError.account_banned
      else elim (generate s now u.id u.email u.auth_version) [ err e ↦ err e | ok t ↦ ok (u, t) ]

  -- `raw` is the base64 text of 32 random bytes, or none where reading them fails.
  unfoldable pub new_lifecycle_token :
      Service X → ℕ → Text → Option Text → Text → ℕ → Result AuthError (Text × LifecycleToken)
  new_lifecycle_token s now id raw user ttl = elim raw [
    | none ↦ err AuthError.random_source
    | some value ↦ ok (
      value,
      record {
        id = id;
        user_id = user;
        token_hash = s.crypto.sha256_hex value;
        expires_at = now + ttl;
        created_at = now;
      },
    )
  ]

  unfoldable pub hash_lifecycle_token : Service X → Text → Text
  hash_lifecycle_token s raw = s.crypto.sha256_hex (trim_space raw)

  unfoldable pub hash_password : Service X → ℕ → Text → Result AuthError Text
  hash_password s salt password = elim (s.crypto.hash_password salt password) [
    | none ↦ err AuthError.hashing
    | some h ↦ ok h
  ]

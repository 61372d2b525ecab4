-- ===== src/Auth/Sample.antt =====
-- Libraries that compute, and an account that is registered, verified and logged in.
use finance_app.Base.{
  ℕ, ◌+◌, ◌≡◌, refl, ap, true, Option, none, some, [], ◌∷◌, ◌++◌, if◌then◌else◌, ltb, ◌==◌, arith,
  take, drop, length,
}
use finance_app.Base.Text.{Text, codes, text_eq, text_eq_iff}
use finance_app.Base.Result.{ok, err}
use finance_app.Auth.Defs.{User, RegisterInput, role_user}
use finance_app.Auth.Repository.Defs.{Repository, new_in_memory_user_repository}
use finance_app.Auth.Service.Defs.{Service, Crypto, Laws, Claims, new_service}
use finance_app.Auth.Service.Registration.{Draws, register_context, verify_email}
use finance_app.Auth.Service.Login.{login}
use finance_app.Auth.Middleware.{Request, session_cookie_name}

-- A token that spells its claims out, with the lengths of its texts first.
abbrev sign : Text → Claims → Option Text
sign key c = some (
    length c.user_id
    ∷ length c.email
    ∷ length c.subject
    ∷ c.auth_version
    ∷ c.issued_at
    ∷ c.expires_at
    ∷ (c.user_id ++ (c.email ++ (c.subject ++ []))))

abbrev fields : Text → Option Claims
fields (a ∷ b ∷ c ∷ version ∷ issued ∷ expires ∷ rest) = some (record {
  user_id = take a rest;
  email = take b (drop a rest);
  auth_version = version;
  subject = take c (drop b (drop a rest));
  issued_at = issued;
  expires_at = expires;
})
fields _ = none

abbrev parse_token : Text → ℕ → Text → Option Claims
parse_token key now token = elim (fields token) [
  | none ↦ none
  | some c ↦ if ltb now c.expires_at then some c else none
]

abbrev pub crypto : Crypto
crypto = record {
  hash_password = λ salt p. some (salt ∷ p);
  password_matches = λ h p. text_eq (drop 1 h) p;
  sha256_hex = λ t. b'#' ∷ t;
  hmac_hex = λ k t. k ++ t;
  numeric_date = λ t. t;
  sign = sign;
  parse = parse_token;
}

take-append : (xs ys : Text) → take (length xs) (xs ++ ys) ≡ xs
take-append [] ys = refl
take-append (x ∷ xs) ys = ap (λ t. x ∷ t) (take-append xs ys)

drop-append : (xs ys : Text) → drop (length xs) (xs ++ ys) ≡ ys
drop-append [] ys = refl
drop-append (x ∷ xs) ys = drop-append xs ys

fields-sign :
    (c : Claims)
    → fields (
        length c.user_id
        ∷ length c.email
        ∷ length c.subject
        ∷ c.auth_version
        ∷ c.issued_at
        ∷ c.expires_at
        ∷ (c.user_id ++ (c.email ++ (c.subject ++ []))))
      ≡ some c
fields-sign c =
    rw
      (
        drop-append c.user_id (c.email ++ (c.subject ++ [])),
        take-append c.user_id (c.email ++ (c.subject ++ [])),
        drop-append c.email (c.subject ++ []),
        take-append c.email (c.subject ++ []),
        take-append c.subject [],
      )
      refl

pub crypto-Laws : Laws crypto
crypto-Laws = record { parse-sign = λ key token now claims h. ground (arith, fields-sign claims) }

pub bcrypt_matches :
    (salt : ℕ) (p hash : Text)
    → crypto.hash_password salt p ≡ some hash
    → crypto.password_matches hash p ≡ true
bcrypt_matches salt p hash h = ground (arith, text_eq_iff p p)

-- A sender whose first email is refused.
abbrev pub service : Service ℕ
service =
    new_service crypto (record { secret = codes "key"; expiry = 1000 })
      (record {
        send_verification = λ to url x. (if x == 0 then some (codes "refused") else none, x + 1);
        send_password_reset = λ to url x. (none, x + 1);
      })

abbrev pub draws : Draws
draws = record {
  user_id = codes "u-1";
  token_id = codes "t-1";
  message_id = codes "m-1";
  salt = 7;
  raw = some (codes "raw");
}

abbrev pub input : RegisterInput
input = record {
  email = codes " Ann@Example.org ";
  password = codes "password";
  display_name = codes "Ann";
  avatar_key = [];
  signup_ip = [];
}

abbrev pub registered : Repository
registered = (register_context service 10 draws input new_in_memory_user_repository 0).1

abbrev pub verified : Repository
verified = (verify_email service 20 (codes "raw") registered).1

abbrev pub ann : User
ann = record {
  id = codes "u-1";
  email = codes "ann@example.org";
  display_name = codes "Ann";
  avatar_key = codes "default";
  password_hash = 7 ∷ codes "password";
  has_password = true;
  email_verified_at = some 20;
  auth_version = 1;
  role = role_user;
  suspended_until = none;
  suspension_reason = [];
  banned_at = none;
  ban_reason = [];
  signup_ip_hash = [];
}

-- The token of a login at 30.
abbrev pub token : Text
token = elim (login service 30 (codes "ann@example.org") (codes "password") verified) [
  | ok (_, t) ↦ t
  | err _ ↦ []
]

abbrev pub request : Request
request = record { cookies = (session_cookie_name, token) ∷ []; authorization = [] }

-- ===== src/Auth/Laws/Signing.antt =====
-- Who is signed in: what every way of signing in checks, and what the middleware then admits.
use finance_app.Base.{
  ℕ, ◌+◌, ◌≡◌, sym, true, false, some, if◌then◌else◌, ==_iff, ltb, arith, Option-cases, inl, inr,
  is_some,
}
use finance_app.Base.Text.{Text}
use finance_app.Base.Assoc.{lookup}
use finance_app.Base.Result.{Result, ok, Result-cases}
use finance_app.Auth.Defs.{User, ProviderClaims, AuthError, is_banned, provider_google}
use finance_app.Auth.Repository.Defs.{Repository, normalize_email, find_by_id, find_by_email}
use finance_app.Auth.Repository.Accounts.{find_identity, create_provider_user}
use finance_app.Auth.Repository.Tokens.{verify_email_token}
use finance_app.Auth.Service.Defs.{
  Service, Laws, Claims, issue, generate, parse, hash_lifecycle_token,
}
use finance_app.Auth.Service.Registration.{Draws, verify_email}
use finance_app.Auth.Service.Login.{
  login, login_with_google, login_with_apple, login_with_provider_claims, link_or_register,
  register_provider_user, provider_user, provider_identity, verified, apple_claims,
}
use finance_app.Auth.Middleware.{Request, Access, session_token, require_auth_with_user}
use finance_app.Auth.Laws.Index.{IsIndexed}

module _ {X : Type 0} (s : Service X) where
  abbrev pub claims_of : ℕ → User → Claims
  claims_of now u = record {
    user_id = u.id;
    email = u.email;
    auth_version = u.auth_version;
    subject = u.id;
    issued_at = s.crypto.numeric_date now;
    expires_at = s.crypto.numeric_date (now + s.tokens.expiry);
  }

  issue-ok :
      (now : ℕ) (u v : User) (t : Text)
      → issue s now u ≡ ok (v, t)
      → (is_banned u ≡ false) × (u ≡ v) × (s.crypto.sign s.tokens.secret (claims_of now u) ≡ some t)
  unfolding issue generate
  issue-ok now u v t h = elim (Option-cases (s.crypto.sign s.tokens.secret (claims_of now u))) [
    | inl e ↦ absurd (ground arith)
    | inr (a, e) ↦ ground arith
  ]

  -- A password signs in exactly the account under the address, if the hash matches the password, the
  -- account has a password, its email is verified and it is not banned.
  login-ok :
      (now : ℕ) (email password : Text) (r : Repository) (u : User) (t : Text)
      → login s now email password r ≡ ok (u, t)
      → (find_by_email email r ≡ ok u)
        × (s.crypto.password_matches u.password_hash password ≡ true)
        × (u.has_password ≡ true)
        × (is_some u.email_verified_at ≡ true)
        × (issue s now u ≡ ok (u, t))
  unfolding login
  login-ok now email password r u t h = elim (Result-cases (find_by_email email r)) [
    | inl (v, e) ↦
        let issued : issue s now v ≡ ok (u, t) = ground arith in
        ground (arith, (issue-ok now v u t issued).1)
    | inr (bad, e) ↦ absurd (ground arith)
  ]

  -- A sign-in with a password is worth a session up to the expiry of its token: as long as the
  -- repository is the same, the middleware admits each request with the token as the user of the
  -- address before that time, and refuses it from that time on.
  pub login_admits :
      Laws s.crypto
      → (r : Repository) → IsIndexed r
      → (now later : ℕ) (email password : Text) (u : User) (t : Text) (q : Request)
      → login s now email password r ≡ ok (u, t)
      → session_token q ≡ some t
      → require_auth_with_user s later q r ≡ (
          if ltb later (s.crypto.numeric_date (now + s.tokens.expiry))
          then Access.admitted u.id
          else Access.unauthorized)
  unfolding require_auth_with_user parse find_by_id find_by_email
  login_admits laws r x now later email password u t q h token =
      let (found, _, _, _, issued) = login-ok now email password r u t h in
      let (free, _, signed) = issue-ok now u u t issued in
      let parsed = laws.parse-sign s.tokens.secret t later (claims_of now u) signed in
      elim (Option-cases (lookup (normalize_email email) r.by_email)) [
        | inl e ↦ absurd (ground arith)
        | inr (p, e) ↦
            let (_, i) = x.emails (normalize_email email) p e in
            let same : r.heap p ≡ u = ground arith in
            let at : lookup u.id r.by_id ≡ some p = rw (sym same) i in
            ground (arith, ==_iff u.auth_version u.auth_version)
      ]

  -- A call that answers a user and a token has ended in `issue`.
  link_or_register-issues :
      (now : ℕ) (draws : Draws) (claims : ProviderClaims) (r : Repository) (x : X) (u : User)
      (t : Text)
      → (link_or_register s now draws claims r x).0 ≡ ok (u, t)
      → (v : User) × (issue s now v ≡ ok (u, t))
  unfolding link_or_register register_provider_user
  link_or_register-issues now draws claims r x u t h =
      let email = normalize_email claims.email in
      let new = provider_user s now draws email claims in
      let identity = provider_identity s draws new.id email claims in
      elim (Result-cases (find_by_email email r)) [
        | inl (v, e) ↦ (v, ground arith)
        | inr (bad, e) ↦
            elim (Result-cases (create_provider_user new identity s.tx_creation_hooks r x).0) [
              | inl (done, f) ↦ (new, ground arith)
              | inr (worse, f) ↦ absurd (ground arith)
            ]
      ]

  provider_claims-issues :
      (now : ℕ) (draws : Draws) (claims : ProviderClaims) (r : Repository) (x : X) (u : User)
      (t : Text)
      → (login_with_provider_claims s now draws claims r x).0 ≡ ok (u, t)
      → (v : User) × (issue s now v ≡ ok (u, t))
  unfolding login_with_provider_claims
  provider_claims-issues now draws claims r x u t h =
      elim (Result-cases (find_identity claims.provider claims.subject r)) [
        | inl (i, e) ↦ elim (Result-cases (find_by_id i.user_id r)) [
          | inl (v, f) ↦ (v, ground arith)
          | inr (bad, f) ↦ absurd (ground arith)
        ]
        | inr (bad, e) ↦ link_or_register-issues now draws claims r x u t (ground arith)
      ]

  -- The ways of signing in, and the answer of each.
  pub data SignIn : Type 0 where
    with_password : Text → Text → SignIn
    with_google : Draws → Text → SignIn
    with_apple : Draws → Text → ProviderClaims → SignIn
    with_link : Text → SignIn

  abbrev pub sign_in : ℕ → SignIn → Repository → X → Result AuthError (User × Text)
  sign_in now (with_password email password) r x = login s now email password r
  sign_in now (with_google draws credential) r x = (login_with_google s now draws credential r x).0
  sign_in now (with_apple draws credential fallback) r x =
      (login_with_apple s now draws credential fallback r x).0
  sign_in now (with_link raw) r x = (verify_email s now raw r).0

  sign_in-issues :
      (now : ℕ) (w : SignIn) (r : Repository) (x : X) (u : User) (t : Text)
      → sign_in now w r x ≡ ok (u, t)
      → (v : User) × (issue s now v ≡ ok (u, t))
  unfolding login_with_google login_with_apple verify_email
  sign_in-issues now (with_password email password) r x u t h =
      (u, (login-ok now email password r u t h).4)
  sign_in-issues now (with_google draws credential) r x u t h =
      elim (Result-cases (verified s s.google_enabled s.google_verifier credential)) [
        | inl (claims, e) ↦
            provider_claims-issues now draws (record claims { provider = provider_google }) r x u t
              (ground arith)
        | inr (bad, e) ↦ absurd (ground arith)
      ]
  sign_in-issues now (with_apple draws credential fallback) r x u t h =
      elim (Result-cases (verified s s.apple_enabled s.apple_verifier credential)) [
        | inl (claims, e) ↦
            provider_claims-issues now draws (apple_claims s claims fallback) r x u t (ground arith)
        | inr (bad, e) ↦ absurd (ground arith)
      ]
  sign_in-issues now (with_link raw) r x u t h =
      elim (Result-cases (verify_email_token now (hash_lifecycle_token s raw) r).0) [
        | inl (v, e) ↦ (v, ground arith)
        | inr (bad, e) ↦ absurd (ground arith)
      ]

  -- No way of signing in, by a password, with Google, with Apple or by the link that verifies an
  -- email, signs in a banned account, and the token that it answers is signed for the id, the address
  -- and the version of the account.
  pub sign_in_not_banned :
      (now : ℕ) (w : SignIn) (r : Repository) (x : X) (u : User) (t : Text)
      → sign_in now w r x ≡ ok (u, t)
      → (is_banned u ≡ false) × (s.crypto.sign s.tokens.secret (claims_of now u) ≡ some t)
  sign_in_not_banned now w r x u t h =
      let (v, issued) = sign_in-issues now w r x u t h in
      let (free, same, signed) = issue-ok now v u t issued in
      (rw (sym same) free, rw (sym same) signed)
